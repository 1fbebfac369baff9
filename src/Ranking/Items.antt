-- ===== src/Ranking/Items.antt =====
-- The candidates that are collected: their entries are distinct, and each is that of its item.
use nomai.Base.{
  ℕ, ◌+◌, ◌≤◌, ◌≡◌, ◌≢◌, ◌==◌, refl, ap, ◌∙◌, Bool, true, false, not, ◌||◌, some, List, [], ◌∷◌,
  arith, any, any_more, any-All, filter, length, if◌then◌else◌, All, All-map, IsKeyed, Bool-cases,
  Option-cases, ==_refl, inl, inr,
}
use nomai.Core.{Deps, Json, same_id}
use nomai.Core.Json.{null, bool, number, string, array, object, get_field, get_field-insert_field}
use nomai.Ranking.{
  Floats, AffinityHit, RankedCandidate, Candidates, Learned, or_null, index, set_index, as_str,
  and_then, map_or, entry_id, score_of, has_affinity, contains, add_base, add_bases, add_supplement,
  add_supplements, id_key, score_candidate, collect,
}
use nomai.Text.{Text, codes, text_eq}

module _ (d : Deps) (f : Floats d) where
  index-set_index :
      (k : Text) (v item : Json d)
      → text_eq k (codes "entry") ≡ false
      → index (codes "entry") (set_index k v item) ≡ index (codes "entry") item
  unfolding index set_index get_field
  index-set_index k v null h = rw h refl
  index-set_index k v (bool b) h = refl
  index-set_index k v (number n) h = refl
  index-set_index k v (string s) h = refl
  index-set_index k v (array xs) h = refl
  index-set_index k v (object fs) h =
      ap or_null {y = get_field (codes "entry") fs}
        (get_field-insert_field (codes "entry") k v fs ∙ rw h refl)

  -- Another key of an item can be set.
  pub entry_id-set_index :
      (k : Text) (v item : Json d)
      → text_eq k (codes "entry") ≡ false
      → entry_id d f (set_index k v item) ≡ entry_id d f item
  unfolding entry_id
  entry_id-set_index k v item h =
      ap (λ e. and_then (as_str (index (codes "id") e)) f.parse_ulid) (index-set_index k v item h)

  pub score_candidate-item :
      (l : Learned d f) (c : RankedCandidate d f)
      → entry_id d f (score_candidate d f l c).item ≡ entry_id d f c.item
  unfolding score_candidate text_eq
  score_candidate-item l c =
      entry_id-set_index (codes "signals") _ _ refl
      ∙ entry_id-set_index (codes "memory_factor") _ _ refl
      ∙ entry_id-set_index (codes "affinity_score") _ _ refl
      ∙ entry_id-set_index (codes "score") _ _ refl

  -- An item is of the entry with the id.
  abbrev pub is_of : d.Ulid → Json d → Bool
  is_of id item = map_or false (λ i. same_id d i id) (entry_id d f item)

  every :
      (items : List (Json d))
      → All
          (λ item. (id : d.Ulid) → entry_id d f item ≡ some id → any (is_of id) items ≡ true)
          items
  every [] = tt
  every (item ∷ items) = (
    λ id e. first id e,
    All-map _ _ (λ x h id e. any_more (is_of id) item items (h id e)) items (every items),
  )
    where
      first : (id : d.Ulid) → entry_id d f item ≡ some id → any (is_of id) (item ∷ items) ≡ true
      first id e = unfold any in rw (e, ==_refl (d.number id)) refl

  module _ (base : List (Json d)) (table : List (AffinityHit d f)) where
    abbrev pub in_base : RankedCandidate d f → Bool
    in_base c = any (is_of c.entry_id) base

    -- A candidate that may be there, with the item of its entry.
    abbrev pub IsAllowed : RankedCandidate d f → Type 0
    IsAllowed c =
        (entry_id d f c.item ≡ some c.entry_id)
        × ((in_base c || has_affinity d f c.entry_id table) ≡ true)

    -- The candidates, `n` of them from elsewhere than the base.
    pub record IsCollected (n : ℕ) (cs : List (RankedCandidate d f)) : Type 0 where
      pub keyed : IsKeyed (id_key d f) cs
      pub allowed : All IsAllowed cs
      pub others : length (filter (λ c. not (in_base c)) cs) ≤ n

    more : (n m : ℕ) (cs : List (RankedCandidate d f)) → n ≤ m → IsCollected n cs → IsCollected m cs
    more n m cs h v = record {
      keyed = v.keyed;
      allowed = v.allowed;
      others = let o = v.others in omega (arith, o, h);
    }

    new_key :
        (id : d.Ulid) (cs : List (RankedCandidate d f))
        → contains d f id cs ≡ false
        → All (λ c. d.number id ≢ id_key d f c) cs
    new_key id cs h = All-map _ _ (λ c k. ground (arith, k)) cs (any-All _ cs h)

    add_base-IsCollected :
        (item : Json d) (n : ℕ) (cs : List (RankedCandidate d f))
        → ((id : d.Ulid) → entry_id d f item ≡ some id → any (is_of id) base ≡ true)
        → IsCollected n cs
        → IsCollected n (add_base d f item cs)
    unfolding add_base
    add_base-IsCollected item n cs h v = elim (Option-cases (entry_id d f item)) [
      | inl e ↦ rw (e, add_base) v
      | inr (id, e) ↦ rw (e, add_base) (add id e)
    ]
      where
        add :
            (id : d.Ulid)
            → entry_id d f item ≡ some id
            → IsCollected n (
                if contains d f id cs
                then cs
                else record {
                  entry_id = id;
                  item = item;
                  fusion_score = score_of d f (codes "fusion_score") item;
                }
                  ∷ cs)
        add id e = elim (Bool-cases (contains d f id cs)) [
          | inl q ↦ rw q v
          | inr q ↦
              let known = h id e in
              rw q (record {
                keyed = (new_key id cs q, v.keyed);
                allowed = ((e, rw known refl), v.allowed);
                others = unfold filter in rw known (v.others);
              })
        ]

    add_bases-IsCollected :
        (items : List (Json d)) (n : ℕ) (cs : List (RankedCandidate d f))
        → All
            (λ item. (id : d.Ulid) → entry_id d f item ≡ some id → any (is_of id) base ≡ true)
            items
        → IsCollected n cs
        → IsCollected n (add_bases d f items cs)
    unfolding add_bases
    add_bases-IsCollected [] n cs h v = v
    add_bases-IsCollected (item ∷ items) n cs h v =
        add_bases-IsCollected items n (add_base d f item cs) h.1
          (add_base-IsCollected item n cs h.0 v)

    abbrev IsState : Candidates d f → Type 0
    IsState st = IsCollected st.added st.all

    add_supplement-IsCollected :
        (item : Json d) (st : Candidates d f)
        → IsState st
        → IsState (add_supplement d f table item st)
    unfolding add_supplement
    add_supplement-IsCollected item st v = elim (Option-cases (entry_id d f item)) [
      | inl e ↦ rw (e, add_supplement) v
      | inr (id, e) ↦ rw (e, add_supplement) (add id e)
    ]
      where
        abbrev_item : Json d
        abbrev_item = set_index (codes "fusion_score") (f.score_to_value f.zero_score) item

        named : (id : d.Ulid) → entry_id d f item ≡ some id → entry_id d f abbrev_item ≡ some id
        named id e = entry_id-set_index (codes "fusion_score") _ item (unfold text_eq in refl) ∙ e

        known :
            (id : d.Ulid)
            → (contains d f id st.all || not (has_affinity d f id table)) ≡ false
            → (any (is_of id) base || has_affinity d f id table) ≡ true
        known id q = ground (arith, q)

        counted :
            (id : d.Ulid)
            → length (
                filter
                  (λ c. not (in_base c))
                  (record { entry_id = id; item = abbrev_item; fusion_score = f.zero_score }
                    ∷ st.all))
              ≤ st.added + 1
        counted id = let o = v.others in unfold filter in ground (arith, o)

        add :
            (id : d.Ulid)
            → entry_id d f item ≡ some id
            → IsState (
                if contains d f id st.all || not (has_affinity d f id table) then st else record {
                  added = st.added + 1;
                  all =
                      record { entry_id = id; item = abbrev_item; fusion_score = f.zero_score }
                      ∷ st.all;
                })
        add id e = elim (Bool-cases (contains d f id st.all || not (has_affinity d f id table))) [
          | inl q ↦ rw q v
          | inr q ↦ rw q (record {
            keyed = (new_key id st.all (ground (arith, q)), v.keyed);
            allowed = ((named id e, known id q), v.allowed);
            others = counted id;
          })
        ]

    -- At most `limit` supplements are added.
    add_supplements-IsCollected :
        (limit : ℕ) (items : List (Json d)) (st : Candidates d f)
        → st.added ≤ limit
        → IsState st
        → IsCollected limit (add_supplements d f table limit items st).all
    unfolding add_supplements
    add_supplements-IsCollected limit [] st h v = more st.added limit st.all h v
    add_supplements-IsCollected limit (item ∷ items) st h v =
        elim (Bool-cases (st.added == limit)) [
          | inl q ↦ rw q (more st.added limit st.all h v)
          | inr q ↦ rw q (
              add_supplements-IsCollected limit items (add_supplement d f table item st)
                (one_more q) (add_supplement-IsCollected item st v))
        ]
      where
        one_more : (st.added == limit) ≡ false → (add_supplement d f table item st).added ≤ limit
        one_more q = unfold add_supplement in ground (arith, q, h)

    pub collect-IsCollected :
        (supplemental : List (Json d)) (limit : ℕ)
        → IsCollected limit (collect d f base supplemental table limit)
    unfolding collect
    collect-IsCollected supplemental limit =
        add_supplements-IsCollected limit supplemental _ (omega arith) (
          add_bases-IsCollected base 0 [] (every base)
            (record { keyed = tt; allowed = tt; others = unfold filter in omega arith }))
