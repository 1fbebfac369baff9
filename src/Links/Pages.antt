-- ===== src/Links/Pages.antt =====
-- What `list` answers, page by page, and after an entry was reindexed.
use nomai.Base.{
  ◌+◌, ◌≡◌, refl, sym, ap, ◌∙◌, Bool, false, ◌&&◌, some, List, [], ◌∷◌, ◌++◌, arith, take, drop,
  length, filter, ◌↔◌, ◌⊎◌, inl, inr, ==_refl, Option, none, true, subst, All, All-map, Bool-cases,
  Rearranged, sort_by-Rearranged, IsOrdered, sort_by-IsOrdered, take-append-take, drop-drop,
  length-sort_by, ok,
}
use nomai.Core.{Deps, same_id}
use nomai.Events.{if_given}
use nomai.Text.{Text, text_eq, text_lt}
use nomai.Text.Order.{
  text_eq_iff, text_lt_asym, text_lt_irrefl, text_lt_late, text_lt_same, text_lt_trans,
}
use nomai.Links.{Link, ListLinkQuery, ListLinkResult, Db}
use nomai.Links.Queries.{older, is_listed, listed, is_none, list}

module _ (d : Deps) where
  abbrev answer : ListLinkQuery d → Db d → ListLinkResult d
  answer q db = record {
    items = take q.limit (drop q.offset (listed d q db));
    total = length (listed d q db);
  }

  list-answer :
      (q : ListLinkQuery d) (db : Db d)
      → (is_none d q.from && is_none d q.to) ≡ false
      → list d q db ≡ ok (answer q db)
  unfolding list listed
  list-answer q db h = rw (h, sym (length-sort_by (older d) (filter (is_listed d q) db.links))) refl

  -- What a query asks of a link: each end and the relation, where they are given.
  pub record Matches (q : ListLinkQuery d) (l : Link d) : Type 0 where
    pub from : (s : d.Ulid) → q.from ≡ some s → l.source_id ≡ s
    pub to : (t : d.Ulid) → q.to ≡ some t → l.target_id ≡ t
    pub relation : (r : Text) → q.relation ≡ some r → l.relation ≡ r

  given_same :
      {A : Type 0} (p : A → Bool) (o : Option A) (x : A)
      → ((a : A) → (p a ≡ true) ↔ (x ≡ a))
      → (if_given p o ≡ true) ↔ ((a : A) → o ≡ some a → x ≡ a)
  given_same p none x h = ((λ e a f. cc), (λ f. refl))
  given_same p (some b) x h = (
    (λ e a f. let same : b ≡ a = cc in subst (λ c. x ≡ c) same ((h b).0 e)),
    (λ f. (h b).1 (f b refl)),
  )

  same_id_iff : (i j : d.Ulid) → (same_id d i j ≡ true) ↔ (i ≡ j)
  same_id_iff i j = (
    (λ e. d.number_inj i j (ground (arith, e))),
    (λ e. subst (λ k. same_id d i k ≡ true) e (==_refl (d.number i))),
  )

  is_listed_iff : (q : ListLinkQuery d) (l : Link d) → (is_listed d q l ≡ true) ↔ Matches q l
  unfolding is_listed
  is_listed_iff q l =
      let source =
        given_same (same_id d l.source_id) q.from l.source_id (same_id_iff l.source_id) in
      let target = given_same (same_id d l.target_id) q.to l.target_id (same_id_iff l.target_id) in
      let kind = given_same (text_eq l.relation) q.relation l.relation (text_eq_iff l.relation) in
      (
        (λ e. record {
          from = source.0 (ground (arith, e));
          to = target.0 (ground (arith, e));
          relation = kind.0 (ground (arith, e));
        }),
        (λ m. all_three _ _ _ (source.1 m.from) (target.1 m.to) (kind.1 m.relation)),
      )
    where
      all_three : (a b c : Bool) → a ≡ true → b ≡ true → c ≡ true → (a && b && c) ≡ true
      all_three a b c e f g = ground (arith, e, f, g)

  -- In the order of the times, and of the ids where these are the same; both are texts in the tables.
  abbrev pub IsNoLater : Link d → Link d → Type 0
  IsNoLater l m =
      (text_lt (d.to_rfc3339 l.created_at) (d.to_rfc3339 m.created_at) ≡ true)
      ⊎ ((d.to_rfc3339 l.created_at ≡ d.to_rfc3339 m.created_at)
          × (text_lt (d.ulid_to_string m.id) (d.ulid_to_string l.id) ≡ false))

  abbrev pub IsByTime : List (Link d) → Type 0
  IsByTime [] = Unit
  IsByTime (l ∷ ls) = All (IsNoLater l) ls × IsByTime ls

  older-false : (l m : Link d) → older d m l ≡ false → IsNoLater l m
  older-false l m h =
      elim (Bool-cases (text_lt (d.to_rfc3339 l.created_at) (d.to_rfc3339 m.created_at))) [
        | inl q ↦ inl q
        | inr q ↦
            let same =
              text_lt_same (d.to_rfc3339 l.created_at) (d.to_rfc3339 m.created_at) q
                (ground (arith, h)) in
            let equal =
              (text_eq_iff (d.to_rfc3339 m.created_at) (d.to_rfc3339 l.created_at)).1 (sym same) in
            inr (same, ground (arith, h, equal))
      ]

  older-of : (l m : Link d) → IsNoLater l m → older d m l ≡ false
  older-of l m (inl h) =
      let back = text_lt_asym (d.to_rfc3339 l.created_at) (d.to_rfc3339 m.created_at) h in
      elim (Bool-cases (text_eq (d.to_rfc3339 m.created_at) (d.to_rfc3339 l.created_at))) [
        | inr q ↦ ground (arith, back, q)
        | inl q ↦
            let same = (text_eq_iff (d.to_rfc3339 m.created_at) (d.to_rfc3339 l.created_at)).0 q in
            let wrong = subst (λ t. text_lt (d.to_rfc3339 l.created_at) t ≡ true) same h in
            let right = text_lt_irrefl (d.to_rfc3339 l.created_at) in cc
      ]
  older-of l m (inr (same, h)) =
      let back =
        subst (λ t. text_lt t (d.to_rfc3339 l.created_at) ≡ false) same
          (text_lt_irrefl (d.to_rfc3339 l.created_at)) in
      ground (arith, h, back)

  older_asym : (x y : Link d) → older d x y ≡ true → older d y x ≡ false
  older_asym x y h =
      older-of x y
        (elim (Bool-cases (text_lt (d.to_rfc3339 x.created_at) (d.to_rfc3339 y.created_at))) [
          | inl q ↦ inl q
          | inr q ↦ inr (
            (text_eq_iff (d.to_rfc3339 x.created_at) (d.to_rfc3339 y.created_at)).0
                (ground (arith, h, q)),
            text_lt_asym (d.ulid_to_string x.id) (d.ulid_to_string y.id) (ground (arith, h, q)),
          )
        ])

  IsNoLater-trans : (x y z : Link d) → IsNoLater x y → IsNoLater y z → IsNoLater x z
  IsNoLater-trans x y z (inl h) (inl k) = inl (text_lt_trans _ _ _ h k)
  IsNoLater-trans x y z (inl h) (inr (e, k)) =
      inl (subst (λ t. text_lt (d.to_rfc3339 x.created_at) t ≡ true) e h)
  IsNoLater-trans x y z (inr (e, h)) (inl k) =
      inl (subst (λ t. text_lt t (d.to_rfc3339 z.created_at) ≡ true) (sym e) k)
  IsNoLater-trans x y z (inr (e, h)) (inr (f, k)) = inr (e ∙ f, text_lt_late _ _ _ h k)

  older_late : (x y z : Link d) → older d y x ≡ false → older d z y ≡ false → older d z x ≡ false
  older_late x y z h k =
      older-of x z (IsNoLater-trans x y z (older-false x y h) (older-false y z k))

  by_time : (ls : List (Link d)) → IsOrdered (older d) ls → IsByTime ls
  by_time [] h = tt
  by_time (l ∷ ls) h = (All-map _ (IsNoLater l) (λ m e. older-false l m e) ls h.0, by_time ls h.1)

  -- The links that a query asks for, each as often as it is in the table, in their order.
  pub record IsListing (q : ListLinkQuery d) (db : Db d) (all : List (Link d)) : Type 0 where
    pub matches : Link d → Bool
    pub matches_iff : (l : Link d) → (matches l ≡ true) ↔ Matches q l
    pub complete : Rearranged (filter matches db.links) all
    pub ordered : IsByTime all

  listed-IsListing : (q : ListLinkQuery d) (db : Db d) → IsListing q db (listed d q db)
  unfolding listed
  listed-IsListing q db = record {
    matches = is_listed d q;
    matches_iff = is_listed_iff q;
    complete = sort_by-Rearranged (older d) (filter (is_listed d q) db.links);
    ordered =
        by_time _
          (sort_by-IsOrdered (older d) older_asym older_late (filter (is_listed d q) db.links));
  }

  -- A query with an end given succeeds, and so does the one for the page behind it. There is one list of
  -- the links that have the ends and the relation that are given, all of them and no others, in the
  -- order of their times, and of their ids where these are the same. Both answers count it, and the two
  -- pages together are one page of it, of twice the size.
  pub list-pages :
      (q : ListLinkQuery d) (db : Db d)
      → (is_none d q.from && is_none d q.to) ≡ false
      → (all : List (Link d)) × (r : ListLinkResult d) × (s : ListLinkResult d) × IsListing q db all
        × (list d q db ≡ ok r)
        × (list d (record q { offset = q.offset + q.limit }) db ≡ ok s)
        × (r.items ++ s.items ≡ take (q.limit + q.limit) (drop q.offset all))
        × (r.total ≡ length all)
        × (s.total ≡ length all)
  unfolding listed is_listed
  list-pages q db h =
      let next = record q { offset = q.offset + q.limit } in
      (
        listed d q db,
        answer q db,
        answer next db,
        listed-IsListing q db,
        list-answer q db h,
        list-answer next db h,
        ap (λ xs. take q.limit (drop q.offset (listed d q db)) ++ take q.limit xs)
              (sym (drop-drop q.offset q.limit _))
            ∙ take-append-take q.limit q.limit (drop q.offset (listed d q db)),
        refl,
        refl,
      )
