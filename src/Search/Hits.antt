-- ===== src/Search/Hits.antt =====
-- The hits of a search against their description: in the order of their best rows, and each with all rows
-- of its entry counted.
use nomai.Base.{
  ℕ, zero, suc, ◌+◌, ◌%◌, ◌^◌, ◌≡◌, refl, sym, ap, ◌∙◌, Bool, true, false, not, Option, none, some,
  List, [], ◌∷◌, ◌++◌, append-nil, append_assoc, arith, map, map-append, any, All, All-map, IsApart,
  filter-IsApart, filter, filter_none, filter-All, take, length, length-append, if◌then◌else◌, ltb,
  ==_refl, Bool-cases, inl, inr, any-All, Option-cases,
}
use nomai.Core.{Deps, same_id}
use nomai.Search.{
  Ranks, FtsRow, DedupedHit, ids_cap, count_match, new_hit, add_row, add_rows, dedupe_hits,
}

module _ (d : Deps) (r : Ranks d) where
  -- A row with its two ids.
  pub record Row : Type 0 where
    pub id : d.Ulid
    pub bid : d.Ulid
    pub row : FtsRow d r

  abbrev pub with_ids : Option d.Ulid → Option d.Ulid → FtsRow d r → List Row
  with_ids none bid row = []
  with_ids (some id) none row = []
  with_ids (some id) (some bid) row = record { id = id; bid = bid; row = row } ∷ []

  -- The rows whose ids are ULIDs.
  unfoldable pub parsed_rows : List (FtsRow d r) → List Row
  parsed_rows [] = []
  parsed_rows (row ∷ rows) =
      with_ids (r.parse_ulid row.entry_id) (r.parse_ulid row.block_id) row ++ parsed_rows rows

  abbrev pub same_entry : Row → Row → Bool
  same_entry x y = same_id d x.id y.id

  -- The first row of each entry.
  unfoldable pub firsts : List Row → List Row
  firsts [] = []
  firsts (x ∷ xs) = x ∷ filter (λ y. not (same_entry x y)) (firsts xs)

  -- The hit whose best row is `x`, with all rows of the entry.
  unfoldable pub summary : List Row → Row → DedupedHit d r
  summary rows x =
      let its = filter (same_entry x) rows in
      record {
        entry_id = x.id;
        score = r.to_score x.row.rank;
        match_count = length its % 2 ^ 32;
        matched_block_ids = take ids_cap (map (λ y. y.bid) its);
        best_block_id = x.bid;
        best_block_type = x.row.block_type;
        best_text = x.row.text;
      }

  take_snoc :
      (n : ℕ) (ids : List d.Ulid) (b : d.Ulid)
      → (if ltb (length (take n ids)) n then take n ids ++ b ∷ [] else take n ids)
        ≡ take n (ids ++ b ∷ [])
  take_snoc zero ids b = refl
  take_snoc (suc zero) [] b = refl
  take_snoc (suc (suc n)) [] b = ground (arith)
  take_snoc (suc n) (i ∷ ids) b = ground (arith, take_snoc n ids b)

  firsts-IsApart : (rows : List Row) → IsApart same_entry (firsts rows)
  unfolding firsts
  firsts-IsApart [] = tt
  firsts-IsApart (x ∷ xs) = (
    All-map _ _ (λ y h. ground (arith, h)) _ (filter-All (λ y. not (same_entry x y)) (firsts xs)),
    filter-IsApart same_entry _ (firsts xs) (firsts-IsApart xs),
  )

  filter-snoc :
      (p : Row → Bool) (xs : List Row) (x : Row)
      → filter p (xs ++ x ∷ []) ≡ (if p x then filter p xs ++ x ∷ [] else filter p xs)
  unfolding filter
  filter-snoc p [] x = refl
  filter-snoc p (y ∷ xs) x = ground (arith, filter-snoc p xs x)

  any-filter_same :
      (p q : Row → Bool) (xs : List Row)
      → ((x : Row) → p x ≡ true → q x ≡ true)
      → any p (filter q xs) ≡ any p xs
  unfolding any filter
  any-filter_same p q [] h = refl
  any-filter_same p q (x ∷ xs) h =
      let rest = any-filter_same p q xs h in
      elim (Bool-cases (p x)) [
        | inl e ↦ rw (h x e, e) refl
        | inr e ↦ elim (Bool-cases (q x)) [ inl f ↦ rw (f, e) rest | inr f ↦ rw (f, e) rest ]
      ]

  same_trans :
      (y z x : Row) → same_entry y x ≡ false → same_entry z x ≡ true → same_entry y z ≡ false
  same_trans y z x h e = ground (arith, h, e)

  same_sym : (y x : Row) → same_entry y x ≡ same_entry x y
  same_sym y x = ground (arith)

  -- One row more.
  firsts-step :
      (y x : Row) (xs : List Row)
      → y
          ∷ filter
              (λ z. not (same_entry y z))
              (if any (λ z. same_entry z x) xs then xs else xs ++ x ∷ [])
        ≡ (if any (λ z. same_entry z x) (y ∷ filter (λ z. not (same_entry y z)) xs)
            then y ∷ filter (λ z. not (same_entry y z)) xs
            else (y ∷ filter (λ z. not (same_entry y z)) xs) ++ x ∷ [])
  unfolding any
  firsts-step y x xs = elim (Bool-cases (same_entry y x)) [
    | inl e ↦ ground (arith, e, filter-snoc (λ z. not (same_entry y z)) xs x)
    | inr e ↦
        let keep =
          any-filter_same (λ z. same_entry z x) (λ z. not (same_entry y z)) xs
            (λ z k. ap not (same_trans y z x e k)) in
        elim (Bool-cases (any (λ z. same_entry z x) xs)) [
          | inl g ↦ rw (e, keep, g) refl
          | inr g ↦ rw (e, keep, g, filter-snoc (λ z. not (same_entry y z)) xs x, e) refl
        ]
  ]

  firsts-snoc :
      (xs : List Row) (x : Row)
      → firsts (xs ++ x ∷ [])
        ≡ (if any (λ y. same_entry y x) (firsts xs) then firsts xs else firsts xs ++ x ∷ [])
  unfolding firsts any filter
  firsts-snoc [] x = refl
  firsts-snoc (y ∷ xs) x = rw (firsts-snoc xs x) (firsts-step y x (firsts xs))

  firsts-any :
      (xs : List Row) (x : Row)
      → any (λ y. same_entry y x) (firsts xs) ≡ any (λ y. same_entry y x) xs
  unfolding firsts any
  firsts-any [] x = refl
  firsts-any (y ∷ xs) x = elim (Bool-cases (same_entry y x)) [
    | inl e ↦ rw e refl
    | inr e ↦ rw e (
        any-filter_same (λ z. same_entry z x) (λ z. not (same_entry y z)) (firsts xs)
          (λ z k. ap not (same_trans y z x e k))
        ∙ firsts-any xs x)
  ]

  -- A row of another entry, and one of the entry.
  summary-other :
      (pre : List Row) (x y : Row)
      → same_entry y x ≡ false
      → summary (pre ++ x ∷ []) y ≡ summary pre y
  unfolding summary
  summary-other pre x y e = rw (filter-snoc (same_entry y) pre x, e) refl

  count_wrap : (n : ℕ) → (n % 2 ^ 32 + 1) % 2 ^ 32 ≡ (n + 1) % 2 ^ 32
  count_wrap n = omega arith

  summary-same :
      (pre : List Row) (x y : Row)
      → same_entry y x ≡ true
      → count_match d r x.bid (summary pre y) ≡ summary (pre ++ x ∷ []) y
  unfolding summary count_match
  summary-same pre x y e =
      rw
        (
          filter-snoc (same_entry y) pre x,
          e,
          count_wrap (length (filter (same_entry y) pre)),
          length-append (filter (same_entry y) pre) (x ∷ []),
          map-append (λ z. z.bid) (filter (same_entry y) pre) (x ∷ []),
          take_snoc ids_cap (map (λ z. z.bid) (filter (same_entry y) pre)) x.bid,
        )
        refl

  summaries-other :
      (pre : List Row) (x : Row) (xs : List Row)
      → All (λ y. same_entry y x ≡ false) xs
      → map (summary (pre ++ x ∷ [])) xs ≡ map (summary pre) xs
  summaries-other pre x [] h = refl
  summaries-other pre x (y ∷ xs) h =
      rw (summary-other pre x y h.0, summaries-other pre x xs h.1) refl

  summary-id :
      (pre : List Row) (y x : Row) → same_id d (summary pre y).entry_id x.id ≡ same_entry y x
  unfolding summary
  summary-id pre y x = refl

  others-apart :
      (x y : Row) (xs : List Row)
      → same_entry y x ≡ true
      → All (λ z. same_entry y z ≡ false) xs
      → All (λ z. same_entry z x ≡ false) xs
  others-apart x y xs e h = All-map _ _ (λ z f. ground (arith, e, f)) xs h

  add_row-summaries :
      (pre : List Row) (x : Row) (xs : List Row)
      → IsApart same_entry xs
      → add_row d r x.id x.bid x.row (map (summary pre) xs) ≡ (
          if any (λ y. same_entry y x) xs
          then map (summary (pre ++ x ∷ [])) xs
          else map (summary (pre ++ x ∷ [])) xs
            ++ count_match d r x.bid (new_hit d r x.id x.bid x.row) ∷ [])
  unfolding add_row any
  add_row-summaries pre x [] h = refl
  add_row-summaries pre x (y ∷ xs) h = elim (Bool-cases (same_entry y x)) [
    | inl e ↦
        rw
          (
            summary-id pre y x,
            e,
            summary-same pre x y e,
            summaries-other pre x xs (others-apart x y xs e h.0),
          )
          refl
    | inr e ↦
        let rest = add_row-summaries pre x xs h.1 in
        elim (Bool-cases (any (λ z. same_entry z x) xs)) [
          | inl g ↦ rw (summary-id pre y x, e, rest, g, summary-other pre x y e) refl
          | inr g ↦ rw (summary-id pre y x, e, rest, g, summary-other pre x y e) refl
        ]
  ]

  -- The first row of an entry.
  summary-new :
      (pre : List Row) (x : Row)
      → any (λ y. same_entry y x) pre ≡ false
      → summary (pre ++ x ∷ []) x ≡ count_match d r x.bid (new_hit d r x.id x.bid x.row)
  unfolding summary count_match
  summary-new pre x h =
      let none_before =
        filter_none (same_entry x) pre
          (All-map _ _ (λ y e. same_sym x y ∙ e) pre (any-All (λ y. same_entry y x) pre h)) in
      rw (filter-snoc (same_entry x) pre x, none_before, ==_refl (d.number x.id)) refl

  unfoldable summaries : List Row → List (DedupedHit d r)
  summaries xs = map (summary xs) (firsts xs)

  add_row-step :
      (pre : List Row) (x : Row)
      → add_row d r x.id x.bid x.row (summaries pre) ≡ summaries (pre ++ x ∷ [])
  unfolding summaries
  add_row-step pre x =
      add_row-summaries pre x (firsts pre) (firsts-IsApart pre)
      ∙ elim (Bool-cases (any (λ y. same_entry y x) (firsts pre))) [
        | inl e ↦ rw (firsts-snoc pre x, e) refl
        | inr e ↦
            rw
              (
                firsts-snoc pre x,
                e,
                map-append (summary (pre ++ x ∷ [])) (firsts pre) (x ∷ []),
                ← summary-new pre x (sym (firsts-any pre x) ∙ e),
              )
              refl
      ]

  add_rows-step :
      (rows : List (FtsRow d r)) (pre : List Row)
      → add_rows d r rows (summaries pre) ≡ summaries (pre ++ parsed_rows rows)
  unfolding add_rows parsed_rows
  add_rows-step [] pre = ap summaries (sym (append-nil pre))
  add_rows-step (row ∷ rows) pre = elim (Option-cases (r.parse_ulid row.entry_id)) [
    | inl e ↦ rw e (add_rows-step rows pre)
    | inr (id, e) ↦ elim (Option-cases (r.parse_ulid row.block_id)) [
      | inl f ↦ rw (e, f) (add_rows-step rows pre)
      | inr (bid, f) ↦
          let x : Row = record { id = id; bid = bid; row = row } in
          rw (e, f, add_row-step pre x)
            (add_rows-step rows (pre ++ x ∷ [])
              ∙ ap summaries (append_assoc pre (x ∷ []) (parsed_rows rows)))
    ]
  ]

  -- The hits are one for each entry, in the order of the entries' first rows, with all rows of the entry
  -- counted, at most 64 of their blocks, and what the first row holds; no more than `limit` are given.
  pub dedupe_hits-summary :
      (rows : List (FtsRow d r)) (limit : ℕ)
      → dedupe_hits d r rows limit
        ≡ take limit (map (summary (parsed_rows rows)) (firsts (parsed_rows rows)))
  unfolding dedupe_hits summaries firsts
  dedupe_hits-summary rows limit = ap (take limit) (add_rows-step rows [])
