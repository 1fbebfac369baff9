-- ===== src/Sync/Passes.antt =====
-- A pass over the files: the index is that of the files when it succeeds.
use nomai.Base.{
  ℕ, ◌≡◌, refl, sym, ap, ◌∙◌, subst, Bool, true, false, Option, none, some, List, [], ◌∷◌, arith,
  map, any, find, find-All, All, All-each, Bool-cases, Option-cases, ◌⊎◌, inl, inr, Result, ok, err,
  Holds, Holds-map, Holds-bind_on,
}
use nomai.Blocks
use nomai.Core.{Deps, CoreError, same_id}
use nomai.Core.Model.{Entry}
use nomai.Sync.{
  Formats, Files, Index, Pass, Action, add, update, remove, skip, reindex_one, db_rows, find_row,
  is_mtime, decide, delete_entry, reindexed, sync_entry, sync_entries,
}
use nomai.Sync.Reindexing.{
  row_at, IsSameAt, IsMirror, delete_entry-row, delete_entry-IsSameAt, reindex_one-IsMirror,
}
use nomai.Text.{Text}

module _ (d : Deps) (codec : Blocks.Codec d) (fm : Formats d) (files : Files d) where
  -- An entry with a file mirrors it, and one with none is not there.
  abbrev pub IsGoodFor : Option d.Time → d.Ulid → Index d → Type 0
  IsGoodFor none id ix = row_at d codec fm id ix ≡ none
  IsGoodFor (some t) id ix = IsMirror d codec fm files id t ix

  abbrev pub IsGood : d.Ulid → Index d → Type 0
  IsGood id ix = IsGoodFor (files.entry_mtime id) id ix

  pub IsGoodFor-same :
      (m : Option d.Time) (id : d.Ulid) (ix ix1 : Index d)
      → IsSameAt d codec fm id ix ix1
      → IsGoodFor m id ix
      → IsGoodFor m id ix1
  IsGoodFor-same none id ix ix1 s g = s.row ∙ g
  IsGoodFor-same (some t) id ix ix1 s g = record {
    doc = g.doc;
    stamp = g.stamp;
    read = g.read;
    row = s.row ∙ g.row;
    blocks = ap (map _) s.blocks ∙ g.blocks;
    column = s.column ∙ g.column;
    stamped = g.stamped;
  }

  pub IsGood-same :
      (id : d.Ulid) (ix ix1 : Index d)
      → IsSameAt d codec fm id ix ix1
      → IsGood id ix
      → IsGood id ix1
  IsGood-same id = IsGoodFor-same (files.entry_mtime id) id

  -- A row whose column holds the time of its file is that of the file: a file that was changed has
  -- another time.
  abbrev pub IsFaithful : Index d → Type 0
  IsFaithful ix =
      (id : d.Ulid) (t : d.Time) (stamp : Text) (e : Entry d)
      → files.entry_mtime id ≡ some t
      → row_at d codec fm id ix ≡ some e
      → ix.fs_mtime id ≡ some stamp
      → fm.parse_from_rfc3339 stamp ≡ some t
      → IsMirror d codec fm files id t ix

  abbrev pub row_of : Index d → Option (Entry d) → Option (d.Ulid × Option Text)
  row_of ix none = none
  row_of ix (some e) = some (e.id, ix.fs_mtime e.id)

  snapshot_rows :
      (id : d.Ulid) (ix : Index d) (es : List (Entry d))
      → find (λ r. same_id d r.0 id) (map (λ e. (e.id, ix.fs_mtime e.id)) es)
        ≡ row_of ix (find (λ e. same_id d e.id id) es)
  unfolding find
  snapshot_rows id ix [] = refl
  snapshot_rows id ix (e ∷ es) = elim (Bool-cases (same_id d e.id id)) [
    | inl q ↦ rw q refl
    | inr q ↦ rw q (snapshot_rows id ix es)
  ]

  -- The snapshot of the rows.
  pub snapshot :
      (id : d.Ulid) (ix : Index d)
      → find_row d codec fm id (db_rows d codec fm ix) ≡ row_of ix (row_at d codec fm id ix)
  unfolding db_rows
  snapshot id ix = snapshot_rows id ix ix.tables.entries

  row_id : (id : d.Ulid) (ix : Index d) (e : Entry d) → row_at d codec fm id ix ≡ some e → e.id ≡ id
  row_id id ix e h =
      let same =
        (find-All (λ x. Unit {0}) (λ x. same_id d x.id id) ix.tables.entries e
          (All-each _ _ (λ x. tt)) h).1 in
      d.number_inj e.id id (ground (arith, same))

  abbrev decision : Index d → d.Ulid → Action
  decision ix0 id =
      decide d codec fm (find_row d codec fm id (db_rows d codec fm ix0)) (files.entry_mtime id)

  -- What is decided, with what makes it right.
  data Verdict (ix0 ix : Index d) (id : d.Ulid) : Type 0 where
    indexes :
        (t : d.Time)
        → files.entry_mtime id ≡ some t
        → (decision ix0 id ≡ add) ⊎ (decision ix0 id ≡ update)
        → Verdict ix0 ix id
    drops : files.entry_mtime id ≡ none → decision ix0 id ≡ remove → Verdict ix0 ix id
    skips : decision ix0 id ≡ skip → IsGood id ix → Verdict ix0 ix id

  module _ (ix0 ix : Index d) (id : d.Ulid) (faithful : IsFaithful ix0)
      (known : IsGood id ix ⊎ IsSameAt d codec fm id ix0 ix) where
    IsGood-of : IsGood id ix0 → IsGood id ix
    IsGood-of g = elim known [ inl h ↦ h | inr s ↦ IsGood-same id ix0 ix s g ]

    no_row : row_at d codec fm id ix0 ≡ none → Verdict ix0 ix id
    no_row r = elim (Option-cases (files.entry_mtime id)) [
      | inl m ↦
          skips
            (ap (λ o. decide d codec fm o (files.entry_mtime id))
                (snapshot id ix0 ∙ ap (row_of ix0) r)
              ∙ unfold decide in rw m refl)
            (IsGood-of (subst (λ o. IsGoodFor o id ix0) (sym m) r))
      | inr (t, m) ↦ indexes t m (
          inl (
            ap (λ o. decide d codec fm o (files.entry_mtime id))
              (snapshot id ix0 ∙ ap (row_of ix0) r)
            ∙ unfold decide in rw m refl))
    ]

    a_row : (e : Entry d) → row_at d codec fm id ix0 ≡ some e → Verdict ix0 ix id
    a_row e r = elim (Option-cases (files.entry_mtime id)) [
      | inl m ↦ drops m (decided ∙ unfold decide in rw m refl)
      | inr (t, m) ↦ elim (Option-cases (ix0.fs_mtime id)) [
        | inl c ↦ indexes t m (inr (decided ∙ unfold decide in rw (c, m) refl))
        | inr (stamp, c) ↦ elim (Bool-cases (is_mtime d codec fm (fm.parse_from_rfc3339 stamp) t)) [
          | inr q ↦ indexes t m (inr (decided ∙ unfold decide in rw (c, m, q) refl))
          | inl q ↦ skips (decided ∙ unfold decide in rw (c, m, q) refl) (
              IsGood-of (
                subst (λ o. IsGoodFor o id ix0) (sym m)
                  (faithful id t stamp e m r c (same_stamp (fm.parse_from_rfc3339 stamp) t q))))
        ]
      ]
    ]
      where
        decided :
            decision ix0 id ≡ decide d codec fm (some (id, ix0.fs_mtime id)) (files.entry_mtime id)
        decided =
            ap (λ o. decide d codec fm o (files.entry_mtime id))
              (snapshot id ix0
                ∙ ap (row_of ix0) r
                ∙ ap (λ i. some (i, ix0.fs_mtime i)) (row_id id ix0 e r))

        same_stamp : (p : Option d.Time) (t : d.Time) → is_mtime d codec fm p t ≡ true → p ≡ some t
        same_stamp none t q = cc
        same_stamp (some s) t q = ap some ((fm.same_time_iff s t).0 q)

    verdict : Verdict ix0 ix id
    verdict = elim (Option-cases (row_at d codec fm id ix0)) [
      | inl r ↦ no_row r
      | inr (e, r) ↦ a_row e r
    ]

  -- One directory: its entry is right, and nothing of the others has changed.
  abbrev IsDone : d.Ulid → Index d → Pass d → Type 0
  IsDone id ix p =
      IsGood id p.index × ((j : d.Ulid) → same_id d j id ≡ false → IsSameAt d codec fm j ix p.index)

  pub IsSameAt-refl : (j : d.Ulid) (ix : Index d) → IsSameAt d codec fm j ix ix
  IsSameAt-refl j ix = record { row = refl; blocks = refl; column = refl }

  reindexed-IsDone :
      (calls : ℕ → Blocks.Call d) (id : d.Ulid) (t : d.Time) (ix : Index d) (g : Index d → Pass d)
      → files.entry_mtime id ≡ some t
      → ((i : Index d) → (g i).index ≡ i)
      → Holds (IsDone id ix) (reindexed d codec fm ix g (reindex_one d codec fm calls files id ix))
  reindexed-IsDone calls id t ix g m same =
      over (reindex_one d codec fm calls files id ix)
        (reindex_one-IsMirror d codec fm calls files id t ix m)
    where
      over :
          (r : Result (CoreError d) (Index d))
          → Holds
              (λ ix1.
                IsMirror d codec fm files id t ix1
                × ((j : d.Ulid) → same_id d j id ≡ false → IsSameAt d codec fm j ix ix1))
              r
          → Holds (IsDone id ix) (reindexed d codec fm ix g r)
      over (ok ix1) h = (
        subst (λ i. IsGood id i) (sym (same ix1)) (subst (λ o. IsGoodFor o id ix1) (sym m) h.0),
        λ j f. subst (λ i. IsSameAt d codec fm j ix i) (sym (same ix1)) (h.1 j f),
      )
      over (err e) h = tt

  sync_entry-IsDone :
      (calls : d.Ulid → ℕ → Blocks.Call d) (ix0 : Index d) (id : d.Ulid) (p : Pass d)
      → IsFaithful ix0
      → IsGood id p.index ⊎ IsSameAt d codec fm id ix0 p.index
      → Holds (IsDone id p.index) (sync_entry d codec fm calls files (db_rows d codec fm ix0) id p)
  unfolding sync_entry
  sync_entry-IsDone calls ix0 id p faithful known = by (verdict ix0 p.index id faithful known)
    where
      by :
          Verdict ix0 p.index id
          → Holds
              (IsDone id p.index)
              (sync_entry d codec fm calls files (db_rows d codec fm ix0) id p)
      by (indexes t m (inl a)) =
          rw (a, sync_entry) (reindexed-IsDone (calls id) id t p.index _ m (λ i. refl))
      by (indexes t m (inr a)) =
          rw (a, sync_entry) (reindexed-IsDone (calls id) id t p.index _ m (λ i. refl))
      by (drops m a) =
          rw (a, sync_entry)
            (
              subst (λ o. IsGoodFor o id (delete_entry d codec fm id p.index)) (sym m)
                  (delete_entry-row d codec fm id p.index),
              λ j f. delete_entry-IsSameAt d codec fm id j p.index f,
            )
      by (skips a g) = rw (a, sync_entry) (g, λ j f. IsSameAt-refl j p.index)

  pub IsSameAt-trans :
      (j : d.Ulid) (a b c : Index d)
      → IsSameAt d codec fm j a b
      → IsSameAt d codec fm j b c
      → IsSameAt d codec fm j a c
  IsSameAt-trans j a b c s t = record {
    row = t.row ∙ s.row;
    blocks = t.blocks ∙ s.blocks;
    column = t.column ∙ s.column;
  }

  abbrev pub names : d.Ulid → List d.Ulid → Bool
  names j ids = any (λ i. same_id d i j) ids

  -- What a walk over directories does.
  pub record IsWalked (ids : List d.Ulid) (ix0 ix ix1 : Index d) : Type 0 where
    pub known : (j : d.Ulid) → IsGood j ix1 ⊎ IsSameAt d codec fm j ix0 ix1
    pub good : All (λ id. IsGood id ix1) ids
    pub kept : (j : d.Ulid) → IsGood j ix → IsGood j ix1
    pub others : (j : d.Ulid) → names j ids ≡ false → IsSameAt d codec fm j ix ix1

  pub sync_entries-IsWalked :
      (calls : d.Ulid → ℕ → Blocks.Call d) (ix0 : Index d) (ids : List d.Ulid) (p : Pass d)
      → IsFaithful ix0
      → ((j : d.Ulid) → IsGood j p.index ⊎ IsSameAt d codec fm j ix0 p.index)
      → Holds
          (λ p1. IsWalked ids ix0 p.index p1.index)
          (sync_entries d codec fm calls files (db_rows d codec fm ix0) ids p)
  unfolding sync_entries
  sync_entries-IsWalked calls ix0 [] p faithful known = record {
    known = known;
    good = tt;
    kept = λ j g. g;
    others = λ j f. IsSameAt-refl j p.index;
  }
  sync_entries-IsWalked calls ix0 (id ∷ ids) p faithful known =
      Holds-bind_on (IsDone id p.index) (λ p2. IsWalked (id ∷ ids) ix0 p.index p2.index)
        (sync_entry d codec fm calls files (db_rows d codec fm ix0) id p) _
        (sync_entry-IsDone calls ix0 id p faithful (known id))
        λ p1 done.
          Holds-map _ _ (sync_entries d codec fm calls files (db_rows d codec fm ix0) ids p1)
            (λ p2 w. walked p1 p2 done w)
            (sync_entries-IsWalked calls ix0 ids p1 faithful (λ j. still p1 done j))
    where
      still :
          (p1 : Pass d)
          → IsDone id p.index p1
          → (j : d.Ulid) → IsGood j p1.index ⊎ IsSameAt d codec fm j ix0 p1.index
      still p1 done j = elim (Bool-cases (same_id d j id)) [
        | inl q ↦
            inl
              (subst (λ i. IsGood i p1.index) (sym (d.number_inj j id (ground (arith, q)))) done.0)
        | inr q ↦ elim (known j) [
          | inl g ↦ inl (IsGood-same j p.index p1.index (done.1 j q) g)
          | inr s ↦ inr (IsSameAt-trans j ix0 p.index p1.index s (done.1 j q))
        ]
      ]

      keeps :
          (p1 : Pass d) → IsDone id p.index p1 → (j : d.Ulid) → IsGood j p.index → IsGood j p1.index
      keeps p1 done j g = elim (Bool-cases (same_id d j id)) [
        | inl q ↦
            subst (λ i. IsGood i p1.index) (sym (d.number_inj j id (ground (arith, q)))) done.0
        | inr q ↦ IsGood-same j p.index p1.index (done.1 j q) g
      ]

      not_first : (j : d.Ulid) → names j (id ∷ ids) ≡ false → same_id d j id ≡ false
      not_first j f = unfold any in ground (arith, f)

      not_later : (j : d.Ulid) → names j (id ∷ ids) ≡ false → names j ids ≡ false
      not_later j f = unfold any in ground (arith, f)

      walked :
          (p1 p2 : Pass d)
          → IsDone id p.index p1
          → IsWalked ids ix0 p1.index p2.index
          → IsWalked (id ∷ ids) ix0 p.index p2.index
      walked p1 p2 done w = record {
        known = w.known;
        good = (w.kept id done.0, w.good);
        kept = λ j g. w.kept j (keeps p1 done j g);
        others = λ j f.
            IsSameAt-trans j p.index p1.index p2.index (done.1 j (not_first j f))
              (w.others j (not_later j f));
      }
