-- ===== src/Sync/Rebuilt.antt =====
-- The index behind a rebuild: every file is indexed or reported, and nothing else is there.
use nomai.Base.{
  ℕ, ◌+◌, ◌≡◌, refl, sym, ◌∙◌, subst, Bool, true, false, none, some, List, [], ◌∷◌, ◌++◌, arith,
  any, find, length, length-append, append-nil, Bool-cases, ◌⊎◌, inl, inr, Result, ok, err, Holds,
}
use nomai.Blocks
use nomai.Core.{Deps, CoreError, same_id}
use nomai.Sync.{Formats, Files, Index, reindex_one, is_scanned}
use nomai.Sync.Quiet.{reindex_one_quiet}
use nomai.Sync.Passes.{IsGoodFor-same, IsSameAt-refl, IsSameAt-trans, names}
use nomai.Sync.Rebuild.{Rebuild, wipe, error_message, rebuilt, rebuild_entries, rebuild_index}
use nomai.Sync.Reindexing.{row_at, IsSameAt, IsMirror, reindex_one_rows}
use nomai.Text.{Text, text_eq}
use nomai.Text.Order.{text_eq_refl}

module _ (d : Deps) (codec : Blocks.Codec d) (fm : Formats d) (show : CoreError d → Text)
    (files : Files d) where
  -- A message of the entry is among the errors.
  abbrev pub IsReported : d.Ulid → List Text → Type 0
  IsReported id errors =
      (e : CoreError d) × (any (text_eq (error_message d codec fm show id e)) errors ≡ true)

  any-before : (p : Text → Bool) (xs ys : List Text) → any p xs ≡ true → any p (xs ++ ys) ≡ true
  unfolding any
  any-before p [] ys h = cc
  any-before p (x ∷ xs) ys h = ground (arith, any-before p xs ys, h)

  any-last :
      (p : Text → Bool) (xs : List Text) (y : Text) → p y ≡ true → any p (xs ++ y ∷ []) ≡ true
  unfolding any
  any-last p [] y h = ground (arith, h)
  any-last p (x ∷ xs) y h = ground (arith, any-last p xs y, h)

  -- An entry with a file mirrors it, or it is not there and its error is told.
  abbrev pub IsTold : d.Ulid → Rebuild d → Type 0
  IsTold id p =
      (t : d.Time)
      → files.entry_mtime id ≡ some t
      → IsMirror d codec fm files id t p.index
        ⊎ ((row_at d codec fm id p.index ≡ none) × IsReported id p.result.errors)

  -- An entry with a file mirrors it, or it is not there.
  abbrev IsClean : d.Ulid → Rebuild d → Type 0
  IsClean id p =
      (t : d.Time)
      → files.entry_mtime id ≡ some t
      → IsMirror d codec fm files id t p.index ⊎ (row_at d codec fm id p.index ≡ none)

  -- What is told of an entry stays, where nothing of it changes and errors are only added.
  IsTold-still :
      (j : d.Ulid) (p p1 : Rebuild d) (more : List Text)
      → IsSameAt d codec fm j p.index p1.index
      → p1.result.errors ≡ p.result.errors ++ more
      → IsTold j p
      → IsTold j p1
  IsTold-still j p p1 more s e h t m = elim (h t m) [
    | inl g ↦ inl (IsGoodFor-same d codec fm files (some t) j p.index p1.index s g)
    | inr (r, (why, w)) ↦ inr (
      s.row ∙ r,
      (
        why,
        subst (λ errors. any (text_eq (error_message d codec fm show j why)) errors ≡ true) (sym e)
            (any-before (text_eq (error_message d codec fm show j why)) p.result.errors more w),
      ),
    )
  ]

  -- One directory more.
  record IsStep (id : d.Ulid) (p p1 : Rebuild d) : Type 0 where
    told : IsClean id p → IsTold id p1
    others : (j : d.Ulid) → same_id d j id ≡ false → IsSameAt d codec fm j p.index p1.index
    more : List Text
    errors : p1.result.errors ≡ p.result.errors ++ more
    counted :
        p1.result.reindexed + length p1.result.errors
        ≡ p.result.reindexed + length p.result.errors + 1

  rebuilt-IsStep :
      (calls : ℕ → Blocks.Call d) (id : d.Ulid) (p : Rebuild d)
      → IsStep id p (rebuilt d codec fm show id p (reindex_one d codec fm calls files id p.index))
  rebuilt-IsStep calls id p =
      over (reindex_one d codec fm calls files id p.index)
        (reindex_one_rows d codec fm calls files id p.index)
    where
      over :
          (r : Result (CoreError d) (Index d))
          → Holds
              (λ ix1.
                ((t : d.Time) → files.entry_mtime id ≡ some t → IsMirror d codec fm files id t ix1)
                × ((j : d.Ulid) → same_id d j id ≡ false → IsSameAt d codec fm j p.index ix1))
              r
          → IsStep id p (rebuilt d codec fm show id p r)
      over (ok ix1) h = record {
        told = λ c t m. inl (h.0 t m);
        others = h.1;
        more = [];
        errors = sym (append-nil p.result.errors);
        counted = omega arith;
      }
      over (err e) h = record {
        told = λ c t m. elim (c t m) [
          | inl g ↦ inl g
          | inr r ↦ inr (r, (e, any-last _ p.result.errors _ (text_eq_refl _)))
        ];
        others = λ j f. IsSameAt-refl d codec fm files j p.index;
        more = error_message d codec fm show id e ∷ [];
        errors = refl;
        counted =
            rw (length-append p.result.errors (error_message d codec fm show id e ∷ []))
              (omega arith);
      }

  abbrev AllClean : Rebuild d → Type 0
  AllClean p = (j : d.Ulid) → IsClean j p

  told-IsClean : (j : d.Ulid) (p : Rebuild d) → IsTold j p → IsClean j p
  told-IsClean j p h t m = elim (h t m) [ inl g ↦ inl g | inr r ↦ inr r.0 ]

  step-IsClean : (id : d.Ulid) (p p1 : Rebuild d) → IsStep id p p1 → AllClean p → AllClean p1
  step-IsClean id p p1 s c j = elim (Bool-cases (same_id d j id)) [
    | inl q ↦
        subst (λ i. IsClean i p1) (sym (d.number_inj j id (ground (arith, q))))
          (told-IsClean id p1 (s.told (c id)))
    | inr q ↦ λ t m. elim (c j t m) [
      | inl g ↦ inl (IsGoodFor-same d codec fm files (some t) j p.index p1.index (s.others j q) g)
      | inr r ↦ inr ((s.others j q).row ∙ r)
    ]
  ]

  step-IsTold :
      (id j : d.Ulid) (p p1 : Rebuild d) → IsStep id p p1 → IsClean id p → IsTold j p → IsTold j p1
  step-IsTold id j p p1 s c h = elim (Bool-cases (same_id d j id)) [
    | inl q ↦ subst (λ i. IsTold i p1) (sym (d.number_inj j id (ground (arith, q)))) (s.told c)
    | inr q ↦ IsTold-still j p p1 s.more (s.others j q) s.errors h
  ]

  -- What a walk over directories does.
  record IsWalk (ids : List d.Ulid) (p p1 : Rebuild d) : Type 0 where
    told : (j : d.Ulid) → names d codec fm files j ids ≡ true → IsTold j p1
    kept : (j : d.Ulid) → IsTold j p → IsTold j p1
    others :
        (j : d.Ulid) → names d codec fm files j ids ≡ false → IsSameAt d codec fm j p.index p1.index
    counted :
        p1.result.reindexed + length p1.result.errors
        ≡ p.result.reindexed + length p.result.errors + length ids

  IsWalk-more :
      (id : d.Ulid) (ids : List d.Ulid) (p p1 p2 : Rebuild d)
      → IsClean id p
      → IsStep id p p1
      → IsWalk ids p1 p2
      → IsWalk (id ∷ ids) p p2
  IsWalk-more id ids p p1 p2 c s w = record {
    told = λ j f. elim (Bool-cases (same_id d id j)) [
      | inl q ↦
          subst (λ i. IsTold i p2) (d.number_inj id j (ground (arith, q))) (w.kept id (s.told c))
      | inr q ↦ w.told j (unfold any in ground (arith, q, f))
    ];
    kept = λ j h. w.kept j (step-IsTold id j p p1 s c h);
    others = λ j f.
        IsSameAt-trans d codec fm files j p.index p1.index p2.index
          (s.others j (unfold any in ground (arith, f)))
          (w.others j (unfold any in ground (arith, f)));
    counted = ground (arith, w.counted, s.counted);
  }

  rebuild_entries-IsWalk :
      (calls : d.Ulid → ℕ → Blocks.Call d) (ids : List d.Ulid) (p : Rebuild d)
      → AllClean p
      → IsWalk ids p (rebuild_entries d codec fm show calls files ids p)
  unfolding rebuild_entries
  rebuild_entries-IsWalk calls [] p c = record {
    told = λ j f. unfold any in cc;
    kept = λ j h. h;
    others = λ j f. IsSameAt-refl d codec fm files j p.index;
    counted = omega arith;
  }
  rebuild_entries-IsWalk calls (id ∷ ids) p c =
      let step = rebuilt-IsStep (calls id) id p in
      IsWalk-more id ids p _ _ (c id) step
        (rebuild_entries-IsWalk calls ids _ (step-IsClean id p _ step c))

  rebuild_entries_quiet :
      (calls : d.Ulid → ℕ → Blocks.Call d) (ids : List d.Ulid) (p : Rebuild d)
      → (rebuild_entries d codec fm show calls files ids p).index.tables.events
        ≡ p.index.tables.events
  unfolding rebuild_entries
  rebuild_entries_quiet calls [] p = refl
  rebuild_entries_quiet calls (id ∷ ids) p =
      rebuild_entries_quiet calls ids _
      ∙ over (reindex_one d codec fm (calls id) files id p.index)
          (reindex_one_quiet d codec fm (calls id) files id p.index)
    where
      over :
          (r : Result (CoreError d) (Index d))
          → Holds (λ ix1. ix1.tables.events ≡ p.index.tables.events) r
          → (rebuilt d codec fm show id p r).index.tables.events ≡ p.index.tables.events
      over (ok ix1) h = h
      over (err e) h = refl

  -- The index of the files, and the answer.
  pub record IsRebuilt (ix : Index d) (p : Rebuild d) : Type 0 where
    pub told : (id : d.Ulid) → is_scanned d codec fm files id ≡ true → IsTold id p
    pub absent :
        (id : d.Ulid) → is_scanned d codec fm files id ≡ false → row_at d codec fm id p.index ≡ none
    pub counted : p.result.reindexed + length p.result.errors ≡ length files.scan_entry_ids
    pub events : p.index.tables.events ≡ ix.tables.events

  -- Whatever was in the index, and whichever files fail: behind a rebuild, an entry with a directory and a
  -- file has the row, the blocks and the time of its file, or it is not there and the errors have a
  -- message for it; no other entry is there; each directory was either indexed or reported; and
  -- the log is as it was.
  pub rebuild_index-IsRebuilt :
      (calls : d.Ulid → ℕ → Blocks.Call d) (ix : Index d)
      → IsRebuilt ix (rebuild_index d codec fm show calls files ix)
  unfolding rebuild_index wipe
  rebuild_index-IsRebuilt calls ix = record {
    told = w.told;
    absent = λ id f. (w.others id f).row ∙ unfold find in refl;
    counted = w.counted ∙ omega arith;
    events = rebuild_entries_quiet calls files.scan_entry_ids start;
  }
    where
      start : Rebuild d
      start = record {
        index = wipe d codec fm show ix;
        result = record { reindexed = 0; errors = [] };
      }

      w :
          IsWalk files.scan_entry_ids start
            (rebuild_entries d codec fm show calls files files.scan_entry_ids start)
      w =
          rebuild_entries-IsWalk calls files.scan_entry_ids start
            (λ j t m. inr (unfold find in refl))
