-- ===== src/Sync/Synced.antt =====
-- The index behind a pass, and what a check of it finds.
use nomai.Base.{
  ℕ, ◌+◌, ◌≡◌, ◌≢◌, refl, sym, ap, ◌∙◌, subst, Bool, true, false, not, Option, none, some, List, [],
  ◌∷◌, arith, map, any, find, filter, length, All, All-map, if◌then◌else◌, ==_refl, Bool-cases,
  Option-cases, inl, inr, ok, Holds, Holds-ok, Holds-bind_on,
}
use nomai.Blocks
use nomai.Core.{Deps, same_id}
use nomai.Core.Model.{Entry}
use nomai.Sync.{
  Formats, Files, Index, Pass, VerifyResult, db_rows, find_row, delete_entry, sync_entries,
  is_scanned, sweep, sync_from_fs, verify_entry, verify_entries, count_orphans, verify_fs,
}
use nomai.Sync.Passes.{
  IsGood, IsGoodFor, IsFaithful, IsWalked, names, row_of, snapshot, IsGood-same, IsSameAt-refl,
  IsSameAt-trans, sync_entries-IsWalked,
}
use nomai.Sync.Reindexing.{row_at, IsSameAt, IsMirror, delete_entry-row, delete_entry-IsSameAt}
use nomai.Text.{Text}

module _ (d : Deps) (codec : Blocks.Codec d) (fm : Formats d) (files : Files d) where
  scanned_same :
      (i j : d.Ulid)
      → same_id d i j ≡ true
      → is_scanned d codec fm files i ≡ is_scanned d codec fm files j
  scanned_same i j h = ap (is_scanned d codec fm files) (d.number_inj i j (ground (arith, h)))

  -- One row of the sweep.
  abbrev swept : d.Ulid → Pass d → Pass d
  swept id p =
      let r = p.result in
      if is_scanned d codec fm files id then p else record {
        index = delete_entry d codec fm id p.index;
        result = record r { removed = r.removed + 1 };
      }

  swept-IsSameAt :
      (id j : d.Ulid) (p : Pass d)
      → same_id d j id ≡ false
      → IsSameAt d codec fm j p.index (swept id p).index
  swept-IsSameAt id j p f = elim (Bool-cases (is_scanned d codec fm files id)) [
    | inl q ↦ rw q (IsSameAt-refl d codec fm files j p.index)
    | inr q ↦ rw q (delete_entry-IsSameAt d codec fm id j p.index f)
  ]

  -- The entries with a directory stay.
  sweep-scanned :
      (rows : List (d.Ulid × Option Text)) (p : Pass d) (j : d.Ulid)
      → is_scanned d codec fm files j ≡ true
      → IsSameAt d codec fm j p.index (sweep d codec fm files rows p).index
  unfolding sweep
  sweep-scanned [] p j h = IsSameAt-refl d codec fm files j p.index
  sweep-scanned ((id, m) ∷ rows) p j h =
      IsSameAt-trans d codec fm files j p.index (swept id p).index _ first
        (sweep-scanned rows (swept id p) j h)
    where
      first : IsSameAt d codec fm j p.index (swept id p).index
      first = elim (Bool-cases (same_id d j id)) [
        | inr f ↦ swept-IsSameAt id j p f
        | inl q ↦
            let s = sym (scanned_same j id q) ∙ h in rw s (IsSameAt-refl d codec fm files j p.index)
      ]

  -- The others go, if the snapshot has them.
  sweep-gone :
      (rows : List (d.Ulid × Option Text)) (p : Pass d) (j : d.Ulid)
      → is_scanned d codec fm files j ≡ false
      → (find_row d codec fm j rows ≡ none → row_at d codec fm j p.index ≡ none)
      → row_at d codec fm j (sweep d codec fm files rows p).index ≡ none
  unfolding sweep
  sweep-gone [] p j h k = k (unfold find in refl)
  sweep-gone ((id, m) ∷ rows) p j h k = sweep-gone rows (swept id p) j h (λ e. first e)
    where
      first : find_row d codec fm j rows ≡ none → row_at d codec fm j (swept id p).index ≡ none
      first e = elim (Bool-cases (same_id d id j)) [
        | inl q ↦
            let s = scanned_same id j q ∙ h in
            rw s (
              subst (λ i. row_at d codec fm i (delete_entry d codec fm id p.index) ≡ none)
                (d.number_inj id j (ground (arith, q))) (delete_entry-row d codec fm id p.index))
        | inr q ↦ (swept-IsSameAt id j p (ground (arith, q))).row ∙ k (unfold find in rw q e)
      ]

  IsGood-named :
      (ix : Index d) (j : d.Ulid) (ids : List d.Ulid)
      → All (λ i. IsGood d codec fm files i ix) ids
      → names d codec fm files j ids ≡ true
      → IsGood d codec fm files j ix
  unfolding any
  IsGood-named ix j [] g h = cc
  IsGood-named ix j (i ∷ ids) g h = elim (Bool-cases (same_id d i j)) [
    | inl q ↦ subst (λ k. IsGood d codec fm files k ix) (d.number_inj i j (ground (arith, q))) g.0
    | inr q ↦ IsGood-named ix j ids g.1 (ground (arith, q, h))
  ]

  -- The index is that of the files.
  pub record IsSynced (ix : Index d) : Type 0 where
    pub present :
        (id : d.Ulid) → is_scanned d codec fm files id ≡ true → IsGood d codec fm files id ix
    pub absent :
        (id : d.Ulid) → is_scanned d codec fm files id ≡ false → row_at d codec fm id ix ≡ none

  -- A pass that succeeds leaves the index of the files, if a row that holds the time of its file was that of
  -- the file before: an entry with a directory and a file has the row, the blocks and the time of its
  -- file, and no other entry is there.
  pub sync_from_fs-IsSynced :
      (calls : d.Ulid → ℕ → Blocks.Call d) (ix : Index d) (p : Pass d)
      → IsFaithful d codec fm files ix
      → sync_from_fs d codec fm calls files ix ≡ ok p
      → IsSynced p.index
  unfolding sync_from_fs
  sync_from_fs-IsSynced calls ix p faithful e = Holds-ok (λ q. IsSynced q.index) e passed
    where
      start : Pass d
      start = record {
        index = ix;
        result = record { added = 0; updated = 0; removed = 0; unchanged = 0; reindexed_ids = [] };
      }

      done :
          (p1 : Pass d)
          → IsWalked d codec fm files files.scan_entry_ids ix ix p1.index
          → IsSynced (sweep d codec fm files (db_rows d codec fm ix) p1).index
      done p1 w = record {
        present = λ id h.
            IsGood-same d codec fm files id p1.index _
              (sweep-scanned (db_rows d codec fm ix) p1 id h)
              (IsGood-named p1.index id files.scan_entry_ids w.good h);
        absent = λ id h.
            sweep-gone (db_rows d codec fm ix) p1 id h (λ f. (w.others id h).row ∙ no_row id f);
      }
        where
          no_row :
              (id : d.Ulid)
              → find_row d codec fm id (db_rows d codec fm ix) ≡ none
              → row_at d codec fm id ix ≡ none
          no_row id f =
              was_none (row_at d codec fm id ix) (sym (snapshot d codec fm files id ix) ∙ f)
            where
              was_none : (o : Option (Entry d)) → row_of d codec fm files ix o ≡ none → o ≡ none
              was_none none g = refl
              was_none (some x) g = cc

      passed : Holds (λ q. IsSynced q.index) (sync_from_fs d codec fm calls files ix)
      passed =
          unfold sync_from_fs in
          Holds-bind_on (λ p1. IsWalked d codec fm files files.scan_entry_ids ix ix p1.index) _
            (sync_entries d codec fm calls files (db_rows d codec fm ix) files.scan_entry_ids start)
            _
            (sync_entries-IsWalked d codec fm files calls ix files.scan_entry_ids start faithful
              (λ j. inr (IsSameAt-refl d codec fm files j ix)))
            (λ p1 w. done p1 w)

  abbrev pub is_some : Option d.Time → Bool
  is_some none = false
  is_some (some t) = true

  abbrev pub has_file : d.Ulid → Bool
  has_file id = is_some (files.entry_mtime id)

  -- A directory is counted by whether it has its file.
  counted : VerifyResult → List d.Ulid → VerifyResult
  counted v ids = record v {
    fs_only = v.fs_only + length (filter (λ id. not (has_file id)) ids);
    consistent = v.consistent + length (filter has_file ids);
  }

  verify_entry-good :
      (ix : Index d) (id : d.Ulid) (v : VerifyResult)
      → IsGood d codec fm files id ix
      → verify_entry d codec fm files (db_rows d codec fm ix) id v ≡ (
          if has_file id
          then record v { consistent = v.consistent + 1 }
          else record v { fs_only = v.fs_only + 1 })
  unfolding verify_entry
  verify_entry-good ix id v g = elim (Option-cases (files.entry_mtime id)) [
    | inl m ↦
        let row =
          snapshot d codec fm files id ix
          ∙ ap (row_of d codec fm files ix) (subst (λ o. IsGoodFor d codec fm files o id ix) m g) in
        rw (row, verify_entry, m) refl
    | inr (t, m) ↦ mirrored t m (subst (λ o. IsGoodFor d codec fm files o id ix) m g)
  ]
    where
      mirrored :
          (t : d.Time)
          → files.entry_mtime id ≡ some t
          → IsMirror d codec fm files id t ix
          → verify_entry d codec fm files (db_rows d codec fm ix) id v ≡ (
              if has_file id
              then record v { consistent = v.consistent + 1 }
              else record v { fs_only = v.fs_only + 1 })
      mirrored t m k =
          let row =
            snapshot d codec fm files id ix
            ∙ ap (row_of d codec fm files ix) k.row
            ∙ ap (λ c. some (id, c)) k.column in
          rw (row, verify_entry, k.stamped, m, (fm.same_time_iff t t).1 refl) refl

  verify_entries-good :
      (ix : Index d) (ids : List d.Ulid) (v : VerifyResult)
      → All (λ i. IsGood d codec fm files i ix) ids
      → verify_entries d codec fm files (db_rows d codec fm ix) ids v ≡ counted v ids
  unfolding verify_entries counted filter
  verify_entries-good ix [] v g = ground arith
  verify_entries-good ix (id ∷ ids) v g =
      ap (verify_entries d codec fm files (db_rows d codec fm ix) ids)
        (verify_entry-good ix id v g.0)
      ∙ verify_entries-good ix ids _ g.1
      ∙ ground arith

  count_orphans-none :
      (rows : List (d.Ulid × Option Text)) (v : VerifyResult)
      → All (λ r. is_scanned d codec fm files r.0 ≡ true) rows
      → count_orphans d codec fm files rows v ≡ v
  unfolding count_orphans
  count_orphans-none [] v h = refl
  count_orphans-none ((id, m) ∷ rows) v h = rw (h.0) (count_orphans-none rows v h.1)

  -- Every entry is found.
  found : (es : List (Entry d)) → All (λ e. find (λ x. same_id d x.id e.id) es ≢ none) es
  unfolding find
  found [] = tt
  found (e ∷ es) =
      (rw (==_refl (d.number e.id)) (λ h. cc), All-map _ _ (λ x h. behind x h) es (found es))
    where
      behind :
          (x : Entry d)
          → find (λ y. same_id d y.id x.id) es ≢ none
          → find (λ y. same_id d y.id x.id) (e ∷ es) ≢ none
      behind x h = elim (Bool-cases (same_id d e.id x.id)) [
        | inl q ↦ rw q (λ k. cc)
        | inr q ↦ rw q h
      ]

  all-IsGood :
      (ix : Index d) (ids : List d.Ulid)
      → ((id : d.Ulid) → names d codec fm files id ids ≡ true → IsGood d codec fm files id ix)
      → All (λ i. IsGood d codec fm files i ix) ids
  all-IsGood ix [] h = tt
  all-IsGood ix (id ∷ ids) h = (h id (first id), all-IsGood ix ids (λ j f. h j (later j f)))
    where
      first : (i : d.Ulid) → names d codec fm files i (i ∷ ids) ≡ true
      first i = unfold any in rw (==_refl (d.number i)) refl

      later :
          (j : d.Ulid)
          → names d codec fm files j ids ≡ true
          → names d codec fm files j (id ∷ ids) ≡ true
      later j f = unfold any in ground (arith, f)

  verify_fs-IsSynced :
      (ix : Index d)
      → IsSynced ix
      → verify_fs d codec fm files ix ≡ record {
        fs_only = length (filter (λ id. not (has_file id)) files.scan_entry_ids);
        db_only = 0;
        stale_mtime = 0;
        consistent = length (filter has_file files.scan_entry_ids);
      }
  unfolding verify_fs counted
  verify_fs-IsSynced ix s =
      ap (count_orphans d codec fm files (db_rows d codec fm ix)) (
        verify_entries-good ix files.scan_entry_ids _
          (all-IsGood ix files.scan_entry_ids s.present))
      ∙ count_orphans-none (db_rows d codec fm ix) _
          (unfold db_rows in rows ix.tables.entries (found ix.tables.entries))
      ∙ ground arith
    where
      rows :
          (es : List (Entry d))
          → All (λ e. find (λ x. same_id d x.id e.id) ix.tables.entries ≢ none) es
          → All {A = d.Ulid × Option Text}
              (λ r. is_scanned d codec fm files r.0 ≡ true)
              (map (λ e. (e.id, ix.fs_mtime e.id)) es)
      rows [] h = tt
      rows (e ∷ es) h = (in_files e h.0, rows es h.1)
        where
          in_files :
              (e : Entry d)
              → find (λ x. same_id d x.id e.id) ix.tables.entries ≢ none
              → is_scanned d codec fm files e.id ≡ true
          in_files e h = elim (Bool-cases (is_scanned d codec fm files e.id)) [
            | inl q ↦ q
            | inr q ↦ absurd (h (s.absent e.id q))
          ]

  -- A check right behind a pass that succeeds, under the same condition, finds no row without a directory
  -- and no stale time. It counts each directory: as consistent if it has its file, and as not indexed
  -- if it has none.
  pub verify_fs-sync_from_fs :
      (calls : d.Ulid → ℕ → Blocks.Call d) (ix : Index d) (p : Pass d)
      → IsFaithful d codec fm files ix
      → sync_from_fs d codec fm calls files ix ≡ ok p
      → verify_fs d codec fm files p.index ≡ record {
        fs_only = length (filter (λ id. not (has_file id)) files.scan_entry_ids);
        db_only = 0;
        stale_mtime = 0;
        consistent = length (filter has_file files.scan_entry_ids);
      }
  verify_fs-sync_from_fs calls ix p faithful e =
      verify_fs-IsSynced p.index (sync_from_fs-IsSynced calls ix p faithful e)
