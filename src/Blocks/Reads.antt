-- ===== src/Blocks/Reads.antt =====
-- What a client reads: the chunks of a block in their order, and an appended block behind the others.
use nomai.Base.{
  ℕ, suc, ◌+◌, ◌%◌, ◌^◌, ◌≤◌, ◌<◌, ◌≡◌, ◌==◌, refl, sym, ap, ◌∙◌, subst, Bool, true, false, not,
  ◌&&◌, ◌||◌, Option, some, List, [], ◌∷◌, ◌++◌, append-nil, append_assoc, arith, length, map, any,
  find, find-All, find-any, max, if◌then◌else◌, filter, filter_keep, filter-ext, sort_by,
  map-sort_by, insert_by_last, by_key, ltb, All, All-map, All-filter_and, All-sort_by, ==_refl,
  Bool-cases, inl, inr, Result, ok, err, Holds, Holds-map, Holds-bind_eq, Holds-bind_on, ◌>>=◌,
}
use nomai.Blocks.{
  Chunk, CreateBlock, Tables, Call, Codec, has_entry, is_block, is_chunk_of, is_insertable,
  is_chunk_insertable, insert_block, insert_chunk, new_chunk, insert_chunks, derive_chunks,
  new_block, insert_event, insert_event_checked, create_in_tx, chunk_attrs, violation,
}
use nomai.Blocks.Index.{stacked, IsIndexed}
use nomai.Blocks.Service.{
  max_ordinal, after_max, unwrap_or, is_in, next_ordinal, append_in_tx, append, is_benchmark_entry,
  is_visible, list_visible, is_chunk_visible, list_chunks_visible,
}
use nomai.Chunking.{chunk_text}
use nomai.Core.{Deps, CoreError, Json, check_attrs, same_id}
use nomai.Core.Model.{Block, Entry}
use nomai.Core.Transaction.{in_tx, close-ok}
use nomai.Events.{Event, log_event}
use nomai.Text.{Text, codes}

-- Texts with their ordinals, in their order.
numbered : ℕ → List Text → List (ℕ × Text)
numbered i [] = []
numbered i (t ∷ ts) = (i, t) ∷ numbered (suc i) ts

numbered-texts : (i : ℕ) (ts : List Text) → map (λ p. p.1) (numbered i ts) ≡ ts
unfolding numbered
numbered-texts i [] = refl
numbered-texts i (t ∷ ts) = ap (λ r. t ∷ r) (numbered-texts (suc i) ts)

abbrev by_ordinal : ℕ × Text → ℕ × Text → Bool
by_ordinal = by_key (λ p. p.0)

sort_by-stacked :
    (i : ℕ) (ts : List Text) (below : List (ℕ × Text))
    → All (λ p. p.0 < i) below
    → i + length ts ≤ 2 ^ 32
    → sort_by by_ordinal (stacked i ts below) ≡ sort_by by_ordinal below ++ numbered i ts
unfolding stacked numbered
sort_by-stacked i [] below h k = sym (append-nil (sort_by by_ordinal below))
sort_by-stacked i (t ∷ ts) below h k =
    let small : i % 2 ^ 32 ≡ i = omega (arith, k) in
    rw small (
      sort_by-stacked (suc i) ts ((i, t) ∷ below)
        (omega arith, All-map _ _ (λ p l. omega (arith, l)) below h) (omega (arith, k))
      ∙ ap (λ s. s ++ numbered (suc i) ts) last
      ∙ append_assoc (sort_by by_ordinal below) ((i, t) ∷ []) (numbered (suc i) ts))
  where
    last : sort_by by_ordinal ((i, t) ∷ below) ≡ sort_by by_ordinal below ++ ((i, t) ∷ [])
    last =
        unfold sort_by in
        insert_by_last by_ordinal (i, t) (sort_by by_ordinal below)
          (All-sort_by (λ p. ltb p.0 i ≡ true) by_ordinal below
            (All-map (λ p. p.0 < i) (λ p. ltb p.0 i ≡ true) (λ p l. ground (arith, l)) below h))

module _ (d : Deps) (codec : Codec d) where
  -- The chunks of a block that the query shows are read in the order of the text: theirs are the texts
  -- that it is cut into, if these are at most 2 ^ 32.
  pub list_chunks-chunk_text :
      (b : Block d) (include_benchmark : Bool) (db : Tables d)
      → IsIndexed d codec db
      → find (is_block d codec b.id) db.blocks ≡ some b
      → is_visible d codec include_benchmark db b ≡ true
      → length (chunk_text b.text codec.chunk_target_size) ≤ 2 ^ 32
      → map (λ c. c.text) (list_chunks_visible d codec b.id include_benchmark db).items
        ≡ chunk_text b.text codec.chunk_target_size
  unfolding list_chunks_visible
  list_chunks-chunk_text b include_benchmark db v found shown few =
      ap (λ cs. map (λ c. c.text) (sort_by (by_key (λ c. c.ordinal)) cs))
        (filter-ext _ (is_chunk_of d codec b.id) db.chunks (λ c. its c))
      ∙ map-map_texts
          (sort_by (by_key (λ c. c.ordinal)) (filter (is_chunk_of d codec b.id) db.chunks))
      ∙ ap (map (λ p. p.1)) (
          map-sort_by (λ c. (c.ordinal, c.text)) by_ordinal
            (filter (is_chunk_of d codec b.id) db.chunks)
          ∙ ap (sort_by by_ordinal)
              (find-All _ (is_block d codec b.id) db.blocks b v.chunks_derived found).0
          ∙ sort_by-stacked 0 (chunk_text b.text codec.chunk_target_size) [] tt
              (omega (arith, few)))
      ∙ unfold sort_by in numbered-texts 0 (chunk_text b.text codec.chunk_target_size)
    where
      map-map_texts :
          (cs : List (Chunk d))
          → map (λ c. c.text) cs ≡ map (λ p. p.1) (map {B = ℕ × Text} (λ c. (c.ordinal, c.text)) cs)
      map-map_texts [] = refl
      map-map_texts (c ∷ cs) = ap (λ r. c.text ∷ r) (map-map_texts cs)

      its :
          (c : Chunk d)
          → (is_chunk_of d codec b.id c && is_chunk_visible d codec include_benchmark db c)
            ≡ is_chunk_of d codec b.id c
      its c = elim (Bool-cases (is_chunk_of d codec b.id c)) [
        | inl q ↦
            let e =
              ap
                (λ n.
                  any (λ x. d.number x.id == n && is_visible d codec include_benchmark db x)
                    db.blocks)
                (same c q)
              ∙ find-any (is_block d codec b.id) (is_visible d codec include_benchmark db) db.blocks
                  b found shown in
            unfold is_chunk_visible in rw (q, e) refl
        | inr q ↦ ground (arith, q)
      ]
        where
          same :
              (c : Chunk d)
              → is_chunk_of d codec b.id c ≡ true
              → d.number c.block_id ≡ d.number b.id
          same c q = ground (arith, q)

  -- What a creation does to the entries and the blocks.
  abbrev pub IsAdded : CreateBlock d → Tables d → Block d → Tables d → Type 0
  IsAdded p db b db1 =
      (db1.entries ≡ db.entries)
      × (db1.blocks ≡ b ∷ db.blocks)
      × (b.entry_id ≡ p.entry_id)
      × (b.ordinal ≡ p.ordinal)
      × (b.type ≡ p.type)
      × (b.text ≡ p.text)
      × (check_attrs d (codes "attrs must be a JSON object") p.attrs ≡ ok b.attrs)

  abbrev IsSame : Tables d → Tables d → Type 0
  IsSame db db1 = (db1.entries ≡ db.entries) × (db1.blocks ≡ db.blocks)

  insert_chunks-IsSame :
      (call : Call d) (id : d.Ulid) (attrs : Json d) (i : ℕ) (ts : List Text) (db : Tables d)
      → Holds (IsSame db) (insert_chunks d codec call id attrs i ts db)
  unfolding insert_chunks insert_chunk
  insert_chunks-IsSame call id attrs i [] db = (refl, refl)
  insert_chunks-IsSame call id attrs i (t ∷ ts) db =
      elim (Bool-cases (is_chunk_insertable d codec (new_chunk d codec call id attrs i t) db)) [
        | inr q ↦ rw q tt
        | inl q ↦ rw q (insert_chunks-IsSame call id attrs (suc i) ts _)
      ]

  insert_event_checked-IsSame :
      (emit : Bool) (e : Event d) (db : Tables d)
      → Holds (IsSame db) (if emit then insert_event_checked d codec e db else ok db)
  unfolding insert_event_checked insert_event
  insert_event_checked-IsSame false e db = (refl, refl)
  insert_event_checked-IsSame true e db = checked (log_event d codec.constraint_error e db.events)
    where
      checked :
          (r : Result (CoreError d) (List (Event d)))
          → Holds (IsSame db) (elim (r >>= λ es. ok (record db { events = es })) [
            | ok db1 ↦ ok db1
            | err why ↦ err (violation d codec)
          ])
      checked (ok es) = (refl, refl)
      checked (err why) = tt

  insert_block_rows :
      (b : Block d) (db : Tables d)
      → Holds
          (λ t. (t.entries ≡ db.entries) × (t.blocks ≡ b ∷ db.blocks))
          (insert_block d codec b db)
  unfolding insert_block
  insert_block_rows b db = elim (Bool-cases (is_insertable d codec b db)) [
    | inr q ↦ rw q tt
    | inl q ↦ rw q (refl, refl)
  ]

  pub create_in_tx-IsAdded :
      (call : Call d) (p : CreateBlock d) (emit_event : Bool) (db : Tables d)
      → Holds (λ o. IsAdded p db o.0 o.1) (create_in_tx d codec call p emit_event db)
  unfolding create_in_tx derive_chunks
  create_in_tx-IsAdded call p emit_event db =
      Holds-bind_eq (λ o. IsAdded p db o.0 o.1) (check_attrs d _ p.attrs) _
        λ attrs checked.
          let b = new_block d codec call p attrs in
          Holds-bind_on (λ t. (t.entries ≡ db.entries) × (t.blocks ≡ b ∷ db.blocks))
            (λ o. IsAdded p db o.0 o.1) (insert_block d codec b db) _ (insert_block_rows b db)
            λ db1 k1.
              Holds-bind_on (IsSame db1) (λ o. IsAdded p db o.0 o.1)
                (derive_chunks d codec call b db1) _
                (insert_chunks-IsSame call b.id (chunk_attrs d codec b.type b.attrs) 0
                  (chunk_text b.text codec.chunk_target_size) db1)
                λ db2 k2.
                  Holds-bind_on (IsSame db2) (λ o. IsAdded p db o.0 o.1) _ _
                    (insert_event_checked-IsSame emit_event _ db2)
                    λ db3 k3.
                      (k3.0 ∙ k2.0 ∙ k1.0, k3.1 ∙ k2.1 ∙ k1.1, refl, refl, refl, refl, checked)

  max_bound : (bs : List (Block d)) → All (λ x. x.ordinal ≤ unwrap_or (max_ordinal d codec bs) 0) bs
  unfolding max_ordinal
  max_bound [] = tt
  max_bound (b ∷ bs) = (omega arith, All-map _ _ (λ x l. le_max x l) bs (max_bound bs))
    where
      le_max :
          (x : Block d)
          → x.ordinal ≤ unwrap_or (max_ordinal d codec bs) 0
          → x.ordinal ≤ max b.ordinal (unwrap_or (max_ordinal d codec bs) 0)
      le_max x l = omega (arith, l)

  max_small :
      (bs : List (Block d))
      → All (λ x. x.ordinal + 1 < 2 ^ 32) bs
      → unwrap_or (max_ordinal d codec bs) 0 + 1 < 2 ^ 32
  unfolding max_ordinal
  max_small [] h = omega arith
  max_small (b ∷ bs) h = omega (arith, h.0, max_small bs h.1)

  -- The next ordinal is above those that are there.
  below_next :
      (bs : List (Block d))
      → All (λ x. x.ordinal + 1 < 2 ^ 32) bs
      → All (λ x. x.ordinal < after_max d codec (max_ordinal d codec bs)) bs
  below_next [] h = tt
  below_next (b ∷ bs) h =
      All-map _ _ (λ x l. below x l (max_small (b ∷ bs) h)) (b ∷ bs) (max_bound (b ∷ bs))
    where
      below :
          (x : Block d)
          → x.ordinal ≤ unwrap_or (max_ordinal d codec (b ∷ bs)) 0
          → unwrap_or (max_ordinal d codec (b ∷ bs)) 0 + 1 < 2 ^ 32
          → x.ordinal < after_max d codec (max_ordinal d codec (b ∷ bs))
      below x l m = unfold max_ordinal in omega (arith, l, m)

  -- A block with an ordinal above those of its entry is read behind them.
  added_last :
      (p : CreateBlock d) (db : Tables d) (b : Block d) (db1 : Tables d) (include_benchmark : Bool)
      → IsAdded p db b db1
      → All (λ x. x.ordinal < p.ordinal) (filter (is_in d codec p.entry_id) db.blocks)
      → is_visible d codec include_benchmark db b ≡ true
      → (list_visible d codec p.entry_id include_benchmark db1).items
        ≡ (list_visible d codec p.entry_id include_benchmark db).items ++ b ∷ []
  unfolding list_visible is_visible
  added_last p db b db1 include_benchmark k low shown =
      ap (λ es. sort_by order (filter (λ x. is_in d codec p.entry_id x && shows es x) db1.blocks))
        k.0
      ∙ ap (λ bs. sort_by order (filter listed bs)) k.1
      ∙ ap (sort_by order) (filter_keep listed b db.blocks is_listed)
      ∙ unfold sort_by in
        insert_by_last order b (sort_by order (filter listed db.blocks)) (
          All-sort_by _ order (filter listed db.blocks) (
            All-map _ _ (λ x l. below x l) (filter listed db.blocks)
              (All-filter_and _ (is_in d codec p.entry_id) (shows db.entries) db.blocks low)))
    where
      order : Block d → Block d → Bool
      order = by_key (λ x. x.ordinal)

      shows : List (Entry d) → Block d → Bool
      shows es x =
          any
            (λ e.
              same_id d e.id x.entry_id
              && (include_benchmark || not (is_benchmark_entry d codec e)))
            es

      listed : Block d → Bool
      listed x = is_in d codec p.entry_id x && shows db.entries x

      is_listed : listed b ≡ true
      is_listed =
          rw (k.2, ==_refl (d.number p.entry_id))
            (subst
              (λ i.
                any
                  (λ e.
                    same_id d e.id i && (include_benchmark || not (is_benchmark_entry d codec e)))
                  db.entries
                ≡ true)
              k.2 shown)

      below : (x : Block d) → x.ordinal < p.ordinal → order x b ≡ true
      below x l = let o = k.3 in ground (arith, l, o)

  -- A successful append puts the block behind the others of its entry, where the query shows these, if
  -- their ordinals are below 2 ^ 32 - 1.
  pub list-append :
      (call : Call d) (id : d.Ulid) (type text : Text) (attrs : Option (Json d))
      (include_benchmark : Bool) (db : Tables d) (b : Block d)
      → (append d codec call id type text attrs db).0 ≡ ok b
      → is_visible d codec include_benchmark db b ≡ true
      → All (λ x. x.ordinal + 1 < 2 ^ 32) (filter (is_in d codec id) db.blocks)
      → (list_visible d codec id include_benchmark
          (append d codec call id type text attrs db).1).items
        ≡ (list_visible d codec id include_benchmark db).items ++ b ∷ []
  unfolding append in_tx
  list-append call id type text attrs include_benchmark db b e shown small =
      close-ok d
        (λ c t.
          is_visible d codec include_benchmark db c ≡ true
          → (list_visible d codec id include_benchmark t).items
            ≡ (list_visible d codec id include_benchmark db).items ++ c ∷ [])
        db (append_in_tx d codec call id type text attrs db) b
        (Holds-map {A = Block d × Tables d} (λ o. IsAdded p db o.0 o.1)
          (λ o.
            is_visible d codec include_benchmark db o.0 ≡ true
            → (list_visible d codec id include_benchmark o.1).items
              ≡ (list_visible d codec id include_benchmark db).items ++ o.0 ∷ [])
          (append_in_tx d codec call id type text attrs db) (λ o k. read o.0 o.1 k) appended)
        e shown
    where
      p : CreateBlock d
      p = record {
        entry_id = id;
        ordinal = next_ordinal d codec id db;
        type = type;
        text = text;
        attrs = attrs;
      }

      appended : Holds (λ o. IsAdded p db o.0 o.1) (append_in_tx d codec call id type text attrs db)
      appended = elim (Bool-cases (has_entry d codec id db.entries)) [
        | inl q ↦ unfold append_in_tx in rw q (create_in_tx-IsAdded call p true db)
        | inr q ↦ unfold append_in_tx in rw q tt
      ]

      small_next : All (λ x. x.ordinal < p.ordinal) (filter (is_in d codec id) db.blocks)
      small_next = unfold next_ordinal in below_next (filter (is_in d codec id) db.blocks) small

      read :
          (c : Block d) (t : Tables d)
          → IsAdded p db c t
          → is_visible d codec include_benchmark db c ≡ true
          → (list_visible d codec id include_benchmark t).items
            ≡ (list_visible d codec id include_benchmark db).items ++ c ∷ []
      read c t k = added_last p db c t include_benchmark k small_next
