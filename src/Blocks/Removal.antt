-- ===== src/Blocks/Removal.antt =====
-- What deleting blocks, with the cascade and the triggers, and updating a row keep.
use nomai.Base.{
  ◌≡◌, sym, ap, ◌∙◌, Bool, true, false, not, ◌&&◌, List, [], ◌∷◌, arith, map, any, any-filter,
  filter, filter_none, filter-All, filter-filter, filter-ext, filter-IsApart, any_kept, filter_kept,
  All, All-map, All-any, All-both, All-filter, All-each, IsApart, Bool-cases, inl, inr,
}
use nomai.Blocks.{
  Chunk, IndexRow, Tables, Codec, has_entry, is_block, is_chunk_of, is_row_of, same_place, clashes,
  index_row, delete_chunks, delete_blocks, delete_entry_row,
}
use nomai.Blocks.Index.{pieces, IsIndexed, block_at}
use nomai.Core.{Deps, same_id}
use nomai.Core.Model.{Block}

module _ (d : Deps) (codec : Codec d) where
  -- No block that is kept has the id of one that is dropped.
  gone_apart :
      (p : Block d → Bool) (bs : List (Block d))
      → IsApart (same_place d codec) bs
      → All (λ x. any (is_block d codec x.id) (filter p bs) ≡ false) (filter (λ x. not (p x)) bs)
  unfolding filter any
  gone_apart p [] h = tt
  gone_apart p (b ∷ bs) h = elim (Bool-cases (p b)) [
    | inl q ↦ rw q (
        All-map _ _ (λ x k. both x k.0 k.1) _
          (All-both _ _ (filter (λ x. not (p x)) bs) (All-filter _ (λ x. not (p x)) bs h.0)
            (gone_apart p bs h.1)))
    | inr q ↦ rw q (
      All-any _ (filter p bs) (All-filter _ p bs (All-map _ _ (λ x k. apart x k) bs h.0)),
      gone_apart p bs h.1,
    )
  ]
    where
      apart : (x : Block d) → same_place d codec b x ≡ false → is_block d codec b.id x ≡ false
      apart x k = unfold same_place in ground (arith, k)

      both :
          (x : Block d)
          → same_place d codec b x ≡ false
          → any (is_block d codec x.id) (filter p bs) ≡ false
          → any (is_block d codec x.id) (b ∷ filter p bs) ≡ false
      both x k f = unfold same_place in ground (arith, k, f)

  module _ (p : Block d → Bool) (db : Tables d) (v : IsIndexed d codec db) where
    gone : List (Block d)
    gone = filter p db.blocks

    abbrev is_gone : d.Ulid → Bool
    is_gone id = any (is_block d codec id) gone

    kept_apart : All (λ x. is_gone x.id ≡ false) (filter (λ x. not (p x)) db.blocks)
    unfolding gone
    kept_apart = gone_apart p db.blocks v.linked.blocks_apart

    same_pieces :
        (id : d.Ulid)
        → is_gone id ≡ false
        → pieces d codec id (filter (λ c. not (is_gone c.block_id)) db.chunks)
          ≡ pieces d codec id db.chunks
    same_pieces id f = ap (map (λ c. (c.ordinal, c.text))) (
        filter-filter (is_chunk_of d codec id) (λ c. not (is_gone c.block_id)) db.chunks
        ∙ filter-ext _ (is_chunk_of d codec id) db.chunks (λ c. its c))
      where
        its :
            (c : Chunk d)
            → (is_chunk_of d codec id c && not (is_gone c.block_id)) ≡ is_chunk_of d codec id c
        its c = elim (Bool-cases (is_chunk_of d codec id c)) [
          | inl q ↦
              let e = block_at d codec c.block_id id gone (ground (arith, q)) in
              ground (arith, e, f, q)
          | inr q ↦ ground (arith, q)
        ]

    rows_left :
        (id : d.Ulid)
        → filter (is_row_of d codec id) (filter (λ r. not (is_gone r.block_id)) db.index)
          ≡ map
              (index_row d codec)
              (filter (is_block d codec id) (filter (λ x. not (p x)) db.blocks))
    unfolding gone
    rows_left id = elim (Bool-cases (is_gone id)) [
      | inl q ↦
          filter-filter (is_row_of d codec id) (λ r. not (is_gone r.block_id)) db.index
          ∙ filter_none _ db.index (All-each _ db.index (λ r. dropped r q))
          ∙ sym (
              ap (map (index_row d codec)) (
                filter_none (is_block d codec id) (filter (λ x. not (p x)) db.blocks)
                  (All-map _ _ (λ x f. other x q f) _ kept_apart)))
      | inr q ↦
          filter-filter (is_row_of d codec id) (λ r. not (is_gone r.block_id)) db.index
          ∙ filter-ext _ (is_row_of d codec id) db.index (λ r. its r q)
          ∙ v.linked.index_rows id
          ∙ sym (ap (map (index_row d codec)) (filter_kept (is_block d codec id) p db.blocks q))
    ]
      where
        dropped :
            (r : IndexRow d)
            → is_gone id ≡ true
            → (is_row_of d codec id r && not (is_gone r.block_id)) ≡ false
        dropped r q = elim (Bool-cases (is_row_of d codec id r)) [
          | inl s ↦
              let e = block_at d codec r.block_id id gone (ground (arith, s)) in
              ground (arith, e, q, s)
          | inr s ↦ ground (arith, s)
        ]

        its :
            (r : IndexRow d)
            → is_gone id ≡ false
            → (is_row_of d codec id r && not (is_gone r.block_id)) ≡ is_row_of d codec id r
        its r q = elim (Bool-cases (is_row_of d codec id r)) [
          | inl s ↦
              let e = block_at d codec r.block_id id gone (ground (arith, s)) in
              ground (arith, e, q, s)
          | inr s ↦ ground (arith, s)
        ]

        other :
            (x : Block d) → is_gone id ≡ true → is_gone x.id ≡ false → is_block d codec id x ≡ false
        other x q f = elim (Bool-cases (is_block d codec id x)) [
          | inl s ↦
              let e = block_at d codec x.id id gone (ground (arith, s)) in ground (arith, e, f, q)
          | inr s ↦ s
        ]

    pub delete_blocks-IsIndexed : IsIndexed d codec (delete_blocks d codec p db)
    unfolding delete_blocks delete_chunks gone
    delete_blocks-IsIndexed = record {
      linked = record {
        blocks_apart = filter-IsApart (same_place d codec) _ db.blocks v.linked.blocks_apart;
        blocks_in = All-filter _ _ db.blocks v.linked.blocks_in;
        chunks_apart = filter-IsApart (clashes d codec) _ db.chunks v.linked.chunks_apart;
        chunks_in =
            All-map _ _ (λ c k. stays c k.0 k.1) _
              (All-both _ _ (filter (λ c. not (is_gone c.block_id)) db.chunks)
                (All-filter _ (λ c. not (is_gone c.block_id)) db.chunks v.linked.chunks_in)
                (filter-All (λ c. not (is_gone c.block_id)) db.chunks));
        index_rows = rows_left;
      };
      chunks_derived =
          All-map _ _ (λ x k. same_pieces x.id k.0 ∙ k.1) _
            (All-both _ _ (filter (λ x. not (p x)) db.blocks) kept_apart
              (All-filter _ (λ x. not (p x)) db.blocks v.chunks_derived));
    }
      where
        stays :
            (c : Chunk d)
            → any (is_block d codec c.block_id) db.blocks ≡ true
            → not (is_gone c.block_id) ≡ true
            → any (is_block d codec c.block_id) (filter (λ x. not (p x)) db.blocks) ≡ true
        stays c k f = any_kept (is_block d codec c.block_id) p db.blocks k (ground (arith, f))

  pub delete_entry_row-IsIndexed :
      (id : d.Ulid) (db : Tables d)
      → IsIndexed d codec db
      → IsIndexed d codec (delete_entry_row d codec id db)
  unfolding delete_entry_row delete_blocks delete_chunks
  delete_entry_row-IsIndexed id db v =
      let w = delete_blocks-IsIndexed (λ b. same_id d b.entry_id id) db v in
      record {
        linked = record {
          blocks_apart = w.linked.blocks_apart;
          blocks_in = inside;
          chunks_apart = w.linked.chunks_apart;
          chunks_in = w.linked.chunks_in;
          index_rows = w.linked.index_rows;
        };
        chunks_derived = w.chunks_derived;
      }
    where
      kept :
          (b : Block d)
          → has_entry d codec b.entry_id db.entries ≡ true
          → not (same_id d b.entry_id id) ≡ true
          → has_entry d codec b.entry_id (filter (λ e. not (same_id d e.id id)) db.entries) ≡ true
      kept b k f =
          any-filter (λ e. same_id d e.id b.entry_id) (λ e. not (same_id d e.id id)) db.entries
            (λ e g. ground (arith, f, g)) k

      inside :
          All
            (λ b.
              has_entry d codec b.entry_id (filter (λ e. not (same_id d e.id id)) db.entries)
              ≡ true)
            (filter (λ b. not (same_id d b.entry_id id)) db.blocks)
      inside =
          All-map _ _ (λ b k. kept b k.0 k.1) _
            (All-both _ _ (filter (λ b. not (same_id d b.entry_id id)) db.blocks)
              (All-filter _ (λ b. not (same_id d b.entry_id id)) db.blocks v.linked.blocks_in)
              (filter-All (λ b. not (same_id d b.entry_id id)) db.blocks))
