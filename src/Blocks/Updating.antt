-- ===== src/Blocks/Updating.antt =====
-- What an update of a row keeps, and deriving its chunks anew.
use nomai.Base.{
  ◌≡◌, ◌==◌, refl, sym, ap, ◌∙◌, true, false, not, ◌&&◌, some, [], ◌∷◌, arith, map, any, find,
  find-All, filter, filter_keep, filter_drop, filter_none, filter-filter, filter-ext,
  filter-IsApart, find-filter, map-IsApart, filter-map, map_same, any-map, any-ext, All-each,
  All-map, filter-All, All-filter, All-of-map, Bool-cases, inl, inr, Holds,
}
use nomai.Blocks.{
  Chunk, IndexRow, Tables, Call, Codec, has_entry, is_block, is_chunk_of, is_row_of, same_place,
  clashes, index_row, delete_chunks, derive_chunks,
}
use nomai.Blocks.Index.{
  pieces, pieces_same, derived, IsLinked, IsIndexed, IsDone, derive_chunks-IsIndexed,
}
use nomai.Blocks.Service.{set_columns, update_row, rechunk}
use nomai.Core.{Deps, same_id}
use nomai.Core.Model.{Block}
use nomai.Text.{text_eq}
use nomai.Text.Order.{text_eq_iff}

module _ (d : Deps) (codec : Codec d) where
  -- The chunks of one block deleted.
  delete_chunks-IsLinked :
      (id : d.Ulid) (db : Tables d)
      → IsLinked d codec db
      → IsLinked d codec (delete_chunks d codec (is_chunk_of d codec id) db)
  unfolding delete_chunks
  delete_chunks-IsLinked id db v = record {
    blocks_apart = v.blocks_apart;
    blocks_in = v.blocks_in;
    chunks_apart = filter-IsApart (clashes d codec) _ db.chunks v.chunks_apart;
    chunks_in = All-filter _ _ db.chunks v.chunks_in;
    index_rows = v.index_rows;
  }

  delete_chunks-pieces :
      (id : d.Ulid) (db : Tables d)
      → pieces d codec id (delete_chunks d codec (is_chunk_of d codec id) db).chunks ≡ []
  unfolding delete_chunks
  delete_chunks-pieces id db = ap (map (λ c. (c.ordinal, c.text))) (
      filter-filter (is_chunk_of d codec id) (λ c. not (is_chunk_of d codec id c)) db.chunks
      ∙ filter_none _ db.chunks (All-each _ db.chunks (λ c. neither c)))
    where
      neither : (c : Chunk d) → (is_chunk_of d codec id c && not (is_chunk_of d codec id c)) ≡ false
      neither c = ground arith

  delete_chunks-other :
      (id j : d.Ulid) (db : Tables d)
      → same_id d j id ≡ false
      → pieces d codec j (delete_chunks d codec (is_chunk_of d codec id) db).chunks
        ≡ pieces d codec j db.chunks
  unfolding delete_chunks
  delete_chunks-other id j db f = ap (map (λ c. (c.ordinal, c.text))) (
      filter-filter (is_chunk_of d codec j) (λ c. not (is_chunk_of d codec id c)) db.chunks
      ∙ filter-ext _ (is_chunk_of d codec j) db.chunks (λ c. its c))
    where
      its :
          (c : Chunk d)
          → (is_chunk_of d codec j c && not (is_chunk_of d codec id c)) ≡ is_chunk_of d codec j c
      its c = ground (arith, f)

  -- A row that is found under its id, and what it becomes.
  module _ (u y : Block d) (db : Tables d) (v : IsIndexed d codec db)
      (found : find (is_block d codec u.id) db.blocks ≡ some y)
      (becomes : set_columns d codec u y ≡ u) where
    set_id :
        (id : d.Ulid) (x : Block d)
        → is_block d codec id (set_columns d codec u x) ≡ is_block d codec id x
    set_id id x = ground arith

    set_place :
        (a b : Block d)
        → same_place d codec (set_columns d codec u a) (set_columns d codec u b)
          ≡ same_place d codec a b
    unfolding same_place
    set_place a b = ground arith

    only : filter (is_block d codec u.id) db.blocks ≡ y ∷ []
    only =
        find-filter (same_place d codec) (is_block d codec u.id) db.blocks y (λ a b. one a b)
          v.linked.blocks_apart found
      where
        one :
            (a b : Block d)
            → is_block d codec u.id a ≡ true
            → same_place d codec a b ≡ false
            → is_block d codec u.id b ≡ false
        one a b k f = unfold same_place in ground (arith, k, f)

    rows :
        (id : d.Ulid)
        → filter
            (is_row_of d codec id)
            (index_row d codec u ∷ filter (λ r. not (is_row_of d codec u.id r)) db.index)
          ≡ map
              (index_row d codec)
              (filter (is_block d codec id) (map (set_columns d codec u) db.blocks))
    rows id = elim (Bool-cases (same_id d u.id id)) [
      | inl q ↦
          filter_keep (is_row_of d codec id) (index_row d codec u) _ q
          ∙ ap (λ rs. index_row d codec u ∷ rs)
              (filter-filter (is_row_of d codec id) (λ r. not (is_row_of d codec u.id r)) db.index
                ∙ filter_none _ db.index (All-each _ db.index (λ r. neither r q)))
          ∙ sym (ap (λ x. index_row d codec x ∷ []) becomes)
          ∙ sym
              (ap (λ bs. map (index_row d codec) (map (set_columns d codec u) bs)) (at id q ∙ only))
          ∙ sym (changed id)
      | inr q ↦
          filter_drop (is_row_of d codec id) (index_row d codec u) _ q
          ∙ filter-filter (is_row_of d codec id) (λ r. not (is_row_of d codec u.id r)) db.index
          ∙ filter-ext _ (is_row_of d codec id) db.index (λ r. its r q)
          ∙ v.linked.index_rows id
          ∙ sym (
              ap (map (index_row d codec)) (
                map_same (set_columns d codec u) (filter (is_block d codec id) db.blocks) (
                  All-map _ _ (λ x k. unchanged x q k) _
                    (filter-All (is_block d codec id) db.blocks))))
          ∙ sym (changed id)
    ]
      where
        neither :
            (r : IndexRow d)
            → same_id d u.id id ≡ true
            → (is_row_of d codec id r && not (is_row_of d codec u.id r)) ≡ false
        neither r q = ground (arith, q)

        its :
            (r : IndexRow d)
            → same_id d u.id id ≡ false
            → (is_row_of d codec id r && not (is_row_of d codec u.id r)) ≡ is_row_of d codec id r
        its r q = ground (arith, q)

        unchanged :
            (x : Block d)
            → same_id d u.id id ≡ false
            → is_block d codec id x ≡ true
            → set_columns d codec u x ≡ x
        unchanged x q k = ground (arith, q, k)

        at :
            (id : d.Ulid)
            → same_id d u.id id ≡ true
            → filter (is_block d codec id) db.blocks ≡ filter (is_block d codec u.id) db.blocks
        at id q = ap (λ n. filter (λ b. d.number b.id == n) db.blocks) (ground (arith, q))

        changed :
            (id : d.Ulid)
            → map
                (index_row d codec)
                (filter (is_block d codec id) (map (set_columns d codec u) db.blocks))
              ≡ map
                  (index_row d codec)
                  (map (set_columns d codec u) (filter (is_block d codec id) db.blocks))
        changed id =
            ap (map (index_row d codec))
              (filter-map (is_block d codec id) (set_columns d codec u) db.blocks (set_id id))

    update_row-IsLinked : IsLinked d codec (update_row d codec u db)
    unfolding update_row
    update_row-IsLinked = record {
      blocks_apart =
          map-IsApart (same_place d codec) (set_columns d codec u) db.blocks set_place
            v.linked.blocks_apart;
      blocks_in =
          All-of-map (set_columns d codec u) (λ b. has_entry d codec b.entry_id db.entries ≡ true)
            db.blocks (All-map _ _ (λ x h. inside x h) db.blocks v.linked.blocks_in);
      chunks_apart = v.linked.chunks_apart;
      chunks_in = All-map _ _ (λ c h. still c h) db.chunks v.linked.chunks_in;
      index_rows = rows;
    }
      where
        inside :
            (x : Block d)
            → has_entry d codec x.entry_id db.entries ≡ true
            → has_entry d codec (set_columns d codec u x).entry_id db.entries ≡ true
        inside x h = elim (Bool-cases (is_block d codec u.id x)) [ inl q ↦ rw q h | inr q ↦ rw q h ]

        still :
            (c : Chunk d)
            → any (is_block d codec c.block_id) db.blocks ≡ true
            → any (is_block d codec c.block_id) (map (set_columns d codec u) db.blocks) ≡ true
        still c h =
            any-map (set_columns d codec u) (is_block d codec c.block_id) db.blocks
            ∙ any-ext _ (is_block d codec c.block_id) db.blocks (set_id c.block_id)
            ∙ h

    found_pieces : pieces d codec y.id db.chunks ≡ derived d codec y.text
    found_pieces = (find-All _ (is_block d codec u.id) db.blocks y v.chunks_derived found).0

    found_id : same_id d y.id u.id ≡ true
    found_id = (find-All _ (is_block d codec u.id) db.blocks y v.chunks_derived found).1

    -- The text stays, and so do the chunks.
    same_text : text_eq u.text y.text ≡ true → IsIndexed d codec (update_row d codec u db)
    unfolding update_row
    same_text e = record {
      linked = update_row-IsLinked;
      chunks_derived =
          All-of-map (set_columns d codec u)
            (λ b. pieces d codec b.id db.chunks ≡ derived d codec b.text) db.blocks
            (All-map _ _ (λ x h. right x h) db.blocks v.chunks_derived);
    }
      where
        right :
            (x : Block d)
            → pieces d codec x.id db.chunks ≡ derived d codec x.text
            → pieces d codec (set_columns d codec u x).id db.chunks
              ≡ derived d codec (set_columns d codec u x).text
        right x h = elim (Bool-cases (is_block d codec u.id x)) [
          | inr q ↦ rw q h
          | inl q ↦ rw q (
              pieces_same d codec x.id y.id db.chunks (ground (arith, q, found_id))
              ∙ found_pieces
              ∙ ap (derived d codec) (sym ((text_eq_iff u.text y.text).0 e)))
        ]

    -- The chunks of the block are deleted and derived from its new text.
    new_text :
        (call : Call d)
        → Holds (IsIndexed d codec) (
            derive_chunks d codec call u
              (delete_chunks d codec (is_chunk_of d codec u.id) (update_row d codec u db)))
    new_text call =
        derive_chunks-IsIndexed d codec call u _
          (delete_chunks-IsLinked u.id (update_row d codec u db) update_row-IsLinked)
          (delete_chunks-pieces u.id (update_row d codec u db))
          (unfold update_row delete_chunks in
            All-of-map (set_columns d codec u) (IsDone d codec u cleared) db.blocks
              (All-map _ _ (λ x h. right x h) db.blocks v.chunks_derived))
      where
        cleared : Tables d
        cleared = delete_chunks d codec (is_chunk_of d codec u.id) (update_row d codec u db)

        right :
            (x : Block d)
            → pieces d codec x.id db.chunks ≡ derived d codec x.text
            → IsDone d codec u cleared (set_columns d codec u x)
        right x h = elim (Bool-cases (is_block d codec u.id x)) [
          | inl q ↦ rw q (inl (q, refl))
          | inr q ↦ rw q (
              inr (
                q,
                delete_chunks-other u.id x.id (update_row d codec u db) q ∙ unfold update_row in h,
              ))
        ]

    pub rechunk-IsIndexed :
        (call : Call d)
        → Holds (IsIndexed d codec) (rechunk d codec call y.text u (update_row d codec u db))
    unfolding rechunk
    rechunk-IsIndexed call = elim (Bool-cases (text_eq u.text y.text)) [
      | inl e ↦ rw e (same_text e)
      | inr e ↦ rw e (new_text call)
    ]
