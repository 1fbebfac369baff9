-- ===== src/Blocks/Index.antt =====
-- What the tables keep, and that writing a block with its chunks keeps it.
use nomai.Base.{
  ℕ, suc, ◌%◌, ◌^◌, ◌≡◌, ◌==◌, refl, sym, ap, ◌∙◌, subst, true, false, List, [], ◌∷◌, arith, map,
  any, filter, filter_keep, filter_drop, filter_none, All, All-map, any-All, All-any, All-both,
  any_more, IsApart, ==_refl, Bool-cases, ◌⊎◌, inl, inr, Holds, Holds-map,
}
use nomai.Blocks.{
  Chunk, Tables, Call, Codec, has_entry, is_block, is_chunk_of, is_row_of, same_place,
  is_insertable, clashes, is_chunk_insertable, index_row, insert_block, insert_chunk, chunk_attrs,
  new_chunk, insert_chunks, derive_chunks,
}
use nomai.Chunking.{chunk_text}
use nomai.Core.{Deps, Json, same_id}
use nomai.Core.Model.{Block}
use nomai.Text.{Text}

-- Texts with their ordinals from i on, the last one first, on top of others.
unfoldable pub stacked : ℕ → List Text → List (ℕ × Text) → List (ℕ × Text)
stacked i [] below = below
stacked i (t ∷ ts) below = stacked (suc i) ts ((i % 2 ^ 32, t) ∷ below)

module _ (d : Deps) (codec : Codec d) where
  -- The ordinals and texts of the chunks of a block.
  abbrev pub pieces : d.Ulid → List (Chunk d) → List (ℕ × Text)
  pieces id cs = map (λ c. (c.ordinal, c.text)) (filter (is_chunk_of d codec id) cs)

  abbrev pub derived : Text → List (ℕ × Text)
  derived text = stacked 0 (chunk_text text codec.chunk_target_size) []

  -- Ids and places of the blocks are distinct, and each block has its entry; ids and places of the
  -- chunks are distinct, and each chunk has its block; the index has one row for each block, and none
  -- for an id that is no block's.
  pub record IsLinked (db : Tables d) : Type 0 where
    pub blocks_apart : IsApart (same_place d codec) db.blocks
    pub blocks_in : All (λ b. has_entry d codec b.entry_id db.entries ≡ true) db.blocks
    pub chunks_apart : IsApart (clashes d codec) db.chunks
    pub chunks_in : All (λ c. any (is_block d codec c.block_id) db.blocks ≡ true) db.chunks
    pub index_rows :
        (id : d.Ulid)
        → filter (is_row_of d codec id) db.index
          ≡ map (index_row d codec) (filter (is_block d codec id) db.blocks)

  -- The chunks of each block are those of its text, too.
  pub record IsIndexed (db : Tables d) : Type 0 where
    pub linked : IsLinked db
    pub chunks_derived : All (λ b. pieces b.id db.chunks ≡ derived b.text) db.blocks

  -- The change that inserting chunks of one block makes.
  pub record IsChunked (id : d.Ulid) (i : ℕ) (ts : List Text) (db db1 : Tables d) : Type 0 where
    pub entries_same : db1.entries ≡ db.entries
    pub blocks_same : db1.blocks ≡ db.blocks
    pub index_same : db1.index ≡ db.index
    pub apart : IsApart (clashes d codec) db1.chunks
    pub inside : All (λ c. any (is_block d codec c.block_id) db.blocks ≡ true) db1.chunks
    pub added : pieces id db1.chunks ≡ stacked i ts (pieces id db.chunks)
    pub others : (j : d.Ulid) → same_id d j id ≡ false → pieces j db1.chunks ≡ pieces j db.chunks

  pub insert_chunks-IsChunked :
      (call : Call d) (id : d.Ulid) (attrs : Json d) (i : ℕ) (ts : List Text) (db : Tables d)
      → IsApart (clashes d codec) db.chunks
      → All (λ c. any (is_block d codec c.block_id) db.blocks ≡ true) db.chunks
      → Holds (IsChunked id i ts db) (insert_chunks d codec call id attrs i ts db)
  unfolding insert_chunks insert_chunk is_chunk_insertable stacked
  insert_chunks-IsChunked call id attrs i [] db a k = record {
    entries_same = refl;
    blocks_same = refl;
    index_same = refl;
    apart = a;
    inside = k;
    added = refl;
    others = λ j f. refl;
  }
  insert_chunks-IsChunked call id attrs i (t ∷ ts) db a k =
      elim (Bool-cases (is_chunk_insertable d codec first db)) [
        | inr q ↦ rw q tt
        | inl q ↦ rw q (
            Holds-map _ _ (insert_chunks d codec call id attrs (suc i) ts put)
              (λ db1 h. behind db1 h)
              (insert_chunks-IsChunked call id attrs (suc i) ts put
                (any-All _ db.chunks (ground (arith, q)), a) (ground (arith, q), k)))
      ]
    where
      first : Chunk d
      first = new_chunk d codec call id attrs i t

      put : Tables d
      put = record db { chunks = first ∷ db.chunks }

      behind : (db1 : Tables d) → IsChunked id (suc i) ts put db1 → IsChunked id i (t ∷ ts) db db1
      behind db1 h = record {
        entries_same = h.entries_same;
        blocks_same = h.blocks_same;
        index_same = h.index_same;
        apart = h.apart;
        inside = h.inside;
        added =
            h.added
            ∙ ap (stacked (suc i) ts) (
                ap (map (λ c. (c.ordinal, c.text)))
                  (filter_keep (is_chunk_of d codec id) first db.chunks (==_refl (d.number id))));
        others = λ j g.
            h.others j g
            ∙ ap (map (λ c. (c.ordinal, c.text)))
                (filter_drop (is_chunk_of d codec j) first db.chunks (other j g));
      }
        where
          other : (j : d.Ulid) → same_id d j id ≡ false → same_id d id j ≡ false
          other j g = ground (arith, g)

  pub pieces_same :
      (i j : d.Ulid) (cs : List (Chunk d)) → d.number i ≡ d.number j → pieces i cs ≡ pieces j cs
  pieces_same i j cs e =
      ap (λ n. map (λ c. (c.ordinal, c.text)) (filter (λ c. d.number c.block_id == n) cs)) e

  -- A block with the text of `b` and its id, or one whose chunks are right.
  abbrev pub IsDone : Block d → Tables d → Block d → Type 0
  IsDone b db x =
      ((same_id d x.id b.id ≡ true) × (x.text ≡ b.text))
      ⊎ ((same_id d x.id b.id ≡ false) × (pieces x.id db.chunks ≡ derived x.text))

  -- The chunks of one block are derived, when those of the others are.
  pub derive_chunks-IsIndexed :
      (call : Call d) (b : Block d) (db : Tables d)
      → IsLinked db
      → pieces b.id db.chunks ≡ []
      → All (IsDone b db) db.blocks
      → Holds IsIndexed (derive_chunks d codec call b db)
  unfolding derive_chunks
  derive_chunks-IsIndexed call b db v e h =
      Holds-map (IsChunked b.id 0 texts db) IsIndexed
        (insert_chunks d codec call b.id (chunk_attrs d codec b.type b.attrs) 0 texts db)
        (λ db1 k. done db1 k)
        (insert_chunks-IsChunked call b.id (chunk_attrs d codec b.type b.attrs) 0 texts db
          v.chunks_apart v.chunks_in)
    where
      texts : List Text
      texts = chunk_text b.text codec.chunk_target_size

      all_of :
          (db1 : Tables d)
          → IsChunked b.id 0 texts db db1
          → (x : Block d) → IsDone b db x
          → pieces x.id db1.chunks ≡ derived x.text
      all_of db1 k x (inl (s, t)) =
          pieces_same x.id b.id db1.chunks (ground (arith, s))
          ∙ k.added
          ∙ ap (stacked 0 texts) e
          ∙ ap derived (sym t)
      all_of db1 k x (inr (s, t)) = k.others x.id s ∙ t

      done : (db1 : Tables d) → IsChunked b.id 0 texts db db1 → IsIndexed db1
      done db1 k = record {
        linked = record {
          blocks_apart = subst (IsApart (same_place d codec)) (sym k.blocks_same) v.blocks_apart;
          blocks_in = rw (k.blocks_same, k.entries_same) v.blocks_in;
          chunks_apart = k.apart;
          chunks_in = rw (k.blocks_same) k.inside;
          index_rows = λ id. rw (k.index_same, k.blocks_same) (v.index_rows id);
        };
        chunks_derived = rw (k.blocks_same) (All-map _ _ (λ x h. all_of db1 k x h) db.blocks h);
      }

  -- An id that no block has.
  fresh_id :
      (b : Block d) (bs : List (Block d))
      → any (same_place d codec b) bs ≡ false
      → All (λ x. same_id d x.id b.id ≡ false) bs
  unfolding same_place
  fresh_id b bs f = All-map _ _ (λ x g. ground (arith, g)) bs (any-All _ bs f)

  pub block_at :
      (i j : d.Ulid) (bs : List (Block d))
      → d.number i ≡ d.number j
      → any (is_block d codec i) bs ≡ any (is_block d codec j) bs
  block_at i j bs e = ap (λ n. any (λ x. d.number x.id == n) bs) e

  -- A block that is not there has no chunks.
  pub no_pieces :
      (id : d.Ulid) (db : Tables d)
      → IsLinked db
      → any (is_block d codec id) db.blocks ≡ false
      → pieces id db.chunks ≡ []
  no_pieces id db v f = ap (map (λ c. (c.ordinal, c.text))) (
      filter_none (is_chunk_of d codec id) db.chunks
        (All-map _ _ (λ c g. not_its c g) db.chunks v.chunks_in))
    where
      not_its :
          (c : Chunk d)
          → any (is_block d codec c.block_id) db.blocks ≡ true
          → is_chunk_of d codec id c ≡ false
      not_its c g = elim (Bool-cases (is_chunk_of d codec id c)) [
        | inl q ↦
            let e = block_at c.block_id id db.blocks (ground (arith, q)) in ground (arith, e, f, g)
        | inr q ↦ q
      ]

  -- A row with the trigger's row of the index.
  add_block-IsLinked :
      (b : Block d) (db : Tables d)
      → IsLinked db
      → is_insertable d codec b db ≡ true
      → IsLinked (record db { blocks = b ∷ db.blocks; index = index_row d codec b ∷ db.index })
  unfolding is_insertable
  add_block-IsLinked b db v q = record {
    blocks_apart = (any-All _ db.blocks (ground (arith, q)), v.blocks_apart);
    blocks_in = (ground (arith, q), v.blocks_in);
    chunks_apart = v.chunks_apart;
    chunks_in =
        All-map _ _ (λ c h. any_more (is_block d codec c.block_id) b db.blocks h) db.chunks
          v.chunks_in;
    index_rows = λ id. rows id;
  }
    where
      rows :
          (id : d.Ulid)
          → filter (is_row_of d codec id) (index_row d codec b ∷ db.index)
            ≡ map (index_row d codec) (filter (is_block d codec id) (b ∷ db.blocks))
      rows id = elim (Bool-cases (same_id d b.id id)) [
        | inl s ↦
            filter_keep (is_row_of d codec id) (index_row d codec b) db.index s
            ∙ ap (λ rs. index_row d codec b ∷ rs) (v.index_rows id)
            ∙ sym (ap (map (index_row d codec)) (filter_keep (is_block d codec id) b db.blocks s))
        | inr s ↦
            filter_drop (is_row_of d codec id) (index_row d codec b) db.index s
            ∙ v.index_rows id
            ∙ sym (ap (map (index_row d codec)) (filter_drop (is_block d codec id) b db.blocks s))
      ]

  -- A block that is inserted, with its chunks.
  pub insert_block-IsIndexed :
      (call : Call d) (b : Block d) (db : Tables d)
      → IsIndexed db
      → Holds
          (λ db1. Holds IsIndexed (derive_chunks d codec call b db1))
          (insert_block d codec b db)
  unfolding insert_block
  insert_block-IsIndexed call b db v = elim (Bool-cases (is_insertable d codec b db)) [
    | inr q ↦ rw q tt
    | inl q ↦
        let fresh = fresh_id b db.blocks (is_fresh q) in
        rw q (
          derive_chunks-IsIndexed call b _ (add_block-IsLinked b db v.linked q)
            (no_pieces b.id db v.linked (All-any (is_block d codec b.id) db.blocks fresh))
            (
              inl (==_refl (d.number b.id), refl),
              All-map _ _ (λ x h. inr h) db.blocks (All-both _ _ db.blocks fresh v.chunks_derived),
            ))
  ]
    where
      is_fresh : is_insertable d codec b db ≡ true → any (same_place d codec b) db.blocks ≡ false
      is_fresh q = unfold is_insertable in ground (arith, q)
