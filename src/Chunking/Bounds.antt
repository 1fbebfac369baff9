-- ===== src/Chunking/Bounds.antt =====
-- The sizes of the chunks.
use nomai.Base.{
  ℕ, ◌+◌, ◌≤◌, ◌≡◌, refl, inl, inr, true, false, not, ◌&&◌, List, [], ◌∷◌, ◌++◌, arith, tests,
  leb→le, ltb, leb, is_empty, Bool-cases, All, All-append,
}
use nomai.Chunking.Pieces.{flush-current}
use nomai.Chunking.{
  split_paragraphs, split_sentences, Chunks, flush, hard_step, hard_loop, hard_split, add_piece,
  grown, add_sentence, add_sentences, add_paragraph, add_paragraphs, chunk_text,
}
use nomai.Text.{Text, len, len_utf8}

len-append : (s t : Text) → len (s ++ t) ≡ len s + len t
unfolding len
len-append [] t = omega arith
len-append (c ∷ s) t = omega (arith, len-append s t)

len_utf8-le : (c : ℕ) → len_utf8 c ≤ 4
unfolding len_utf8
len_utf8-le c = ground arith

-- A chunk is not empty, and is no longer than the bound.
pub record IsChunk (bound : ℕ) (s : Text) : Type 0 where
  pub not_empty : is_empty s ≡ false
  pub fits : len s ≤ bound

-- What the loops keep.
record IsWithin (bound : ℕ) (st : Chunks) : Type 0 where
  chunks : All (IsChunk bound) st.done
  growing : len st.current ≤ bound

flush-done : (bound : ℕ) (st : Chunks) → IsWithin bound st → All (IsChunk bound) (flush st).done
unfolding flush
flush-done bound st h = elim (Bool-cases (is_empty st.current)) [
  | inl q ↦ rw (q, flush) h.chunks
  | inr q ↦
      rw (q, flush)
        (All-append (IsChunk bound) st.done (st.current ∷ []) h.chunks
          (record { not_empty = q; fits = h.growing }, tt))
]

len_nil : len [] ≡ 0
unfolding len
len_nil = refl

len-cons : (c : ℕ) (s : Text) → len (c ∷ s) ≡ len_utf8 c + len s
unfolding len
len-cons c s = refl

flush-IsWithin : (bound : ℕ) (st : Chunks) → IsWithin bound st → IsWithin bound (flush st)
flush-IsWithin bound st h = record {
  chunks = flush-done bound st h;
  growing = rw (flush-current st) (omega (arith, len_nil));
}

hard_fits :
    (target bound : ℕ) (cur : Text) (c : ℕ)
    → target ≤ bound
    → 4 ≤ bound
    → (ltb target (len cur + len_utf8 c) && not (is_empty cur)) ≡ false
    → len (cur ++ c ∷ []) ≤ bound
hard_fits target bound [] c t f q = omega (arith, len-cons c [], len_nil, len_utf8-le c)
hard_fits target bound (d ∷ cur) c t f q =
    let small : len (d ∷ cur) + len_utf8 c ≤ target = ground arith in
    omega (arith, len-append (d ∷ cur) (c ∷ []), len-cons c [], len_nil)

hard_step-IsWithin :
    (target bound : ℕ) (st : Chunks) (c : ℕ)
    → target ≤ bound
    → 4 ≤ bound
    → IsWithin bound st
    → IsWithin bound (hard_step target st c)
unfolding hard_step
hard_step-IsWithin target bound st c t f h =
    elim (Bool-cases (ltb target (len st.current + len_utf8 c) && not (is_empty st.current))) [
      | inl q ↦
          rw (q, hard_step)
            (record {
              chunks = flush-done bound st h;
              growing =
                  rw (flush-current st) (omega (arith, len-cons c [], len_nil, len_utf8-le c));
            })
      | inr q ↦
          rw (q, hard_step)
            (record { chunks = h.chunks; growing = hard_fits target bound st.current c t f q })
    ]

hard_loop-IsWithin :
    (target bound : ℕ) (st : Chunks) (s : Text)
    → target ≤ bound
    → 4 ≤ bound
    → IsWithin bound st
    → IsWithin bound (hard_loop target st s)
unfolding hard_loop
hard_loop-IsWithin target bound st [] t f h = h
hard_loop-IsWithin target bound st (c ∷ s) t f h =
    hard_loop-IsWithin target bound (hard_step target st c) s t f
      (hard_step-IsWithin target bound st c t f h)

empty-IsWithin : (bound : ℕ) → IsWithin bound (record { done = []; current = [] })
empty-IsWithin bound = record { chunks = tt; growing = omega (arith, len_nil) }

hard_split-chunks :
    (target bound : ℕ) (s : Text)
    → target ≤ bound
    → 4 ≤ bound
    → All (IsChunk bound) (hard_split s target)
unfolding hard_split
hard_split-chunks target bound s t f = flush-done bound _ (
    hard_loop-IsWithin target bound (record { done = []; current = [] }) s t f
      (empty-IsWithin bound))

-- A piece that was found to fit is added.
add_piece-IsWithin :
    (n target bound : ℕ) (separator : Text) (st : Chunks) (piece : Text)
    → target ≤ bound
    → len separator ≡ n
    → leb (grown n st piece) target ≡ true
    → IsWithin bound st
    → IsWithin bound (add_piece separator st piece)
unfolding add_piece grown
add_piece-IsWithin n target bound separator st piece t e q h = record {
  chunks = h.chunks;
  growing = elim (Bool-cases (is_empty st.current)) [
    | inl b ↦
        rw (b, add_piece)
          (let small : len st.current + (0 + len piece) ≤ target =
              leb→le _ _ (rw (b, grown) at q) in
            omega arith)
    | inr b ↦
        rw (b, add_piece)
          (let small : len st.current + (n + len piece) ≤ target =
              leb→le _ _ (rw (b, grown) at q) in
            omega
              (arith, len-append (st.current ++ separator) piece, len-append st.current separator))
  ];
}

module _ (target bound : ℕ) (t : target ≤ bound) (f : 4 ≤ bound) where
  add_sentence-IsWithin :
      (st : Chunks) (s : Text) → IsWithin bound st → IsWithin bound (add_sentence target st s)
  unfolding add_sentence
  add_sentence-IsWithin st s h = elim (Bool-cases (leb (grown 1 st s) target)) [
    | inl q ↦
        rw (q, add_sentence)
          (add_piece-IsWithin 1 target bound (b' ' ∷ []) st s t (unfold len in refl) q h)
    | inr q ↦
        rw (q, add_sentence)
          (elim (Bool-cases (leb (len s) target)) [
            | inl r ↦ rw r (record { chunks = flush-done bound st h; growing = omega (tests, r) })
            | inr r ↦ rw r (record {
              chunks =
                  All-append (IsChunk bound) (flush st).done (hard_split s target)
                    (flush-done bound st h) (hard_split-chunks target bound s t f);
              growing = omega (arith, len_nil);
            })
          ])
  ]

  add_sentences-IsWithin :
      (st : Chunks) (ss : List Text)
      → IsWithin bound st
      → IsWithin bound (add_sentences target st ss)
  unfolding add_sentences
  add_sentences-IsWithin st [] h = h
  add_sentences-IsWithin st (s ∷ ss) h =
      add_sentences-IsWithin (add_sentence target st s) ss (add_sentence-IsWithin st s h)

  add_paragraph-IsWithin :
      (st : Chunks) (p : Text) → IsWithin bound st → IsWithin bound (add_paragraph target st p)
  unfolding add_paragraph
  add_paragraph-IsWithin st p h = elim (Bool-cases (is_empty p)) [
    | inl q ↦ rw (q, add_paragraph) h
    | inr q ↦
        rw (q, add_paragraph)
          (elim (Bool-cases (leb (len p) target)) [
            | inl r ↦ rw r (elim (Bool-cases (leb (grown 2 st p) target)) [
              | inl u ↦ rw u (
                  add_piece-IsWithin 2 target bound (b'\n' ∷ b'\n' ∷ []) st p t (unfold len in refl)
                    u h)
              | inr u ↦ rw u (record { chunks = flush-done bound st h; growing = omega (tests, r) })
            ])
            | inr r ↦
                rw r (
                  add_sentences-IsWithin (flush st) (split_sentences p) (flush-IsWithin bound st h))
          ])
  ]

  add_paragraphs-IsWithin :
      (st : Chunks) (ps : List Text)
      → IsWithin bound st
      → IsWithin bound (add_paragraphs target st ps)
  unfolding add_paragraphs
  add_paragraphs-IsWithin st [] h = h
  add_paragraphs-IsWithin st (p ∷ ps) h =
      add_paragraphs-IsWithin (add_paragraph target st p) ps (add_paragraph-IsWithin st p h)

  -- Every chunk is non-empty, and at most as long, in bytes, as any bound that is no less than the
  -- target and has room for one character of four bytes.
  pub chunk_text_bounds : (text : Text) → All (IsChunk bound) (chunk_text text target)
  unfolding chunk_text
  chunk_text_bounds [] = tt
  chunk_text_bounds (c ∷ s) = elim (Bool-cases (leb (len (c ∷ s)) target)) [
    | inl q ↦ rw (q, chunk_text) (record { not_empty = refl; fits = omega (tests, q) }, tt)
    | inr q ↦
        rw (q, chunk_text)
          (flush-done bound _ (
            add_paragraphs-IsWithin (record { done = []; current = [] }) (split_paragraphs (c ∷ s))
              (empty-IsWithin bound)))
  ]
