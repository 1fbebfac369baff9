-- ===== src/Chunking/Pieces.antt =====
-- What the pieces of a text hold, and the hard cut, which loses nothing.
use nomai.Base.{
  ℕ, ◌≡◌, refl, sym, ap, ◌∙◌, inl, inr, Bool, true, false, ◌&&◌, ◌||◌, List, [], ◌∷◌, ◌++◌,
  append-nil, append_assoc, arith, not, ◌+◌, ltb, ◌==◌, if◌then◌else◌, is_empty, Bool-cases,
}
use nomai.Chunking.{
  split_paragraphs, split_sentences, Chunks, flush, hard_step, hard_loop, hard_split,
}
use nomai.Text.{Text, len, len_utf8, push_first}

-- The text without its spaces and newlines.
unfoldable pub visible : Text → Text
visible [] = []
visible (c ∷ s) = let rest = visible s in if c == b' ' || c == b'\n' then rest else c ∷ rest

abbrev pub concat : List Text → Text
concat [] = []
concat (s ∷ ss) = s ++ concat ss

-- What a state of the loops holds, in order.
abbrev pub shown : Chunks → Text
shown st = visible (concat st.done) ++ visible st.current

pub visible-append : (s t : Text) → visible (s ++ t) ≡ visible s ++ visible t
unfolding visible
visible-append [] t = refl
visible-append (c ∷ s) t = ground (arith, visible-append s t)

concat-append : (ss ts : List Text) → concat (ss ++ ts) ≡ concat ss ++ concat ts
concat-append [] ts = refl
concat-append (s ∷ ss) ts = rw (concat-append ss ts) (sym (append_assoc s (concat ss) (concat ts)))

pub visible-concat :
    (ss ts : List Text) → visible (concat (ss ++ ts)) ≡ visible (concat ss) ++ visible (concat ts)
visible-concat ss ts = ap visible (concat-append ss ts) ∙ visible-append (concat ss) (concat ts)

visible-one :
    (ss : List Text) (s : Text) → visible (concat (ss ++ s ∷ [])) ≡ visible (concat ss) ++ visible s
visible-one ss s =
    visible-concat ss (s ∷ []) ∙ ap (λ t. visible (concat ss) ++ visible t) (append-nil s)

pub shown-flush : (st : Chunks) → shown (flush st) ≡ shown st
unfolding flush
shown-flush st = elim (Bool-cases (is_empty st.current)) [
  | inl q ↦ rw (q, flush)
  | inr q ↦
      rw (q, flush)
        (ap (λ t. t ++ visible []) (visible-one st.done st.current)
          ∙ unfold visible in append-nil _)
]

pub flush-current : (st : Chunks) → (flush st).current ≡ []
unfolding flush
flush-current st = flushed st.current refl
  where
    flushed : (cur : Text) → st.current ≡ cur → (flush st).current ≡ []
    flushed [] e = rw (e, flush)
    flushed (c ∷ cur) e = rw (e, flush)

concat-push_first : (c : ℕ) (ss : List Text) → concat (push_first c ss) ≡ c ∷ concat ss
concat-push_first c [] = refl
concat-push_first c (s ∷ ss) = refl

visible-cons : (c : ℕ) (s t : Text) → visible s ≡ visible t → visible (c ∷ s) ≡ visible (c ∷ t)
unfolding visible
visible-cons c s t h = ground arith

visible_newline : (s : Text) → visible (b'\n' ∷ s) ≡ visible s
unfolding visible
visible_newline s = refl

visible_space : (s : Text) → visible (b' ' ∷ s) ≡ visible s
unfolding visible
visible_space s = refl

pub visible-split_paragraphs : (s : Text) → visible (concat (split_paragraphs s)) ≡ visible s
unfolding split_paragraphs
visible-split_paragraphs [] = refl
visible-split_paragraphs (c ∷ []) = refl
visible-split_paragraphs (c ∷ d ∷ s) = elim (Bool-cases (c == b'\n' && d == b'\n')) [
  | inl q ↦
      let e : c ≡ b'\n' = ground arith in
      let f : d ≡ b'\n' = ground arith in
      rw (e, f) (visible-split_paragraphs s ∙ sym (visible_newline (b'\n' ∷ s) ∙ visible_newline s))
  | inr q ↦
      rw q (rw concat-push_first (visible-cons c _ (d ∷ s) (visible-split_paragraphs (d ∷ s))))
]

pub visible-split_sentences : (s : Text) → visible (concat (split_sentences s)) ≡ visible s
unfolding split_sentences
visible-split_sentences [] = refl
visible-split_sentences (c ∷ []) = refl
visible-split_sentences (c ∷ d ∷ s) = elim (Bool-cases (c == b'.' && d == b' ')) [
  | inl q ↦
      let f : d ≡ b' ' = ground arith in
      rw (q, f) (visible-cons c _ (b' ' ∷ s) (visible-split_sentences s ∙ sym (visible_space s)))
  | inr q ↦ rw q (rw concat-push_first (visible-cons c _ (d ∷ s) (visible-split_sentences (d ∷ s))))
]

pub flush_all : (st : Chunks) → concat (flush st).done ≡ concat st.done ++ st.current
unfolding flush
flush_all st = flushed st.current refl
  where
    flushed :
        (cur : Text) → st.current ≡ cur → concat (flush st).done ≡ concat st.done ++ st.current
    flushed [] e = rw (e, flush) (sym (append-nil (concat st.done)))
    flushed (c ∷ cur) e =
        rw (e, flush)
          (concat-append st.done ((c ∷ cur) ∷ [])
            ∙ ap (λ t. concat st.done ++ t) (append-nil (c ∷ cur)))

abbrev held : Chunks → Text
held st = concat st.done ++ st.current

held-flush : (st : Chunks) → held (flush st) ≡ held st
held-flush st =
    ap (λ t. concat (flush st).done ++ t) (flush-current st)
    ∙ append-nil (concat (flush st).done)
    ∙ flush_all st

-- Where the step may flush first.
held-hard_step :
    (target : ℕ) (st : Chunks) (c : ℕ) → held (hard_step target st c) ≡ held st ++ c ∷ []
unfolding hard_step
held-hard_step target st c =
    push (ltb target (len st.current + len_utf8 c) && not (is_empty st.current))
  where
    push :
        (b : Bool)
        → concat (if b then flush st else st).done
            ++ ((if b then flush st else st).current ++ c ∷ [])
          ≡ held st ++ c ∷ []
    push true =
        sym (append_assoc (concat (flush st).done) (flush st).current (c ∷ []))
        ∙ ap (λ t. t ++ c ∷ []) (held-flush st)
    push false = sym (append_assoc (concat st.done) st.current (c ∷ []))

-- `hard_split` keeps every character.
hard_loop_all :
    (target : ℕ) (st : Chunks) (s : Text)
    → concat (flush (hard_loop target st s)).done ≡ held st ++ s
unfolding hard_loop
hard_loop_all target st [] = flush_all st ∙ sym (append-nil (held st))
hard_loop_all target st (c ∷ s) =
    hard_loop_all target (hard_step target st c) s
    ∙ ap (λ t. t ++ s) (held-hard_step target st c)
    ∙ append_assoc (held st) (c ∷ []) s

-- The hard cut gives the text back when its pieces are joined.
pub concat-hard_split : (s : Text) (target : ℕ) → concat (hard_split s target) ≡ s
unfolding hard_split
concat-hard_split s target = hard_loop_all target (record { done = []; current = [] }) s
