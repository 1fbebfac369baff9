-- ===== src/Chunking/Content.antt =====
-- Chunking loses and moves no character but spaces and newlines.
use nomai.Base.{
  ℕ, ◌≡◌, refl, sym, ap, ◌∙◌, inl, inr, true, List, [], ◌∷◌, ◌++◌, append-nil, append_assoc, leb,
  is_empty, Bool-cases,
}
use nomai.Chunking.{
  split_paragraphs, split_sentences, Chunks, flush, hard_split, add_piece, grown, add_sentence,
  add_sentences, add_paragraph, add_paragraphs, chunk_text,
}
use nomai.Text.{Text, len}
use nomai.Chunking.Pieces.{
  visible, concat, shown, visible-append, visible-concat, shown-flush, visible-split_paragraphs,
  visible-split_sentences, flush_all, concat-hard_split,
}

visible_empty : (s : Text) → is_empty s ≡ true → visible s ≡ []
unfolding visible
visible_empty [] h = refl
visible_empty (c ∷ s) h = cc

visible-flush : (st : Chunks) → visible (concat (flush st).done) ≡ shown st
visible-flush st = ap visible (flush_all st) ∙ visible-append (concat st.done) st.current

shown-flushed :
    (st : Chunks) (piece : Text)
    → visible (concat (flush st).done) ++ visible piece ≡ shown st ++ visible piece
shown-flushed st piece = ap (λ t. t ++ visible piece) (visible-flush st)

shown-add_piece :
    (separator : Text) (st : Chunks) (piece : Text)
    → visible separator ≡ []
    → shown (add_piece separator st piece) ≡ shown st ++ visible piece
unfolding add_piece
shown-add_piece separator st piece h = elim (Bool-cases (is_empty st.current)) [
  | inl q ↦
      rw (q, add_piece)
        (ap (λ t. t ++ visible piece)
          (sym (
            ap (λ t. visible (concat st.done) ++ t) (visible_empty st.current q)
            ∙ append-nil (visible (concat st.done)))))
  | inr q ↦
      rw (q, add_piece)
        (ap (λ t. visible (concat st.done) ++ t)
            (visible-append (st.current ++ separator) piece
              ∙ ap (λ t. t ++ visible piece)
                  (visible-append st.current separator
                    ∙ ap (λ t. visible st.current ++ t) h
                    ∙ append-nil (visible st.current)))
          ∙ sym (append_assoc (visible (concat st.done)) (visible st.current) (visible piece)))
]

visible_blank : (visible (b' ' ∷ []) ≡ []) × (visible (b'\n' ∷ b'\n' ∷ []) ≡ [])
unfolding visible
visible_blank = (refl, refl)

visible_nil : visible [] ≡ []
unfolding visible
visible_nil = refl

shown-add_sentence :
    (target : ℕ) (st : Chunks) (sentence : Text)
    → shown (add_sentence target st sentence) ≡ shown st ++ visible sentence
unfolding add_sentence
shown-add_sentence target st sentence = elim (Bool-cases (leb (grown 1 st sentence) target)) [
  | inl q ↦ rw (q, add_sentence) (shown-add_piece (b' ' ∷ []) st sentence visible_blank.0)
  | inr q ↦ elim (Bool-cases (leb (len sentence) target)) [
    | inl r ↦ rw (q, add_sentence) (rw r (shown-flushed st sentence))
    | inr r ↦
        rw (q, add_sentence)
          (rw r (
            ap (λ t. t ++ visible [])
              (visible-concat (flush st).done (hard_split sentence target)
                ∙ ap (λ t. visible (concat (flush st).done) ++ visible t)
                    (concat-hard_split sentence target)
                ∙ shown-flushed st sentence)
            ∙ ap (λ t. (shown st ++ visible sentence) ++ t) visible_nil
            ∙ append-nil (shown st ++ visible sentence)))
  ]
]

shown-add_sentences :
    (target : ℕ) (st : Chunks) (ss : List Text)
    → shown (add_sentences target st ss) ≡ shown st ++ visible (concat ss)
unfolding add_sentences
shown-add_sentences target st [] = sym (ap (λ t. shown st ++ t) visible_nil ∙ append-nil (shown st))
shown-add_sentences target st (s ∷ ss) =
    shown-add_sentences target (add_sentence target st s) ss
    ∙ ap (λ t. t ++ visible (concat ss)) (shown-add_sentence target st s)
    ∙ append_assoc (shown st) (visible s) (visible (concat ss))
    ∙ ap (λ t. shown st ++ t) (sym (visible-append s (concat ss)))

shown-add_paragraph :
    (target : ℕ) (st : Chunks) (para : Text)
    → shown (add_paragraph target st para) ≡ shown st ++ visible para
unfolding add_paragraph
shown-add_paragraph target st para = elim (Bool-cases (is_empty para)) [
  | inl q ↦
      rw (q, add_paragraph)
        (sym (ap (λ t. shown st ++ t) (visible_empty para q) ∙ append-nil (shown st)))
  | inr q ↦
      rw (q, add_paragraph)
        (elim (Bool-cases (leb (len para) target)) [
          | inl r ↦ rw r (elim (Bool-cases (leb (grown 2 st para) target)) [
            | inl u ↦ rw u (shown-add_piece (b'\n' ∷ b'\n' ∷ []) st para visible_blank.1)
            | inr u ↦ rw u (shown-flushed st para)
          ])
          | inr r ↦ rw r (
              shown-add_sentences target (flush st) (split_sentences para)
              ∙ ap (λ t. t ++ visible (concat (split_sentences para))) (shown-flush st)
              ∙ ap (λ t. shown st ++ t) (visible-split_sentences para))
        ])
]

shown-add_paragraphs :
    (target : ℕ) (st : Chunks) (ps : List Text)
    → shown (add_paragraphs target st ps) ≡ shown st ++ visible (concat ps)
unfolding add_paragraphs
shown-add_paragraphs target st [] =
    sym (ap (λ t. shown st ++ t) visible_nil ∙ append-nil (shown st))
shown-add_paragraphs target st (p ∷ ps) =
    shown-add_paragraphs target (add_paragraph target st p) ps
    ∙ ap (λ t. t ++ visible (concat ps)) (shown-add_paragraph target st p)
    ∙ append_assoc (shown st) (visible p) (visible (concat ps))
    ∙ ap (λ t. shown st ++ t) (sym (visible-append p (concat ps)))

-- The chunks of a text hold its characters, all of them and in their order, but for spaces and
-- newlines.
pub visible-chunk_text :
    (text : Text) (target : ℕ) → visible (concat (chunk_text text target)) ≡ visible text
unfolding chunk_text
visible-chunk_text [] target = refl
visible-chunk_text (c ∷ s) target = elim (Bool-cases (leb (len (c ∷ s)) target)) [
  | inl q ↦ rw (q, chunk_text) (ap visible (append-nil (c ∷ s)))
  | inr q ↦
      rw (q, chunk_text)
        (visible-flush
            (add_paragraphs target (record { done = []; current = [] }) (split_paragraphs (c ∷ s)))
          ∙ shown-add_paragraphs target (record { done = []; current = [] })
              (split_paragraphs (c ∷ s))
          ∙ ap (λ t. (t ++ t) ++ visible (concat (split_paragraphs (c ∷ s)))) visible_nil
          ∙ visible-split_paragraphs (c ∷ s))
]
