-- ===== src/Chunking.antt =====
-- crates/core/src/chunking.rs: splitting a text into chunks. Lengths are in bytes, as `str::len`
-- gives them.
pub mod Pieces
pub mod Content
pub mod Bounds
mod Tests
use nomai.Base.{
  ℕ, ◌+◌, Bool, true, false, not, ◌&&◌, List, [], ◌∷◌, ◌++◌, leb, ltb, ◌==◌, if◌then◌else◌,
  is_empty,
}
use nomai.Text.{Text, len, len_utf8, push_first}

-- `text.split("\n\n")`
unfoldable pub split_paragraphs : Text → List Text
split_paragraphs [] = [] ∷ []
split_paragraphs (c ∷ []) = (c ∷ []) ∷ []
split_paragraphs (c ∷ d ∷ s) =
    let behind = split_paragraphs s in
    let on = push_first c (split_paragraphs (d ∷ s)) in
    if c == b'\n' && d == b'\n' then [] ∷ behind else on

-- The loop over the bytes of `split_sentences`, which cuts behind each `.` that a space follows and
-- drops the space.
unfoldable pub split_sentences : Text → List Text
split_sentences [] = []
split_sentences (c ∷ []) = (c ∷ []) ∷ []
split_sentences (c ∷ d ∷ s) =
    let behind = split_sentences s in
    let on = push_first c (split_sentences (d ∷ s)) in
    if c == b'.' && d == b' ' then (c ∷ []) ∷ behind else on

-- The chunks that are done, and the one that grows.
pub record Chunks : Type 0 where
  pub done : List Text
  pub current : Text

-- `if !current.is_empty() { chunks.push(take(&mut current)) }`
unfoldable pub flush : Chunks → Chunks
flush st =
    if is_empty st.current then st else record { done = st.done ++ st.current ∷ []; current = [] }

-- One character of the loop of `hard_split`.
unfoldable pub hard_step : ℕ → Chunks → ℕ → Chunks
hard_step target st c =
    let st' =
      if ltb target (len st.current + len_utf8 c) && not (is_empty st.current)
      then flush st
      else st in
    record st' { current = st'.current ++ c ∷ [] }

unfoldable pub hard_loop : ℕ → Chunks → Text → Chunks
hard_loop target st [] = st
hard_loop target st (c ∷ s) = hard_loop target (hard_step target st c) s

unfoldable pub hard_split : Text → ℕ → List Text
hard_split s target = (flush (hard_loop target (record { done = []; current = [] }) s)).done

-- What is added to a chunk that is not empty comes behind a separator.
unfoldable pub add_piece : Text → Chunks → Text → Chunks
add_piece separator st piece = record st {
  current = (if is_empty st.current then [] else st.current ++ separator) ++ piece;
}

-- `if current.is_empty() { 0 } else { n } + piece.len()`, with what is there already
unfoldable pub grown : ℕ → Chunks → Text → ℕ
grown n st piece = len st.current + ((if is_empty st.current then 0 else n) + len piece)

unfoldable pub add_sentence : ℕ → Chunks → Text → Chunks
add_sentence target st sentence =
    if leb (grown 1 st sentence) target
    then add_piece (b' ' ∷ []) st sentence
    else if leb (len sentence) target
    then record { done = (flush st).done; current = sentence }
    else record { done = (flush st).done ++ hard_split sentence target; current = [] }

unfoldable pub add_sentences : ℕ → Chunks → List Text → Chunks
add_sentences target st [] = st
add_sentences target st (s ∷ ss) = add_sentences target (add_sentence target st s) ss

-- One round of the loop over the paragraphs.
unfoldable pub add_paragraph : ℕ → Chunks → Text → Chunks
add_paragraph target st para =
    if is_empty para
    then st
    else if leb (len para) target
    then (if leb (grown 2 st para) target
        then add_piece (b'\n' ∷ b'\n' ∷ []) st para
        else record { done = (flush st).done; current = para })
    else add_sentences target (flush st) (split_sentences para)

unfoldable pub add_paragraphs : ℕ → Chunks → List Text → Chunks
add_paragraphs target st [] = st
add_paragraphs target st (p ∷ ps) = add_paragraphs target (add_paragraph target st p) ps

unfoldable pub chunk_text : Text → ℕ → List Text
chunk_text text target =
    if is_empty text
    then []
    else if leb (len text) target
    then text ∷ []
    else (flush
        (add_paragraphs target (record { done = []; current = [] }) (split_paragraphs text))).done

-- What a run of `chunk_text` unfolds.
unfoldable pub program : Unit {0}
unfolding chunk_text split_paragraphs add_paragraphs add_paragraph grown add_piece flush
    split_sentences add_sentences add_sentence hard_split hard_loop hard_step len len_utf8
program = tt
