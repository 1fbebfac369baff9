-- ===== src/NomaiFormat/Body.antt =====
-- The bodies of blocks, written and read back.
use native.Mathlib.Nat.{add-zero}
use nomai.Base.{
  ℕ, ◌+◌, ◌≡◌, refl, ap, ◌∙◌, false, some, List, [], ◌∷◌, ◌++◌, map, append-nil, append_assoc,
  arith, All, length,
}
use nomai.NomaiFormat.Document.{
  escape_line, render_line, render_block_body, concat_map, read_body, read_blocks,
}
use nomai.NomaiFormat.Model.{Externals}
use nomai.NomaiFormat.Parse.{Open, unescape_line, drop_blank_end, join_lines}
use nomai.Text.Lines.{IsLine, strip_suffix-concat, split_inclusive-unlines}
use nomai.Text.{Text, starts_with, unlines, contains}

-- A line of a body that survives: no line break in it, and no `\@` at its start.
pub record IsBodyLine (l : Text) : Type 0 where
  pub line : IsLine l
  pub no_escape : unescape_line l ≡ l

-- A body that survives: such lines, each with its end, and the last one is not blank.
pub record IsBody (text : Text) : Type 0 where
  pub body_lines : List Text
  pub text_is : text ≡ unlines body_lines
  pub each : All IsBodyLine body_lines
  pub no_blank_end : drop_blank_end body_lines ≡ body_lines

pub join_lines-unlines : (ls : List Text) → join_lines ls ≡ unlines ls
join_lines-unlines [] = refl
join_lines-unlines (l ∷ []) = refl
join_lines-unlines (l ∷ m ∷ ls) = ap (λ t. l ++ (b'\n' ∷ t)) (join_lines-unlines (m ∷ ls))

unescape-escape_line : (l : Text) → unescape_line l ≡ l → unescape_line (escape_line l) ≡ l
unfolding unescape_line
unescape-escape_line [] h = refl
unescape-escape_line (c ∷ l) h = ground arith

escape_line_no_at : (l : Text) → starts_with b'@' (escape_line l) ≡ false
escape_line_no_at [] = refl
escape_line_no_at (c ∷ l) = ground arith

pub escape_line-IsLine : (l : Text) → IsLine l → IsLine (escape_line l)
unfolding contains
escape_line-IsLine [] h = h
escape_line-IsLine (c ∷ l) h = record {
  no_newline = ground (arith, h.no_newline);
  no_return = ground (arith, h.no_return);
}

render_line_lem : (l : Text) → render_line (l ++ b'\n' ∷ []) ≡ escape_line l ++ b'\n' ∷ []
unfolding render_line
render_line_lem l = ground (arith, strip_suffix-concat b'\n' l)

concat_map-render_line :
    (ls : List Text)
    → concat_map render_line (map (λ l. l ++ b'\n' ∷ []) ls) ≡ unlines (map escape_line ls)
concat_map-render_line [] = refl
concat_map-render_line (l ∷ ls) =
    rw (render_line_lem l, concat_map-render_line ls) (append_assoc (escape_line l) (b'\n' ∷ []) _)

pub render_block_body-unlines :
    (ls : List Text) → All IsLine ls → render_block_body (unlines ls) ≡ unlines (map escape_line ls)
unfolding render_block_body
render_block_body-unlines ls h =
    ap (concat_map render_line) (split_inclusive-unlines ls h) ∙ concat_map-render_line ls

-- A blank line at the end of a body is dropped.
pub drop_blank_end-blank : (ls : List Text) → drop_blank_end (ls ++ [] ∷ []) ≡ drop_blank_end ls
unfolding drop_blank_end
drop_blank_end-blank [] = refl
drop_blank_end-blank (l ∷ ls) = rw (drop_blank_end-blank ls)

module _ {x : Externals} where
  abbrev pub extend : Open x → List Text → Open x
  extend o ls = record o { body = o.body ++ ls }

  pub read_blocks_line :
      (o : Open x) (n : ℕ) (l : Text) (rest : List Text)
      → starts_with b'@' l ≡ false
      → read_blocks (some o) n (l ∷ rest)
        ≡ read_blocks (some (extend o (unescape_line l ∷ []))) (n + 1) rest
  unfolding read_blocks read_body
  read_blocks_line o n l rest h = rw (h, read_blocks)

  -- The lines of a body go to the open block.
  pub read_blocks-body :
      (o : Open x) (n : ℕ) (ls rest : List Text)
      → All IsBodyLine ls
      → read_blocks (some o) n (map escape_line ls ++ rest)
        ≡ read_blocks (some (extend o ls)) (n + length ls) rest
  read_blocks-body o n [] rest h = rw (append-nil, add-zero)
  read_blocks-body o n (l ∷ ls) rest h =
      read_blocks_line o n (escape_line l) _ (escape_line_no_at l)
      ∙ rw (unescape-escape_line l (h.0).no_escape) (
          read_blocks-body (extend o (l ∷ [])) (n + 1) ls rest h.1
          ∙ rw append_assoc (ap (λ k. read_blocks (some (extend o (l ∷ ls))) k rest) (omega arith)))
