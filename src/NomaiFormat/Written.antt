-- ===== src/NomaiFormat/Written.antt =====
-- The lines of a rendered block are lines that `str::lines` gives back.
use nomai.Base.{
  ◌≡◌, refl, sym, ap, ◌∙◌, true, false, inl, inr, List, [], ◌∷◌, ◌++◌, map, append-nil,
  append_assoc, arith, ◌==◌, All, Bool-cases,
}
use nomai.NomaiFormat.Attributes.{key_solid}
use nomai.NomaiFormat.BlockHeader.{IsAttr, token, token_ne, is_empty-left, trim_end-attrs}
use nomai.NomaiFormat.Blocks.{IsBlock, lines_of}
use nomai.NomaiFormat.Body.{IsBodyLine, escape_line-IsLine, render_block_body-unlines}
use nomai.NomaiFormat.Document.{escape_line, render_attrs, render_block, render_block_body}
use nomai.NomaiFormat.HeaderLine.{contains-escape_quotes, return_is}
use nomai.NomaiFormat.Model.{Externals, Value, string, other, JsonMap, BlockType, Block, as_str}
use nomai.NomaiFormat.OpenBlock.{as_str_solid}
use nomai.NomaiFormat.Values.{
  needs_quote, escape_quotes, quoted, escape_header_value, render_attr_value,
}
use nomai.Text.Lines.{IsLine}
use nomai.Text.Order.{contains-append}
use nomai.Text.Trim.{trim_end-append, trim_end_solid}
use nomai.Text.Trimmed.{ends_with_of_trim_end}
use nomai.Text.{Text, is_whitespace, contains, ends_with, unlines}

newline_is : is_whitespace b'\n' ≡ true
unfolding is_whitespace
newline_is = refl

at_solid : is_whitespace b'@' ≡ false
unfolding is_whitespace
at_solid = refl

pub contains_solid : (s : Text) → All (λ c. is_whitespace c ≡ false) s → contains b'\n' s ≡ false
unfolding contains
contains_solid [] h = refl
contains_solid (c ∷ s) h = elim (Bool-cases (c == b'\n')) [
  | inl q ↦
      let e : c ≡ b'\n' = ground arith in
      let clash : true ≡ false = sym newline_is ∙ rw e at h.0 in cc
  | inr q ↦ rw q (contains_solid s h.1)
]

escape_header_value_newline :
    (s : Text) → contains b'\n' s ≡ false → contains b'\n' (escape_header_value s) ≡ false
unfolding escape_header_value
escape_header_value_newline s h = elim (Bool-cases (needs_quote s)) [
  | inl q ↦ rw q (quoted_newline s h)
  | inr q ↦ rw q h
]
  where
    quoted_newline : (t : Text) → contains b'\n' t ≡ false → contains b'\n' (quoted t) ≡ false
    quoted_newline t k =
        unfold contains in
        (contains-append b'\n' (escape_quotes t) (b'"' ∷ []) ∙ rw (contains-escape_quotes t k))

body-IsLine : (ls : List Text) → All IsBodyLine ls → All IsLine (map escape_line ls)
body-IsLine [] h = tt
body-IsLine (l ∷ ls) h = (escape_line-IsLine l (h.0).line, body-IsLine ls h.1)

plain : (ls : List Text) → All IsBodyLine ls → All IsLine ls
plain [] h = tt
plain (l ∷ ls) h = ((h.0).line, plain ls h.1)

module _ {x : Externals} where
  token_newline : (e : Text × Value x) → IsAttr e → contains b'\n' (token e) ≡ false
  unfolding render_attr_value contains
  token_newline (k, string s) h =
      contains-append b'\n' k (b'=' ∷ escape_header_value s)
      ∙ rw (contains_solid k (key_solid k h.0), escape_header_value_newline s h.1.no_newline)
  token_newline (k, other o) h = absurd h

  render_attrs_newline : (m : JsonMap x) → All IsAttr m → contains b'\n' (render_attrs m) ≡ false
  unfolding render_attrs contains
  render_attrs_newline [] h = refl
  render_attrs_newline (e ∷ m) h =
      contains-append b'\n' (token e) (render_attrs m)
      ∙ rw (token_newline e h.0, render_attrs_newline m h.1)

  header_newline :
      (ty : BlockType) (m : JsonMap x)
      → All IsAttr m
      → contains b'\n' (b'@' ∷ (as_str ty ++ render_attrs m)) ≡ false
  unfolding contains
  header_newline ty m h =
      contains-append b'\n' (as_str ty) (render_attrs m)
      ∙ rw (contains_solid (as_str ty) (as_str_solid ty), render_attrs_newline m h)

  header_return :
      (ty : BlockType) (m : JsonMap x)
      → All IsAttr m
      → ends_with b'\r' (b'@' ∷ (as_str ty ++ render_attrs m)) ≡ false
  unfolding render_attrs
  header_return ty [] h = rw append-nil (
      ends_with_of_trim_end b'\r' (b'@' ∷ as_str ty) return_is
        (trim_end_solid (b'@' ∷ as_str ty) (at_solid, as_str_solid ty)))
  header_return ty (e ∷ m) h =
      let front = b'@' ∷ (as_str ty ++ b' ' ∷ []) in
      let back = token e ++ render_attrs m in
      ap (λ t. ends_with b'\r' (b'@' ∷ t)) (sym (append_assoc (as_str ty) (b' ' ∷ []) back))
      ∙ ends_with_of_trim_end b'\r' (front ++ back) return_is (
          trim_end-append front back (is_empty-left (token e) (render_attrs m) (token_ne e))
            (trim_end-attrs e m h))

  pub lines_of-IsLine : (b : Block x) (h : IsBlock b) → All IsLine (lines_of b h)
  unfolding contains
  lines_of-IsLine b h = (
    record { no_newline = refl; no_return = refl },
    (
      record {
        no_newline = header_newline b.type b.attrs h.attrs;
        no_return = header_return b.type b.attrs h.attrs;
      },
      body-IsLine h.body.body_lines h.body.each,
    ),
  )

  pub render_block-unlines : (b : Block x) (h : IsBlock b) → render_block b ≡ unlines (lines_of b h)
  unfolding render_block
  render_block-unlines b h =
      let ls = h.body.body_lines in
      let body =
        ap render_block_body h.body.text_is ∙ render_block_body-unlines ls (plain ls h.body.each) in
      ap (λ t. b'\n' ∷ b'@' ∷ (as_str b.type ++ (render_attrs b.attrs ++ (b'\n' ∷ t)))) body
      ∙ ap (λ t. b'\n' ∷ b'@' ∷ t) (sym (append_assoc (as_str b.type) (render_attrs b.attrs) _))
