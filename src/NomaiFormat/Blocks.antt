-- ===== src/NomaiFormat/Blocks.antt =====
-- The blocks of a document, written and read back.
use nomai.Base.{
  ℕ, ◌+◌, ◌≡◌, refl, sym, ap, ◌∙◌, Option, none, some, List, [], ◌∷◌, ◌++◌, map, All, ok,
}
use nomai.NomaiFormat.BlockHeader.{IsAttr}
use nomai.NomaiFormat.Body.{
  IsBody, join_lines-unlines, drop_blank_end-blank, extend, read_blocks_line, read_blocks-body,
}
use nomai.NomaiFormat.Document.{escape_line, render_attrs, closed, read_body, read_blocks}
use nomai.NomaiFormat.Maps.{Ascends}
use nomai.NomaiFormat.Model.{Externals, Block, as_str}
use nomai.NomaiFormat.OpenBlock.{Connects, open_block-render}
use nomai.NomaiFormat.Parse.{Open, unescape_line, join_lines, close_block}
use nomai.Text.{Text}

-- A block that survives being written and read.
pub record IsBlock {x : Externals} (b : Block x) : Type 0 where
  pub body : IsBody b.text
  pub attrs : All IsAttr b.attrs
  pub ascends : Ascends [] b.attrs
  pub connects : Connects b.type b.attrs

module _ {x : Externals} where
  abbrev pub header_of : Block x → Text
  header_of b = b'@' ∷ (as_str b.type ++ render_attrs b.attrs)

  -- The lines that a block is written in.
  abbrev pub lines_of : (b : Block x) → IsBlock b → List Text
  lines_of b h = [] ∷ header_of b ∷ map escape_line h.body.body_lines

  abbrev pub all_lines : (bs : List (Block x)) → All IsBlock bs → List Text
  all_lines [] h = []
  all_lines (b ∷ bs) h = lines_of b h.0 ++ all_lines bs h.1

  opened : Block x → Open x
  opened b = record { type = b.type; attrs = b.attrs; body = [] }

  -- Closing the block that was opened for `b` and has `b`'s lines gives `b`.
  close_block-opened :
      (b : Block x) (h : IsBlock b) → close_block (extend (opened b) h.body.body_lines) ≡ b
  unfolding close_block opened
  close_block-opened b h =
      ap (λ t. record b { text = t })
        (ap join_lines h.body.no_blank_end
          ∙ join_lines-unlines h.body.body_lines
          ∙ sym h.body.text_is)

  close_block_blank : (o : Open x) → close_block (extend o ([] ∷ [])) ≡ close_block o
  unfolding close_block
  close_block_blank o =
      ap (λ ls. record { type = o.type; text = join_lines ls; attrs = o.attrs })
        (drop_blank_end-blank o.body)

  read_blocks_header :
      (cur : Option (Open x)) (n : ℕ) (b : Block x) (h : IsBlock b) (rest : List Text)
      {bs : List (Block x)}
      → read_blocks (some (opened b)) (n + 1) rest ≡ ok bs
      → read_blocks cur n (header_of b ∷ rest) ≡ ok (closed cur ++ bs)
  unfolding read_blocks opened
  read_blocks_header cur n b h rest e =
      rw (open_block-render n b.type b.attrs h.attrs h.ascends h.connects) (rw e)

  -- Behind the blank line and the header of `b`, its body and the later blocks are read.
  pub read_blocks-cons :
      (cur : Option (Open x)) (n : ℕ) (b : Block x) (h : IsBlock b) (rest : List Text)
      (bs : List (Block x))
      → ((o : Open x) (m : ℕ) → read_blocks (some o) m rest ≡ ok (close_block o ∷ bs))
      → read_blocks cur n (header_of b ∷ (map escape_line h.body.body_lines ++ rest))
        ≡ ok (closed cur ++ b ∷ bs)
  read_blocks-cons cur n b h rest bs later = read_blocks_header cur n b h _ (
      read_blocks-body (opened b) (n + 1) h.body.body_lines rest h.body.each
      ∙ later (extend (opened b) h.body.body_lines) _
      ∙ ap (λ c. ok (c ∷ bs)) (close_block-opened b h))

  read_blocks_blank :
      (o : Open x) (n : ℕ) (rest : List Text)
      → read_blocks (some o) n ([] ∷ rest) ≡ read_blocks (some (extend o ([] ∷ []))) (n + 1) rest
  unfolding unescape_line
  read_blocks_blank o n rest = read_blocks_line o n [] rest refl

  pub read_blocks-some :
      (bs : List (Block x)) (h : All IsBlock bs) (o : Open x) (n : ℕ)
      → read_blocks (some o) n (all_lines bs h) ≡ ok (close_block o ∷ bs)
  read_blocks-some [] h o n = unfold read_blocks in refl
  read_blocks-some (b ∷ bs) h o n =
      read_blocks_blank o n _
      ∙ read_blocks-cons (some (extend o ([] ∷ []))) (n + 1) b h.0 (all_lines bs h.1) bs
          (read_blocks-some bs h.1)
      ∙ ap (λ c. ok (c ∷ b ∷ bs)) (close_block_blank o)

  skip_blank :
      (n : ℕ) (rest : List Text)
      → read_blocks {x = x} none n ([] ∷ rest) ≡ read_blocks none (n + 1) rest
  unfolding read_blocks read_body
  skip_blank n rest = refl

  -- Phase 2 of `parse` gives back the blocks whose lines it reads.
  pub read_blocks-all_lines :
      (bs : List (Block x)) (h : All IsBlock bs) (n : ℕ)
      → read_blocks none n (all_lines bs h) ≡ ok bs
  read_blocks-all_lines [] h n = unfold read_blocks in refl
  read_blocks-all_lines (b ∷ bs) h n =
      skip_blank n _
      ∙ read_blocks-cons none (n + 1) b h.0 (all_lines bs h.1) bs (read_blocks-some bs h.1)
