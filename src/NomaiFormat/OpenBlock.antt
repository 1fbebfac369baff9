-- ===== src/NomaiFormat/OpenBlock.antt =====
-- The header line of a block, read back: `open_block` after `render_block`.
use nomai.Base.{ℕ, ◌≡◌, refl, ap, true, false, some, [], ◌∷◌, ◌++◌, append-nil, All, ok}
use nomai.NomaiFormat.BlockHeader.{IsAttr, parse_block_attrs-render_attrs}
use nomai.NomaiFormat.Document.{render_attrs}
use nomai.NomaiFormat.Maps.{Ascends}
use nomai.NomaiFormat.Model.{
  Externals, JsonMap, BlockType, claim, evidence, question, source, note, connection, image, as_str,
  from_str, contains_key,
}
use nomai.NomaiFormat.Parse.{split_block_header, check_connection, open_block}
use nomai.Text.Trim.{is_solid, is_solid-All, before-append, from-append, before-All, from-All}
use nomai.Text.{Text, codes, is_whitespace, trim_start}

pub as_str_solid : (ty : BlockType) → All (λ c. is_whitespace c ≡ false) (as_str ty)
unfolding as_str is_solid is_whitespace
as_str_solid claim = is_solid-All (as_str claim) refl
as_str_solid evidence = is_solid-All (as_str evidence) refl
as_str_solid question = is_solid-All (as_str question) refl
as_str_solid source = is_solid-All (as_str source) refl
as_str_solid note = is_solid-All (as_str note) refl
as_str_solid connection = is_solid-All (as_str connection) refl
as_str_solid image = is_solid-All (as_str image) refl

from_str-as_str : (ty : BlockType) → from_str (as_str ty) ≡ some ty
unfolding from_str as_str
from_str-as_str claim = refl
from_str-as_str _ = refl

space_is : is_whitespace b' ' ≡ true
unfolding is_whitespace
space_is = refl

pair_path : {A B : Type 0} {a a' : A} {b b' : B} → a ≡ a' → b ≡ b' → ◌≡◌ {A = A × B} (a, b) (a', b')
pair_path p q = λ i. (p i, q i)

split_block_header_space :
    (k r : Text)
    → All (λ c. is_whitespace c ≡ false) k
    → split_block_header (k ++ (b' ' ∷ r)) ≡ (k, trim_start (b' ' ∷ r))
unfolding split_block_header
split_block_header_space k r h =
    pair_path (before-append is_whitespace k b' ' r h space_is)
      (ap trim_start (from-append is_whitespace k b' ' r h space_is))

split_block_header_end :
    (k : Text) → All (λ c. is_whitespace c ≡ false) k → split_block_header k ≡ (k, trim_start [])
unfolding split_block_header
split_block_header_end k h =
    pair_path (before-All is_whitespace k h) (ap trim_start (from-All is_whitespace k h))

module _ {x : Externals} where
  split_block_header-render :
      (ty : BlockType) (m : JsonMap x)
      → split_block_header (as_str ty ++ render_attrs m) ≡ (as_str ty, trim_start (render_attrs m))
  unfolding render_attrs
  split_block_header-render ty [] =
      rw append-nil (split_block_header_end (as_str ty) (as_str_solid ty))
  split_block_header-render ty (e ∷ m) = split_block_header_space (as_str ty) _ (as_str_solid ty)

  -- A connection has a target and a relation.
  abbrev pub Connects : BlockType → JsonMap x → Type 0
  Connects connection m =
      (contains_key (codes "target") m ≡ true) × (contains_key (codes "relation") m ≡ true)
  Connects _ m = Unit

  check_connection-Connects :
      (ty : BlockType) (n : ℕ) (m : JsonMap x) → Connects ty m → check_connection ty n m ≡ ok tt
  unfolding check_connection
  check_connection-Connects connection n m h = rw (h.0, h.1)
  check_connection-Connects _ n m h = refl

  pub open_block-render :
      (n : ℕ) (ty : BlockType) (m : JsonMap x)
      → All IsAttr m
      → Ascends [] m
      → Connects ty m
      → open_block n (as_str ty ++ render_attrs m) ≡ ok (record { type = ty; attrs = m; body = [] })
  unfolding open_block
  open_block-render n ty m h a c =
      rw (split_block_header-render ty m, open_block)
        (rw (from_str-as_str ty)
          (rw (parse_block_attrs-render_attrs n m h a) (rw (check_connection-Connects ty n m c))))
