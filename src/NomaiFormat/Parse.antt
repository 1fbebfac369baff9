-- ===== src/NomaiFormat/Parse.antt =====
-- `parse` of crates/core/src/nomai_format.rs, over the numbered lines of the input.
use nomai.Base.{
  ℕ, ◌+◌, ◌*◌, ◌-◌, ◌^◌, not, ◌&&◌, Option, none, some, List, [], ◌∷◌, ◌++◌, ltb, leb, ◌==◌,
  if◌then◌else◌, is_empty, Result, ok, err, ◌>>=◌, ◌>>◌, ok_or,
}
use nomai.NomaiFormat.Model.{
  Externals, JsonMap, string, insert, contains_key, Block, BlockType, connection, from_str,
  ParseError, unknown_block_type, missing_connection_attr, invalid_value, syntax,
}
use nomai.NomaiFormat.Values.{unescape_value, parse_tags, parse_block_attrs}
use nomai.Text.{Text, codes, is_whitespace, text_eq, trim_start, trim_start_matches, before, from}

-- `s.splitn(2, char::is_whitespace)`, with the spaces in front of the second part dropped
unfoldable pub split_header_kv : Text → Option (Text × Text)
split_header_kv s = elim (from is_whitespace s) [
  | [] ↦ none
  | _ ∷ rest ↦ some (before is_whitespace s, trim_start_matches b' ' rest)
]

unfoldable pub split_block_header : Text → Text × Text
unfolding is_whitespace before from trim_start
split_block_header s = (before is_whitespace s, trim_start (from is_whitespace s))

-- `str::parse::<u32>`: an optional `+`, and digits whose value fits.
unfoldable pub parse_digits : ℕ → Text → Option ℕ
parse_digits n [] = if ltb n (2 ^ 32) then some n else none
parse_digits n (c ∷ s) =
    let rest = parse_digits (n * 10 + (c - b'0')) s in
    if leb b'0' c && leb c b'9' then rest else none

unfoldable pub parse_u32 : Text → Option ℕ
unfolding parse_digits
parse_u32 [] = none
parse_u32 (c ∷ s) =
    if c == b'+' then (if is_empty s then none else parse_digits 0 s) else parse_digits 0 (c ∷ s)

-- The arms of `match key`.
pub data HeaderKey : Type 0 where
  format_version id title created_at updated_at tags source attr : HeaderKey

unfoldable pub header_key : Text → HeaderKey
unfolding text_eq
header_key k =
    if text_eq k (codes "format_version")
    then format_version
    else if text_eq k (codes "id")
    then id
    else if text_eq k (codes "title")
    then title
    else if text_eq k (codes "created_at")
    then created_at
    else if text_eq k (codes "updated_at")
    then updated_at
    else if text_eq k (codes "tags")
    then tags
    else if text_eq k (codes "source")
    then source
    else attr

-- The variables of `parse` that the header fills.
pub record Header (x : Externals) : Type 0 where
  pub format_version : Option ℕ
  pub id : Option x.Ulid
  pub title : Option Text
  pub tags : List Text
  pub attrs : JsonMap x
  pub source : Option Text
  pub created_at : Option x.DateTime
  pub updated_at : Option x.DateTime

abbrev pub no_header : {x : Externals} → Header x
no_header = record {
  format_version = none;
  id = none;
  title = none;
  tags = [];
  attrs = [];
  source = none;
  created_at = none;
  updated_at = none;
}

-- A block whose body is being read.
pub record Open (x : Externals) : Type 0 where
  pub type : BlockType
  pub attrs : JsonMap x
  pub body : List Text

-- `body_lines.pop()` while the last line is empty
unfoldable pub drop_blank_end : List Text → List Text
drop_blank_end [] = []
drop_blank_end (l ∷ ls) =
    let rest = drop_blank_end ls in if is_empty l && is_empty rest then [] else l ∷ rest

-- `body_lines.join("\n")` with a newline behind, or nothing for no line
abbrev pub join_lines : List Text → Text
join_lines [] = []
join_lines (l ∷ []) = l ++ b'\n' ∷ []
join_lines (l ∷ m ∷ ls) = l ++ (b'\n' ∷ join_lines (m ∷ ls))

-- `\@` at the start of a body line stands for `@`.
unfoldable pub unescape_line : Text → Text
unescape_line (a ∷ b ∷ s) = if a == b'\\' && b == b'@' then b ∷ s else a ∷ b ∷ s
unescape_line s = s

module _ {x : Externals} where
  unfoldable pub close_block : Open x → Block x
  close_block o = record {
    type = o.type;
    text = join_lines (drop_blank_end o.body);
    attrs = o.attrs;
  }

  unfoldable pub set_header : HeaderKey → ℕ → Text → Text → Header x → Result ParseError (Header x)
  set_header format_version n key value h = do
    v ← ok_or (parse_u32 value) (invalid_value n (codes "format_version"))
    ok (record h { format_version = some v })
  set_header id n key value h = do
    v ← ok_or (x.parse_ulid value) (invalid_value n (codes "id"))
    ok (record h { id = some v })
  set_header title n key value h = do
    v ← ok_or (unescape_value value) (invalid_value n (codes "title"))
    ok (record h { title = some v })
  set_header created_at n key value h = do
    v ← ok_or (x.parse_date_time value) (invalid_value n (codes "created_at"))
    ok (record h { created_at = some v })
  set_header updated_at n key value h = do
    v ← ok_or (x.parse_date_time value) (invalid_value n (codes "updated_at"))
    ok (record h { updated_at = some v })
  set_header tags n key value h = do
    v ← ok_or (parse_tags value) (invalid_value n (codes "tags"))
    ok (record h { tags = v })
  set_header source n key value h = do
    v ← ok_or (unescape_value value) (invalid_value n (codes "source"))
    ok (record h { source = some v })
  set_header attr n key value h = do
    v ← ok_or (unescape_value value) (invalid_value n (codes "attrs"))
    ok (record h { attrs = insert key (string v) h.attrs })

  -- A header line, behind its `#`.
  unfoldable pub read_header_line : ℕ → Text → Header x → Result ParseError (Header x)
  read_header_line n rest h = do
    (key, value) ← ok_or (split_header_kv rest) (syntax n)
    set_header (header_key key) n key value h

  -- The body of the loop of phase 1; `none` is its `break`.
  unfoldable pub read_header : ℕ → Text → Header x → Result ParseError (Option (Header x))
  read_header n [] h = ok (some h)
  read_header n (c ∷ rest) h =
      if c == b'@'
      then ok none
      else if c == b'#'
      then (do h' ← read_header_line n rest h; ok (some h'))
      else err (syntax n)

  -- A connection names its target and its relation.
  unfoldable pub check_connection : BlockType → ℕ → JsonMap x → Result ParseError (Unit {0})
  unfolding contains_key
  check_connection connection n attrs =
      if not (contains_key (codes "target") attrs)
      then err (missing_connection_attr n (codes "target"))
      else if not (contains_key (codes "relation") attrs)
      then err (missing_connection_attr n (codes "relation"))
      else ok tt
  check_connection _ n attrs = ok tt

  -- The header of a block, behind its `@`.
  unfoldable pub open_block : ℕ → Text → Result ParseError (Open x)
  open_block n rest = do
    type ←
        ok_or (from_str (split_block_header rest).0)
          (unknown_block_type n (split_block_header rest).0)
    attrs ← parse_block_attrs n (split_block_header rest).1
    check_connection type n attrs
    ok (record { type = type; attrs = attrs; body = [] })
