-- ===== src/NomaiFormat/Values.antt =====
-- Values, tags and attributes of a line: `escape_header_value`, `unescape_value`, `render_tags`,
-- `parse_tags`, `split_attr_tokens`, `parse_block_attrs` of crates/core/src/nomai_format.rs.
use nomai.Base.{
  ℕ, Bool, true, false, not, ◌||◌, Option, none, some, List, [], ◌∷◌, ◌++◌, map, ltb, ◌==◌,
  if◌then◌else◌, is_empty, Result, ok, ◌>>=◌, ok_or,
}
use nomai.NomaiFormat.Model.{
  Externals, Value, string, other, JsonMap, insert, ParseError, invalid_value, syntax,
}
use nomai.Text.{
  Text, codes, is_whitespace, len, contains, starts_with, ends_with, trim, before, from,
}

-- `s.replace('"', "\\\"")`
unfoldable pub escape_quotes : Text → Text
escape_quotes [] = []
escape_quotes (c ∷ s) = if c == b'"' then b'\\' ∷ b'"' ∷ escape_quotes s else c ∷ escape_quotes s

abbrev pub quoted : Text → Text
quoted s = b'"' ∷ (escape_quotes s ++ b'"' ∷ [])

unfoldable pub needs_quote : Text → Bool
unfolding contains
needs_quote s = is_empty s || contains b' ' s || contains b'"' s || contains b',' s

unfoldable pub escape_header_value : Text → Text
unfolding needs_quote
escape_header_value s = if not (needs_quote s) then s else quoted s

-- The loop of `unescape_value` over the text between the quotes. The flag is set when the last
-- character read is a `\` that waits for the next one.
unfoldable pub unescape_from : Bool → Text → Text
unescape_from false [] = []
unescape_from true [] = b'\\' ∷ []
unescape_from false (c ∷ s) = elim (c == b'\\') [
  | true ↦ unescape_from true s
  | false ↦ c ∷ unescape_from false s
]
unescape_from true (c ∷ s) =
    let rest = unescape_from false s in if c == b'"' then b'"' ∷ rest else b'\\' ∷ c ∷ rest

-- `&s[1..s.len() - 1]`, of a text that begins and ends with a quote
abbrev pub without_last : Text → Text
without_last [] = []
without_last (c ∷ []) = []
without_last (c ∷ d ∷ s) = c ∷ without_last (d ∷ s)

abbrev pub inner : Text → Text
inner [] = []
inner (c ∷ s) = without_last s

-- The error is the message of an unterminated quote, which is left out.
unfoldable pub unescape_value : Text → Option Text
unfolding trim len unescape_from
unescape_value s =
    let t = trim s in
    if not (starts_with b'"' t)
    then some t
    else if not (ends_with b'"' t) || ltb (len t) 2
    then none
    else some (unescape_from false (inner t))

module _ {x : Externals} where
  unfoldable pub render_attr_value : Value x → Text
  unfolding escape_header_value
  render_attr_value (string s) = escape_header_value s
  render_attr_value (other v) = escape_header_value (x.other_to_string v)

unfoldable pub render_tag : Text → Text
unfolding contains escape_quotes
render_tag t = if contains b',' t || contains b'"' t then quoted t else t

-- `parts.join(",")`
abbrev pub join_tags : List Text → Text
join_tags [] = []
join_tags (t ∷ []) = t
join_tags (t ∷ u ∷ ts) = t ++ (b',' ∷ join_tags (u ∷ ts))

unfoldable pub render_tags : List Text → Text
unfolding render_tag
render_tags tags = join_tags (map render_tag tags)

-- A scanner is outside quotes, inside, or inside behind a `\`.
pub data Mode : Type 0 where
  bare in_quote escaped : Mode

pub record TagState : Type 0 where
  pub tags : List Text
  pub current : Text
  pub mode : Mode

abbrev pub push : TagState → ℕ → Mode → TagState
push s c m = record s { current = s.current ++ c ∷ []; mode = m }

-- One character of the loop of `parse_tags`.
unfoldable pub tag_step : Mode → TagState → ℕ → TagState
unfolding trim
tag_step in_quote s c =
    if c == b'"'
    then record s { mode = bare }
    else if c == b'\\'
    then record s { mode = escaped }
    else push s c in_quote
tag_step escaped s c = push s c in_quote
tag_step bare s c =
    if c == b'"'
    then record s { current = if is_empty (trim s.current) then [] else s.current; mode = in_quote }
    else if c == b','
    then record s { tags = s.tags ++ s.current ∷ []; current = [] }
    else push s c bare

unfoldable pub tag_loop : TagState → Text → TagState
unfolding tag_step
tag_loop s [] = s
tag_loop s (c ∷ cs) = tag_loop (tag_step s.mode s c) cs

-- An unterminated quote is an error.
unfoldable pub finish_tags : Mode → TagState → Option (List Text)
finish_tags bare s = some (s.tags ++ s.current ∷ [])
finish_tags in_quote s = none
finish_tags escaped s = none

unfoldable pub parse_tags : Text → Option (List Text)
unfolding trim tag_loop finish_tags
parse_tags s =
    let t = trim s in
    let last = tag_loop (record { tags = []; current = []; mode = bare }) t in
    if is_empty t then some [] else finish_tags last.mode last

pub record TokenState : Type 0 where
  pub tokens : List Text
  pub current : Text
  pub mode : Mode

-- `if !current.is_empty() { tokens.push(take(&mut current)) }`
abbrev pub flush : TokenState → TokenState
flush s =
    if is_empty s.current then s else record s { tokens = s.tokens ++ s.current ∷ []; current = [] }

-- One character of the loop of `split_attr_tokens`.
unfoldable pub token_step : Mode → TokenState → ℕ → TokenState
unfolding is_whitespace
token_step in_quote s c = record s {
  current = s.current ++ c ∷ [];
  mode = if c == b'\\' then escaped else if c == b'"' then bare else in_quote;
}
token_step escaped s c = record s { current = s.current ++ c ∷ []; mode = in_quote }
token_step bare s c =
    if c == b'"'
    then record s { current = s.current ++ c ∷ []; mode = in_quote }
    else if is_whitespace c
    then flush s
    else record s { current = s.current ++ c ∷ [] }

unfoldable pub token_loop : TokenState → Text → TokenState
unfolding token_step
token_loop s [] = s
token_loop s (c ∷ cs) = token_loop (token_step s.mode s c) cs

unfoldable pub split_attr_tokens : Text → List Text
unfolding token_loop
split_attr_tokens s =
    (flush (token_loop (record { tokens = []; current = []; mode = bare }) s)).tokens

-- `pair.find('=')`, and the parts on its two sides
unfoldable pub split_pair : Text → Option (Text × Text)
unfolding contains before from
split_pair p = elim (from (λ c. c == b'=') p) [
  | [] ↦ none
  | _ ∷ value ↦ some (before (λ c. c == b'=') p, value)
]

module _ {x : Externals} where
  -- The loop of `parse_block_attrs`.
  unfoldable pub attr_loop : ℕ → JsonMap x → List Text → Result ParseError (JsonMap x)
  unfolding split_pair unescape_value insert
  attr_loop n out [] = ok out
  attr_loop n out (pair ∷ pairs) = do
    (key, value) ← ok_or (split_pair pair) (syntax n)
    val ← ok_or (unescape_value value) (invalid_value n (codes "block_attr"))
    attr_loop n (insert key (string val) out) pairs

  unfoldable pub parse_block_attrs : ℕ → Text → Result ParseError (JsonMap x)
  unfolding trim split_attr_tokens attr_loop
  parse_block_attrs n s =
      let t = trim s in if is_empty t then ok [] else attr_loop n [] (split_attr_tokens t)
