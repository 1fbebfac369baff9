-- ===== src/NomaiFormat/Document.antt =====
-- The two loops of `parse` and its end, and `render`: crates/core/src/nomai_format.rs.
use nomai.Base.{
  ℕ, zero, suc, ◌+◌, ◌/◌, ◌%◌, true, false, Option, none, some, List, [], ◌∷◌, ◌++◌, ltb, ◌==◌,
  if◌then◌else◌, is_empty, Result, ok, err, ◌>>=◌, ◌>>◌, ok_or,
}
use nomai.NomaiFormat.Model.{
  Externals, JsonMap, Block, NomaiDoc, as_str, from_str, insert, ParseError, missing_header,
  unsupported_version, syntax, empty_input,
}
use nomai.NomaiFormat.Parse.{
  Header, no_header, Open, parse_u32, split_header_kv, header_key, set_header, read_header_line,
  read_header, split_block_header, check_connection, open_block, drop_blank_end, unescape_line,
  close_block,
}
use nomai.NomaiFormat.Values.{
  escape_header_value, render_attr_value, render_tags, unescape_value, parse_tags,
  parse_block_attrs,
}
use nomai.Text.{
  Text, codes, is_whitespace, before, from, trim_start_matches, starts_with, lines, split_inclusive,
  strip_suffix,
}

-- `&raw[1..]`
abbrev pub behind_first : Text → Text
behind_first [] = []
behind_first (c ∷ s) = s

abbrev pub check_version : ℕ → Result ParseError (Unit {0})
check_version v = if v == 1 then ok tt else err (unsupported_version 0 v)

module _ {x : Externals} where
  -- Phase 1, from line `n` on: the header, and the lines from the first `@` on with their number.
  unfoldable pub read_headers :
      ℕ → List Text → Header x → Result ParseError (Header x × ℕ × List Text)
  read_headers n [] h = ok (h, n, [])
  read_headers n (l ∷ ls) h = do
    r ← read_header n l h
    elim r [ none ↦ ok (h, n, l ∷ ls) | some h' ↦ read_headers (n + 1) ls h' ]

  abbrev pub closed : Option (Open x) → List (Block x)
  closed none = []
  closed (some o) = close_block o ∷ []

  -- A line that begins no block: it belongs to the open block's body, or must be blank.
  unfoldable pub read_body : Option (Open x) → ℕ → Text → Result ParseError (Option (Open x))
  read_body none n l = if is_empty l then ok none else err (syntax n)
  read_body (some o) n l = ok (some (record o { body = o.body ++ unescape_line l ∷ [] }))

  -- Phase 2. The inner loop over a body ends at the next `@`, where the outer one goes on with
  -- that line: here both are one recursion, with the block whose body is being read.
  unfoldable pub read_blocks : Option (Open x) → ℕ → List Text → Result ParseError (List (Block x))
  read_blocks cur n [] = ok (closed cur)
  read_blocks cur n (l ∷ ls) = elim (starts_with b'@' l) [
    | true ↦ do
      o ← open_block n (behind_first l)
      blocks ← read_blocks (some o) (n + 1) ls
      ok (closed cur ++ blocks)
    | false ↦ do next ← read_body cur n l; read_blocks next (n + 1) ls
  ]

  -- The checks between the phases.
  unfoldable pub check_header : Header x → Result ParseError (NomaiDoc x)
  check_header h = do
    format_version ← ok_or h.format_version (missing_header 0 (codes "format_version"))
    check_version format_version
    id ← ok_or h.id (missing_header 0 (codes "id"))
    title ← ok_or h.title (missing_header 0 (codes "title"))
    created_at ← ok_or h.created_at (missing_header 0 (codes "created_at"))
    updated_at ← ok_or h.updated_at (missing_header 0 (codes "updated_at"))
    ok (record {
      format_version = format_version;
      id = id;
      title = title;
      tags = h.tags;
      attrs = h.attrs;
      source = h.source;
      created_at = created_at;
      updated_at = updated_at;
      blocks = [];
    })

  unfoldable pub parse_lines : List Text → Result ParseError (NomaiDoc x)
  parse_lines ls = do
    (h, n, rest) ← read_headers 1 ls no_header
    doc ← check_header h
    blocks ← read_blocks none n rest
    ok (record doc { blocks = blocks })

  unfoldable pub parse : Text → Result ParseError (NomaiDoc x)
  parse [] = err empty_input
  parse (c ∷ s) = parse_lines (lines (c ∷ s))

-- `Display` of a `u32`: at most ten digits.
unfoldable pub decimal : ℕ → ℕ → Text
decimal zero n = []
decimal (suc fuel) n =
    let front = decimal fuel (n / 10) in
    if ltb n 10 then (b'0' + n) ∷ [] else front ++ (b'0' + n % 10) ∷ []

-- `#key value` with its newline
abbrev pub header_line : Text → Text → Text
header_line key value = b'#' ∷ (key ++ (b' ' ∷ (value ++ b'\n' ∷ [])))

abbrev pub escape_line : Text → Text
escape_line l = if starts_with b'@' l then b'\\' ∷ l else l

unfoldable pub render_line : Text → Text
unfolding strip_suffix
render_line line =
    let l : Text = elim (strip_suffix b'\n' line) [ none ↦ line | some l ↦ l ] in
    escape_line l ++ b'\n' ∷ []

module _ {A : Type 0} where
  -- One `push_str` for each item of a list.
  abbrev pub concat_map : (A → Text) → List A → Text
  concat_map f [] = []
  concat_map f (a ∷ rest) = f a ++ concat_map f rest

unfoldable pub render_block_body : Text → Text
unfolding split_inclusive render_line
render_block_body text = concat_map render_line (split_inclusive text)

abbrev pub render_source : Option Text → Text
render_source none = []
render_source (some s) = header_line (codes "source") (escape_header_value s)

module _ {x : Externals} where
  -- ` key=value` for each attribute of a block
  unfoldable pub render_attrs : JsonMap x → Text
  unfolding render_attr_value
  render_attrs = concat_map (λ e. b' ' ∷ (e.0 ++ (b'=' ∷ render_attr_value e.1)))

  unfoldable pub render_block : Block x → Text
  render_block b =
      b'\n' ∷ b'@' ∷ (as_str b.type ++ (render_attrs b.attrs ++ (b'\n' ∷ render_block_body b.text)))

  unfoldable pub render : NomaiDoc x → Text
  render doc =
      header_line (codes "format_version") (decimal 10 doc.format_version)
      ++ (header_line (codes "id") (x.ulid_to_string doc.id)
          ++ (header_line (codes "title") (escape_header_value doc.title)
              ++ ((if is_empty doc.tags
                    then []
                    else header_line (codes "tags") (render_tags doc.tags))
                  ++ (concat_map (λ e. header_line e.0 (render_attr_value e.1)) doc.attrs
                      ++ (render_source doc.source
                          ++ (header_line (codes "created_at") (x.to_rfc3339 doc.created_at)
                              ++ (header_line (codes "updated_at") (x.to_rfc3339 doc.updated_at)
                                  ++ concat_map render_block doc.blocks)))))))

-- What a run of `parse` or `render` unfolds.
unfoldable pub program : Unit {0}
unfolding parse parse_lines lines read_headers check_header read_blocks read_body read_header
    read_header_line split_header_kv header_key set_header parse_u32 unescape_value parse_tags
    insert open_block split_block_header from_str parse_block_attrs check_connection close_block
    drop_blank_end unescape_line render render_block as_str render_attrs render_block_body decimal
    escape_header_value render_tags render_attr_value is_whitespace before from trim_start_matches
program = tt
