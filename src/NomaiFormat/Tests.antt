-- ===== src/NomaiFormat/Tests.antt =====
-- Runs of the parser and the renderer on small documents.
use nomai.Base.{
  ℕ, ◌==◌, not, ◌&&◌, ◌||◌, arith, ◌≡◌, ◌≢◌, ◌↔◌, refl, Bool, true, false, Option, none, some, [],
  ◌∷◌, if◌then◌else◌, All, ok,
}
use nomai.NomaiFormat.Attributes.{IsKeyChar, IsAttrValue, is_closed}
use nomai.NomaiFormat.Blocks.{IsBlock}
use nomai.NomaiFormat.Document.{parse, render, program}
use nomai.NomaiFormat.Documents.{IsHeaderValue, IsTagList, IsDoc}
use nomai.NomaiFormat.Escaping.{is_escapable, IsValue, unescape-escape_iff}
use nomai.NomaiFormat.Model.{
  Externals, Laws, HasNoSpace, string, contains_key, NomaiDoc, claim, connection,
}
use nomai.NomaiFormat.RoundTrip.{parse-render}
use nomai.NomaiFormat.TagList.{parse-render_tags}
use nomai.NomaiFormat.Values.{
  needs_quote, escape_header_value, unescape_value, render_tags, parse_tags,
}
use nomai.Text.Trim.{is_solid, is_solid-All}
use nomai.Text.{Text, codes, text_eq, contains, trim, is_whitespace}

-- Two ids and two times are enough.
abbrev print_id : Bool → Text
print_id true = codes "01ARZ3NDEKTSV4RRFFQ69G5FAV"
print_id false = codes "01ARZ3NDEKTSV4RRFFQ69G5FAX"

read_id : Text → Option Bool
unfolding text_eq
read_id s =
    if text_eq s (print_id true)
    then some true
    else if text_eq s (print_id false)
    then some false
    else none

abbrev print_time : Bool → Text
print_time true = codes "2026-01-01T00:00:00+00:00"
print_time false = codes "2025-12-31T00:00:00+00:00"

read_time : Text → Option Bool
unfolding text_eq
read_time s =
    if text_eq s (print_time true)
    then some true
    else if text_eq s (print_time false)
    then some false
    else none

abbrev bools : Externals
bools = record {
  Ulid = Bool;
  DateTime = Bool;
  Other = Bool;
  parse_ulid = read_id;
  ulid_to_string = print_id;
  parse_date_time = read_time;
  to_rfc3339 = print_time;
  other_to_string = λ b. if b then codes "true" else codes "false";
}

abbrev doc : NomaiDoc bools
doc = record {
  format_version = 1;
  id = true;
  title = codes "Say \"hi\", twice";
  tags = codes "a" ∷ codes "b,c" ∷ [];
  attrs = (codes "lang", string (codes "en")) ∷ (codes "mood", string (codes "so so")) ∷ [];
  source = some (codes "paper.pdf");
  created_at = true;
  updated_at = false;
  blocks =
      record { type = claim; text = codes "one\n\n@two\n"; attrs = [] }
      ∷ record {
        type = connection;
        text = [];
        attrs =
            (codes "relation", string (codes "supports it"))
            ∷ (codes "target", string (codes "x=y"))
            ∷ [];
      }
      ∷ [];
}

abbrev text : Text
text =
    codes
      "#format_version 1\n#id 01ARZ3NDEKTSV4RRFFQ69G5FAV\n#title \"Say \\\"hi\\\", twice\"\n#tags a,\"b,c\"\n#lang en\n#mood \"so so\"\n#source paper.pdf\n#created_at 2026-01-01T00:00:00+00:00\n#updated_at 2025-12-31T00:00:00+00:00\n\n@claim\none\n\n\\@two\n\n@connection relation=\"supports it\" target=x=y\n"

render-doc : render doc ≡ text
unfolding program
render-doc = refl

parse-text : parse {x = bools} text ≡ ok doc
unfolding program read_id read_time
parse-text = refl

cons_ne : {c : ℕ} {s : Text} → c ∷ s ≢ []
cons_ne e = cc

id_read : (u : Bool) → read_id (print_id u) ≡ some u
unfolding read_id text_eq
id_read true = refl
id_read false = refl

id_solid : (u : Bool) → HasNoSpace (print_id u)
unfolding is_solid is_whitespace
id_solid true = is_solid-All (print_id true) refl
id_solid false = is_solid-All (print_id false) refl

time_read : (u : Bool) → read_time (print_time u) ≡ some u
unfolding read_time text_eq
time_read true = refl
time_read false = refl

time_solid : (u : Bool) → HasNoSpace (print_time u)
unfolding is_solid is_whitespace
time_solid true = is_solid-All (print_time true) refl
time_solid false = is_solid-All (print_time false) refl

bools-Laws : Laws bools
bools-Laws = record {
  parse-print_ulid = id_read;
  ulid_no_space = id_solid;
  parse-print_date_time = time_read;
  date_time_no_space = time_solid;
}

quoted-IsValue : (s : Text) → needs_quote s ≡ true → is_escapable false s ≡ true → IsValue s
quoted-IsValue s q e = record { when_quoted = λ h. e; when_bare = λ h. cc }

bare-IsValue : (s : Text) → needs_quote s ≡ false → trim s ≡ s → IsValue s
bare-IsValue s q e = record { when_quoted = λ h. cc; when_bare = λ h. e }

title_value : IsHeaderValue doc.title
unfolding needs_quote is_escapable contains
title_value = record { value = quoted-IsValue doc.title refl refl; no_newline = refl }

mood_value : IsHeaderValue (codes "so so")
unfolding needs_quote is_escapable contains
mood_value = record { value = quoted-IsValue (codes "so so") refl refl; no_newline = refl }

lang_value : IsHeaderValue (codes "en")
unfolding needs_quote contains is_whitespace trim
lang_value = record { value = bare-IsValue (codes "en") refl refl; no_newline = refl }

source_value : IsHeaderValue (codes "paper.pdf")
unfolding needs_quote contains is_whitespace trim
source_value = record { value = bare-IsValue (codes "paper.pdf") refl refl; no_newline = refl }

tags_list : IsTagList doc.tags
unfolding program
tags_list = record {
  each = (λ h. refl, (λ h. refl, tt));
  trimmed = refl;
  visible = λ h e. absurd (cons_ne e);
  no_newline = refl;
}

relation_value : IsAttrValue (codes "supports it")
unfolding needs_quote is_closed contains
relation_value = record { no_newline = refl; when_quoted = λ h. refl; when_bare = λ h. cc }

target_value : IsAttrValue (codes "x=y")
unfolding needs_quote is_solid contains is_whitespace
target_value = record {
  no_newline = refl;
  when_quoted = λ h. cc;
  when_bare = λ h. is_solid-All (codes "x=y") refl;
}

is_key : Text → Bool
is_key [] = true
is_key (c ∷ k) = not (is_whitespace c || c == b'=' || c == b'"') && is_key k

is_key-All : (k : Text) → is_key k ≡ true → All IsKeyChar k
unfolding is_key
is_key-All [] h = tt
is_key-All (c ∷ k) h = (
  record { solid = ground arith; no_equals = ground arith; no_quote = ground arith },
  is_key-All k (ground arith),
)

blocks_written : All IsBlock doc.blocks
unfolding program is_key contains_key
blocks_written = (
  record {
    body = record {
      body_lines = codes "one" ∷ [] ∷ codes "@two" ∷ [];
      text_is = refl;
      each = (
        record { line = record { no_newline = refl; no_return = refl }; no_escape = refl },
        (
          record { line = record { no_newline = refl; no_return = refl }; no_escape = refl },
          (record { line = record { no_newline = refl; no_return = refl }; no_escape = refl }, tt),
        ),
      );
      no_blank_end = refl;
    };
    attrs = tt;
    ascends = tt;
    connects = tt;
  },
  (
    record {
      body = record { body_lines = []; text_is = refl; each = tt; no_blank_end = refl };
      attrs = (
        (is_key-All (codes "relation") refl, relation_value),
        ((is_key-All (codes "target") refl, target_value), tt),
      );
      ascends = (tt, ((refl, tt), tt));
      connects = (refl, refl);
    },
    tt,
  ),
)

doc-IsDoc : IsDoc doc
unfolding program is_solid
doc-IsDoc = record {
  version = refl;
  title = title_value;
  tags = tags_list;
  attrs = (
    (is_solid-All (codes "lang") refl, refl, lang_value),
    ((is_solid-All (codes "mood") refl, refl, mood_value), tt),
  );
  ascends = (tt, ((refl, tt), tt));
  source = source_value;
  blocks = blocks_written;
}

parse-render_example : parse (render doc) ≡ ok doc
parse-render_example = parse-render bools-Laws doc doc-IsDoc

unescape-escape_example :
    (unescape_value (escape_header_value doc.title) ≡ some doc.title) ↔ IsValue doc.title
unescape-escape_example = unescape-escape_iff doc.title

parse-render_tags_example : parse_tags (render_tags doc.tags) ≡ some doc.tags
unfolding program
parse-render_tags_example = parse-render_tags doc.tags cons_ne refl (λ h. refl, (λ h. refl, tt))
