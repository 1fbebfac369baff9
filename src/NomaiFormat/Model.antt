-- ===== src/NomaiFormat/Model.antt =====
-- crates/core/src/nomai_format.rs: the document types, and what the format takes from its
-- dependencies (ulid, chrono, serde_json).
use Prim.Native.Nat.{Ordering}
use nomai.Base.{ℕ, ◌≡◌, Bool, false, ◌||◌, Option, none, some, List, [], ◌∷◌, if◌then◌else◌, All}
use nomai.Text.{Text, codes, text_eq, compare_text, is_whitespace}

-- `Ulid`, `DateTime<Utc>`, and the values of `serde_json::Value` that are no strings, with the
-- conversions that the code calls.
pub record Externals : Type 1 where
  pub Ulid : Type 0
  pub DateTime : Type 0
  pub Other : Type 0
  pub parse_ulid : Text → Option Ulid
  pub ulid_to_string : Ulid → Text
  pub parse_date_time : Text → Option DateTime
  pub to_rfc3339 : DateTime → Text
  pub other_to_string : Other → Text

abbrev pub HasNoSpace : Text → Type 0
HasNoSpace = All (λ c. is_whitespace c ≡ false)

-- What the round trip relies on: printing is undone by parsing, and prints no white space.
pub record Laws (x : Externals) : Type 0 where
  pub parse-print_ulid : (u : x.Ulid) → x.parse_ulid (x.ulid_to_string u) ≡ some u
  pub ulid_no_space : (u : x.Ulid) → HasNoSpace (x.ulid_to_string u)
  pub parse-print_date_time : (t : x.DateTime) → x.parse_date_time (x.to_rfc3339 t) ≡ some t
  pub date_time_no_space : (t : x.DateTime) → HasNoSpace (x.to_rfc3339 t)

pub data BlockType : Type 0 where
  claim evidence question source note connection image : BlockType

unfoldable pub as_str : BlockType → Text
as_str claim = codes "claim"
as_str evidence = codes "evidence"
as_str question = codes "question"
as_str source = codes "source"
as_str note = codes "note"
as_str connection = codes "connection"
as_str image = codes "image"

unfoldable pub from_str : Text → Option BlockType
unfolding text_eq
from_str s =
    if text_eq s (codes "claim")
    then some claim
    else if text_eq s (codes "evidence")
    then some evidence
    else if text_eq s (codes "question")
    then some question
    else if text_eq s (codes "source")
    then some source
    else if text_eq s (codes "note")
    then some note
    else if text_eq s (codes "connection")
    then some connection
    else if text_eq s (codes "image")
    then some image
    else none

-- `serde_json::Value`: the parser makes strings only.
pub data Value (x : Externals) : Type 0 where
  string : Text → Value x
  other : x.Other → Value x

-- `serde_json::Map`: a map ordered by its keys.
abbrev pub JsonMap : Externals → Type 0
JsonMap x = List (Text × Value x)

unfoldable pub insert : {x : Externals} → Text → Value x → JsonMap x → JsonMap x
unfolding compare_text
insert k v [] = (k, v) ∷ []
insert k v ((j, w) ∷ m) = elim (compare_text k j) [
  | Ordering.lt ↦ (k, v) ∷ (j, w) ∷ m
  | Ordering.eq ↦ (k, v) ∷ m
  | Ordering.gt ↦ (j, w) ∷ insert k v m
]

unfoldable pub contains_key : {x : Externals} → Text → JsonMap x → Bool
unfolding text_eq
contains_key k [] = false
contains_key k ((j, w) ∷ m) = text_eq j k || contains_key k m

pub record Block (x : Externals) : Type 0 where
  pub type : BlockType
  pub text : Text
  pub attrs : JsonMap x

pub record NomaiDoc (x : Externals) : Type 0 where
  pub format_version : ℕ
  pub id : x.Ulid
  pub title : Text
  pub tags : List Text
  pub attrs : JsonMap x
  pub source : Option Text
  pub created_at : x.DateTime
  pub updated_at : x.DateTime
  pub blocks : List (Block x)

-- The message texts (`reason`) are left out.
pub data ParseError : Type 0 where
  missing_header : ℕ → Text → ParseError
  unsupported_version : ℕ → ℕ → ParseError
  unknown_block_type : ℕ → Text → ParseError
  missing_connection_attr : ℕ → Text → ParseError
  invalid_value : ℕ → Text → ParseError
  syntax : ℕ → ParseError
  empty_input : ParseError
