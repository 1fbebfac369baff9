-- ===== src/Core.antt =====
-- What the services of crates/core share: the errors (crates/core/src/error.rs and
-- crates/protocol/src/provider.rs), ids, times and JSON values.
pub mod Json
pub mod Model
pub mod Sample
pub mod Transaction
use nomai.Base.{
  ℕ, ◌≡◌, Bool, Option, none, some, List, ◌==◌, ltb, if◌then◌else◌, not, Result, ok, err,
}
use nomai.Core.Json.{Value, object, nil, is_object}
use nomai.NomaiFormat.Model.{ParseError}
use nomai.Text.{Text, codes}

-- The types of other libraries. `Ulid` is a 128-bit number, and the text of a ULID sorts as the
-- number does.
pub record Deps : Type 1 where
  pub Ulid : Type 0
  pub number : Ulid → ℕ
  pub number_inj : (a b : Ulid) → number a ≡ number b → a ≡ b
  pub ulid_to_string : Ulid → Text
  pub Time : Type 0
  pub to_rfc3339 : Time → Text
  pub Number : Type 0
  pub SqlError : Type 0
  pub IoError : Type 0

pub data ProviderErrorKind : Type 0 where
  auth rate_limit network server unknown : ProviderErrorKind

pub record ProviderError : Type 0 where
  pub kind : ProviderErrorKind
  pub message : Text
  pub status : Option ℕ

pub data CoreError (d : Deps) : Type 0 where
  not_found : d.Ulid → CoreError d
  resource_not_found : Text → d.Ulid → CoreError d
  validation : Text → CoreError d
  conflict : Text → CoreError d
  provider : ProviderError → CoreError d
  storage : d.SqlError → CoreError d
  migration : Text → CoreError d
  io : d.IoError → CoreError d
  nomai_format : ParseError → CoreError d
  config : Text → CoreError d
  sync_conflict : Text → List Text → CoreError d

module _ (d : Deps) where
  abbrev pub Json : Type 0
  Json = Value d.Number

  abbrev pub same_id : d.Ulid → d.Ulid → Bool
  same_id a b = d.number a == d.number b

  -- `attrs`, which defaults to `{}` and must be an object
  unfoldable pub check_attrs : Text → Option Json → Result (CoreError d) Json
  check_attrs message none = ok (object nil)
  check_attrs message (some attrs) =
      if not (is_object attrs) then err (validation message) else ok attrs
