-- ===== src/Channel/Model.antt =====
-- crates/core/src/channel_model.rs, and the two tables of migrations/V13__channels.sql.
use nomai.Base.{
  ℕ, Bool, not, ◌||◌, Option, none, some, List, ◌++◌, ltb, if◌then◌else◌, is_empty, Result, ok, err,
}
use nomai.Text.{Text, codes, len}

-- Ids, JSON values and times come from other libraries.
pub record Deps : Type 1 where
  pub Ulid : Type 0
  pub Json : Type 0
  pub Time : Type 0
  pub same_id : Ulid → Ulid → Bool
  pub is_object : Json → Bool
  pub empty_object : Json

-- `i64`: `negsuc n` is -(n + 1).
pub data ℤ : Type 0 where
  pos : ℕ → ℤ
  negsuc : ℕ → ℤ

-- `CoreError::Validation`; the failures of SQLite itself are left out.
pub data CoreError : Type 0 where
  validation : Text → CoreError

abbrev pub channel_name_max : ℕ
channel_name_max = 128

abbrev pub channel_limit_max : ℕ
channel_limit_max = 200

pub record ChannelMessage (d : Deps) : Type 0 where
  pub seq : ℕ
  pub id : d.Ulid
  pub channel : Text
  pub sender : Text
  pub text : Text
  pub attrs : d.Json
  pub created_at : d.Time

pub record SendMessage (d : Deps) : Type 0 where
  pub channel : Text
  pub text : Text
  pub sender : Option Text
  pub attrs : Option d.Json

pub record RecvMessages : Type 0 where
  pub channel : Text
  pub subscriber : Option Text
  pub since : Option ℤ
  pub limit : ℕ

pub record RecvResult (d : Deps) : Type 0 where
  pub items : List (ChannelMessage d)
  pub latest : ℕ
  pub cursor : ℕ

-- A row of `channel_cursors`.
pub record Cursor (d : Deps) : Type 0 where
  pub channel : Text
  pub subscriber : Text
  pub last_seq : ℕ
  pub updated_at : d.Time

-- The tables: the messages in the order of their primary key, the largest key that AUTOINCREMENT
-- has given out, and the cursors.
pub record Tables (d : Deps) : Type 0 where
  pub messages : List (ChannelMessage d)
  pub last_given : ℕ
  pub cursors : List (Cursor d)

unfoldable pub validate_name : Text → Text → Result CoreError Text
unfolding len
validate_name field value =
    if is_empty value || ltb channel_name_max (len value)
    then err (validation (field ++ codes " must be 1..=128 bytes"))
    else ok value

module _ (d : Deps) where
  unfoldable pub validate_attrs : Option d.Json → Result CoreError d.Json
  validate_attrs none = ok d.empty_object
  validate_attrs (some attrs) =
      if not (d.is_object attrs)
      then err (validation (codes "attrs must be a JSON object"))
      else ok attrs
