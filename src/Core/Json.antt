-- ===== src/Core/Json.antt =====
-- `serde_json::Value`, with the numbers as a parameter: an object is the list of its fields.
use nomai.Base.{Bool, true, false, Option, none, some, if◌then◌else◌}
use mathlib.Core.Path.{◌≡◌, refl}
use native.Mathlib.Omega.{arith}
use nomai.Text.{Text, text_eq}
use nomai.Text.Order.{text_eq_iff}

mutual
  pub data Value (N : Type 0) : Type 0 where
    null : Value N
    bool : Bool → Value N
    number : N → Value N
    string : Text → Value N
    array : Items N → Value N
    object : Fields N → Value N

  pub data Items (N : Type 0) : Type 0 where
    empty : Items N
    item : Value N → Items N → Items N

  pub data Fields (N : Type 0) : Type 0 where
    nil : Fields N
    field : Text → Value N → Fields N → Fields N

module _ {N : Type 0} where
  abbrev pub is_object : Value N → Bool
  is_object (object fs) = true
  is_object _ = false

  unfoldable pub get_field : Text → Fields N → Option (Value N)
  get_field k nil = none
  get_field k (field j v fs) = if text_eq j k then some v else get_field k fs

  -- `Map::insert`, which replaces the value of a key.
  unfoldable pub insert_field : Text → Value N → Fields N → Fields N
  insert_field k v nil = field k v nil
  insert_field k v (field j w fs) =
      let rest = field j w (insert_field k v fs) in if text_eq j k then field k v fs else rest

  -- What is inserted is found under its key, and the other keys keep their values.
  pub get_field-insert_field :
      (k j : Text) (v : Value N) (fs : Fields N)
      → get_field k (insert_field j v fs) ≡ (if text_eq j k then some v else get_field k fs)
  unfolding get_field insert_field
  get_field-insert_field k j v nil = refl
  get_field-insert_field k j v (field i w fs) =
      ground
        (arith, get_field-insert_field k j v fs, text_eq_iff i j, text_eq_iff i k, text_eq_iff j k)
