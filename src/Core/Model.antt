-- ===== src/Core/Model.antt =====
-- crates/core/src/model.rs and the block of crates/core/src/block_model.rs.
use nomai.Base.{ℕ, Option, List}
use nomai.Core.{Deps, Json}
use nomai.Text.{Text}

pub record Block (d : Deps) : Type 0 where
  pub id : d.Ulid
  pub entry_id : d.Ulid
  pub ordinal : ℕ
  pub type : Text
  pub text : Text
  pub attrs : Json d
  pub created_at : d.Time
  pub updated_at : d.Time

pub record Entry (d : Deps) : Type 0 where
  pub id : d.Ulid
  pub title : Text
  pub blocks : List (Block d)
  pub tags : List Text
  pub attrs : Json d
  pub source : Option Text
  pub created_at : d.Time
  pub updated_at : d.Time
