-- ===== src/NomaiFormat/Maps.antt =====
-- The ordered map that the attributes are collected in.
use Prim.Native.Nat.{Ordering}
use nomai.Base.{◌≡◌, refl, ap, [], ◌∷◌, ◌++◌, All}
use nomai.NomaiFormat.Model.{Externals, Value, JsonMap, insert}
use nomai.Text.{Text, compare_text}

module _ {x : Externals} where
  -- Every key of the second map is above those of the first and those in front of it.
  abbrev pub Ascends : JsonMap x → JsonMap x → Type 0
  Ascends out [] = Unit
  Ascends out (e ∷ m) =
      All (λ f. compare_text e.0 f.0 ≡ Ordering.gt) out × Ascends (out ++ e ∷ []) m

  pub insert_above :
      (k : Text) (v : Value x) (m : JsonMap x)
      → All (λ f. compare_text k f.0 ≡ Ordering.gt) m
      → insert k v m ≡ m ++ (k, v) ∷ []
  unfolding insert
  insert_above k v [] h = refl
  insert_above k v ((j, w) ∷ m) h = rw (h.0, insert) (ap (◌∷◌ (j, w)) (insert_above k v m h.1))
