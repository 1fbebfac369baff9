-- ===== src/Batch/Refs.antt =====
-- What the resolution of the `$ref` placeholders gives.
use nomai.Base.{
  ℕ, zero, suc, ◌≡◌, refl, sym, ap, ◌∙◌, Bool, true, false, ◌&&◌, ◌||◌, Option, none, some, List,
  [], ◌∷◌, arith, get_elem?, All, Bool-cases, Option-cases, inl, inr, Result, ok, ok_or, Holds,
  Holds-bind, Holds-bind_on, Holds-ok,
}
use nomai.Batch.{
  OpResult, Ids, index_of, split_once, split_dots, get, get_path, result_of, follow,
  resolve_ref_path, as_ref, resolve_ref, resolve_refs, resolve_object, resolve_items,
  resolve_fields,
}
use nomai.Core.{Deps, CoreError, Json}
use nomai.Core.Json.{
  Items, Fields, null, bool, number, string, array, object, empty, item, nil, field, get_field,
}
use nomai.Text.{Text, codes, text_eq}

module _ (d : Deps) where
  abbrev is_some : {A : Type 0} → Option A → Bool
  is_some none = false
  is_some (some a) = true

  -- A placeholder stands somewhere in the value.
  unfoldable mutual
    pub has_ref : Json d → Bool
    has_ref (object fs) = is_some (as_ref d fs) || field_has_ref fs
    has_ref (array xs) = item_has_ref xs
    has_ref _ = false

    pub item_has_ref : Items d.Number → Bool
    item_has_ref empty = false
    item_has_ref (item x xs) = has_ref x || item_has_ref xs

    pub field_has_ref : Fields d.Number → Bool
    field_has_ref nil = false
    field_has_ref (field k v fs) = has_ref v || field_has_ref fs

  abbrev pub IsResolved : Json d → Type 0
  IsResolved v = has_ref v ≡ false

  abbrev pub Given : {A : Type 0} → (A → Type 0) → Option A → Type 0
  Given P none = Unit
  Given P (some a) = P a

  ok_or-Given :
      {A : Type 0} (P : A → Type 0) (o : Option A) (e : CoreError d)
      → Given P o
      → Holds P (ok_or o e)
  ok_or-Given P none e h = tt
  ok_or-Given P (some a) e h = h

  get_elem-Given :
      {A : Type 0} (P : A → Type 0) (xs : List A) (i : ℕ) → All P xs → Given P (get_elem? xs i)
  get_elem-Given P [] i h = tt
  get_elem-Given P (x ∷ xs) zero h = h.0
  get_elem-Given P (x ∷ xs) (suc i) h = get_elem-Given P xs i h.1

  or_left : (a b : Bool) → (a || b) ≡ false → a ≡ false
  or_left a b h = ground (arith, h)

  or_right : (a b : Bool) → (a || b) ≡ false → b ≡ false
  or_right a b h = ground (arith, h)

  get_field-IsResolved :
      (key : Text) (fs : Fields d.Number)
      → field_has_ref fs ≡ false
      → Given IsResolved (get_field key fs)
  unfolding has_ref get_field
  get_field-IsResolved key nil h = tt
  get_field-IsResolved key (field k w fs) h = elim (Bool-cases (text_eq k key)) [
    | inl q ↦ rw q (or_left (has_ref w) (field_has_ref fs) h)
    | inr q ↦ rw q (get_field-IsResolved key fs (or_right (has_ref w) (field_has_ref fs) h))
  ]

  get-IsResolved : (key : Text) (u : Json d) → IsResolved u → Given IsResolved (get d key u)
  unfolding has_ref
  get-IsResolved key (object fs) h =
      get_field-IsResolved key fs (or_right (is_some (as_ref d fs)) (field_has_ref fs) h)
  get-IsResolved key _ h = tt

  get_path-IsResolved :
      (path : Text) (fs : List Text) (v : Json d)
      → IsResolved v
      → Holds IsResolved (get_path d path fs v)
  unfolding get_path
  get_path-IsResolved path [] v h = h
  get_path-IsResolved path (f ∷ fs) v h =
      Holds-bind_on IsResolved IsResolved (ok_or (get d f v) _) _
        (ok_or-Given IsResolved (get d f v) _ (get-IsResolved f v h))
        λ w k. get_path-IsResolved path fs w k

  follow-IsResolved :
      (path : Option Text) (v : Json d) → IsResolved v → Holds IsResolved (follow d path v)
  follow-IsResolved none v h = h
  follow-IsResolved (some path) v h = get_path-IsResolved path (split_dots path) v h

  abbrev pub AreResolved : List (OpResult d) → Type 0
  AreResolved results = All (λ r. Given IsResolved (result_of d r)) results

  resolve_ref_path-IsResolved :
      (path : Text) (results : List (OpResult d)) (ids : Ids)
      → AreResolved results
      → Holds IsResolved (resolve_ref_path d path results ids)
  unfolding resolve_ref_path
  resolve_ref_path-IsResolved path results ids h =
      Holds-bind _ (ok_or (index_of (split_once path).0 ids) _) _ λ i.
        Holds-bind_on (λ r. Given IsResolved (result_of d r)) _ (ok_or (get_elem? results i) _) _
          (ok_or-Given _ (get_elem? results i) _ (get_elem-Given _ results i h))
          λ r k.
            Holds-bind_on IsResolved _ (ok_or (result_of d r) _) _
              (ok_or-Given IsResolved (result_of d r) _ k)
              λ v m. follow-IsResolved (split_once path).1 v m

  resolve_ref-IsResolved :
      (v : Json d) (results : List (OpResult d)) (ids : Ids)
      → AreResolved results
      → Holds IsResolved (resolve_ref d v results ids)
  resolve_ref-IsResolved (string path) results ids h =
      resolve_ref_path-IsResolved path results ids h
  resolve_ref-IsResolved _ results ids h = tt

  abbrev is_nil : Fields d.Number → Bool
  is_nil nil = true
  is_nil (field k v fs) = false

  as_ref-key :
      (k : Text) (v : Json d) (fs : Fields d.Number)
      → is_some (as_ref d (field k v fs)) ≡ (is_nil fs && text_eq k (codes "$ref"))
  unfolding as_ref
  as_ref-key k v nil = elim (Bool-cases (text_eq k (codes "$ref"))) [
    | inl q ↦ rw q refl
    | inr q ↦ rw q refl
  ]
  as_ref-key k v (field l w fs) = refl

  -- The resolved fields have the keys of the fields.
  abbrev SameKeys : Fields d.Number → Fields d.Number → Type 0
  SameKeys fs gs =
      (field_has_ref gs ≡ false)
      × (is_nil gs ≡ is_nil fs)
      × (is_some (as_ref d gs) ≡ is_some (as_ref d fs))

  module _ (results : List (OpResult d)) (ids : Ids) (resolved : AreResolved results) where
    resolve_object-IsResolved :
        (fs : Fields d.Number) (r : Result (CoreError d) (Fields d.Number))
        → Holds (SameKeys fs) r
        → Holds IsResolved (resolve_object d results ids (as_ref d fs) r)
    unfolding has_ref
    resolve_object-IsResolved fs r h = elim (Option-cases (as_ref d fs)) [
      | inl e ↦
          rw e (Holds-bind_on (SameKeys fs) IsResolved r _ h λ gs k. both (k.2 ∙ ap is_some e) k.0)
      | inr (v, e) ↦ rw e (resolve_ref-IsResolved v results ids resolved)
    ]
      where
        both : {a b : Bool} → a ≡ false → b ≡ false → (a || b) ≡ false
        both h k = rw (h, k) refl

    or_both : {a b : Bool} → a ≡ false → b ≡ false → (a || b) ≡ false
    or_both h k = rw (h, k) refl

    mutual
      unfolding has_ref resolve_refs

      resolve_value : (v : Json d) → Holds IsResolved (resolve_refs d results ids v)
      resolve_value null = refl
      resolve_value (bool b) = refl
      resolve_value (number n) = refl
      resolve_value (string s) = refl
      resolve_value (array xs) =
          Holds-bind_on (λ ys. item_has_ref ys ≡ false) IsResolved (resolve_items d results ids xs)
            _ (resolve_each xs) λ ys h. h
      resolve_value (object fs) =
          resolve_object-IsResolved fs (resolve_fields d results ids fs) (resolve_all fs)

      resolve_each :
          (xs : Items d.Number)
          → Holds (λ ys. item_has_ref ys ≡ false) (resolve_items d results ids xs)
      resolve_each empty = refl
      resolve_each (item x xs) =
          Holds-bind_on IsResolved _ (resolve_refs d results ids x) _ (resolve_value x) λ y h.
            Holds-bind_on (λ ys. item_has_ref ys ≡ false) _ (resolve_items d results ids xs) _
              (resolve_each xs) λ ys k. or_both h k

      resolve_all : (fs : Fields d.Number) → Holds (SameKeys fs) (resolve_fields d results ids fs)
      resolve_all nil = (refl, refl, refl)
      resolve_all (field k v fs) =
          Holds-bind_on IsResolved _ (resolve_refs d results ids v) _ (resolve_value v) λ w h.
            Holds-bind_on (SameKeys fs) _ (resolve_fields d results ids fs) _ (resolve_all fs)
              λ gs m. (
                or_both h m.0,
                refl,
                as_ref-key k w gs
                    ∙ ap (λ b. b && text_eq k (codes "$ref")) m.1
                    ∙ sym (as_ref-key k v fs),
              )

  -- No placeholder reaches a service: if the results of the earlier operations hold none, the
  -- parameters that are resolved against them hold none, at any depth.
  pub resolve_refs-IsResolved :
      (results : List (OpResult d)) (ids : Ids) (params params' : Json d)
      → AreResolved results
      → resolve_refs d results ids params ≡ ok params'
      → IsResolved params'
  resolve_refs-IsResolved results ids params params' h e =
      Holds-ok IsResolved e (resolve_value results ids h params)
