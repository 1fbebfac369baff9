-- ===== src/Base/Orders.antt =====
-- Lists with the same elements in another order, and sorting, which does not see the order.
use Prim.Native.Nat.{ℕ, zero, suc, ◌≤◌}
use mathlib.Core.Bool.{Bool, true, false}
use mathlib.Core.List.{List, [], ◌∷◌, map}
use mathlib.Core.Logic.{◌≢◌, inl, inr}
use mathlib.Core.Path.{◌≡◌, refl, sym, ap, ◌∙◌}
use native.Mathlib.Omega.{arith}
use nomai.Base.Keys.{IsKeyed}
use nomai.Base.Lists.{length, take, All, All-map, All-take}
use nomai.Base.Sorting.{filter, insert_by, sort_by, All-insert_by}
use nomai.Base.Tests.{Bool-cases}

pub data Rearranged {ℓ} {A : Type ℓ} : List A → List A → Type ℓ where
  nothing : Rearranged [] []
  keep : (x : A) {xs ys : List A} → Rearranged xs ys → Rearranged (x ∷ xs) (x ∷ ys)
  swap : (x y : A) (xs : List A) → Rearranged (x ∷ y ∷ xs) (y ∷ x ∷ xs)
  after : {xs ys zs : List A} → Rearranged xs ys → Rearranged ys zs → Rearranged xs zs

module _ {ℓ} {A : Type ℓ} where
  pub Rearranged-refl : (xs : List A) → Rearranged xs xs
  Rearranged-refl [] = nothing
  Rearranged-refl (x ∷ xs) = keep x (Rearranged-refl xs)

  pub Rearranged-All {κ} :
      (P : A → Type κ) {xs ys : List A} → Rearranged xs ys → All P xs → All P ys
  Rearranged-All P nothing h = tt
  Rearranged-All P (keep x r) h = (h.0, Rearranged-All P r h.1)
  Rearranged-All P (swap x y xs) h = (h.1.0, (h.0, h.1.1))
  Rearranged-All P (after r s) h = Rearranged-All P s (Rearranged-All P r h)

  pub Rearranged-IsKeyed :
      (key : A → ℕ) {xs ys : List A} → Rearranged xs ys → IsKeyed key xs → IsKeyed key ys
  Rearranged-IsKeyed key nothing h = tt
  Rearranged-IsKeyed key (keep x r) h =
      (Rearranged-All (λ y. key x ≢ key y) r h.0, Rearranged-IsKeyed key r h.1)
  Rearranged-IsKeyed key (swap x y xs) h = ((λ e. h.0.0 (sym e), h.1.0), (h.0.1, h.1.1))
  Rearranged-IsKeyed key (after r s) h = Rearranged-IsKeyed key s (Rearranged-IsKeyed key r h)

  pub Rearranged-filter :
      (p : A → Bool) {xs ys : List A}
      → Rearranged xs ys
      → length (filter p xs) ≡ length (filter p ys)
  unfolding filter
  Rearranged-filter p nothing = refl
  Rearranged-filter p (keep x r) = ground (arith, Rearranged-filter p r)
  Rearranged-filter p (swap x y xs) = ground arith
  Rearranged-filter p (after r s) = Rearranged-filter p r ∙ Rearranged-filter p s

  pub insert_by-Rearranged :
      (before : A → A → Bool) (x : A) (ys : List A) → Rearranged (x ∷ ys) (insert_by before x ys)
  unfolding insert_by
  insert_by-Rearranged before x [] = Rearranged-refl (x ∷ [])
  insert_by-Rearranged before x (y ∷ ys) = elim (Bool-cases (before y x)) [
    | inl q ↦ rw q (after (swap x y ys) (keep y (insert_by-Rearranged before x ys)))
    | inr q ↦ rw q (Rearranged-refl (x ∷ y ∷ ys))
  ]

  pub sort_by-Rearranged : (before : A → A → Bool) (xs : List A) → Rearranged xs (sort_by before xs)
  unfolding sort_by
  sort_by-Rearranged before [] = nothing
  sort_by-Rearranged before (x ∷ xs) =
      after (keep x (sort_by-Rearranged before xs))
        (insert_by-Rearranged before x (sort_by before xs))

  -- A strict order that compares any two elements with different keys.
  module _ (before : A → A → Bool) (key : A → ℕ)
      (before_trans : (x y z : A) → before x y ≡ true → before y z ≡ true → before x z ≡ true)
      (before_asym : (x y : A) → before x y ≡ true → before y x ≡ false)
      (before_total : (x y : A) → key x ≢ key y → before x y ≡ false → before y x ≡ true) where
    insert_comm :
        (x y : A) (zs : List A)
        → before x y ≡ true
        → before y x ≡ false
        → insert_by before x (insert_by before y zs) ≡ insert_by before y (insert_by before x zs)
    unfolding insert_by
    insert_comm x y [] p q = rw (p, q) refl
    insert_comm x y (z ∷ zs) p q = elim (Bool-cases (before z x)) [
      | inl f ↦ ground (arith, f, before_trans z x y f p, insert_comm x y zs p q)
      | inr f ↦ elim (Bool-cases (before z y)) [
        | inl g ↦ ground (arith, f, g, p)
        | inr g ↦ ground (arith, f, g, p, q)
      ]
    ]

    -- Sorting rows with distinct keys does not see their order.
    pub Rearranged-sort_by :
        {xs ys : List A} → Rearranged xs ys → IsKeyed key xs → sort_by before xs ≡ sort_by before ys
    unfolding sort_by
    Rearranged-sort_by nothing h = refl
    Rearranged-sort_by (keep x r) h = ap (insert_by before x) (Rearranged-sort_by r h.1)
    Rearranged-sort_by (swap x y xs) h = elim (Bool-cases (before x y)) [
      | inl p ↦ insert_comm x y (sort_by before xs) p (before_asym x y p)
      | inr p ↦ let q = before_total x y h.0.0 p in sym (insert_comm y x (sort_by before xs) q p)
    ]
    Rearranged-sort_by (after r s) h =
        Rearranged-sort_by r h ∙ Rearranged-sort_by s (Rearranged-IsKeyed key r h)

  -- No row goes before one that stands in front of it.
  abbrev pub IsOrdered : (A → A → Bool) → List A → Type 0
  IsOrdered before [] = Unit
  IsOrdered before (x ∷ xs) = All (λ y. before y x ≡ false) xs × IsOrdered before xs

  pub take-IsOrdered :
      (before : A → A → Bool) (n : ℕ) (xs : List A)
      → IsOrdered before xs
      → IsOrdered before (take n xs)
  take-IsOrdered before zero xs h = tt
  take-IsOrdered before (suc n) [] h = tt
  take-IsOrdered before (suc n) (x ∷ xs) h =
      (All-take (λ y. before y x ≡ false) n xs h.0, take-IsOrdered before n xs h.1)

  pub take-IsKeyed : (key : A → ℕ) (n : ℕ) (xs : List A) → IsKeyed key xs → IsKeyed key (take n xs)
  take-IsKeyed key zero xs h = tt
  take-IsKeyed key (suc n) [] h = tt
  take-IsKeyed key (suc n) (x ∷ xs) h =
      (All-take (λ y. key x ≢ key y) n xs h.0, take-IsKeyed key n xs h.1)

  pub filter-take :
      (p : A → Bool) (n : ℕ) (xs : List A) → length (filter p (take n xs)) ≤ length (filter p xs)
  unfolding filter
  filter-take p zero xs = omega arith
  filter-take p (suc n) [] = omega arith
  filter-take p (suc n) (x ∷ xs) = ground (arith, filter-take p n xs)

  module _ (before : A → A → Bool)
      (before_asym : (x y : A) → before x y ≡ true → before y x ≡ false)
      (before_late : (x y z : A)
        → before y x ≡ false
        → before z y ≡ false
        → before z x ≡ false) where
    insert_by-IsOrdered :
        (x : A) (ys : List A) → IsOrdered before ys → IsOrdered before (insert_by before x ys)
    unfolding insert_by
    insert_by-IsOrdered x [] h = (tt, tt)
    insert_by-IsOrdered x (y ∷ ys) h = elim (Bool-cases (before y x)) [
      | inl q ↦ rw q (
        All-insert_by (λ z. before z y ≡ false) before x ys (before_asym y x q) h.0,
        insert_by-IsOrdered x ys h.1,
      )
      | inr q ↦ rw q (
        (
          q,
          All-map (λ z. before z y ≡ false) (λ z. before z x ≡ false) (λ z k. before_late x y z q k)
              ys h.0,
        ),
        h,
      )
    ]

    pub sort_by-IsOrdered : (xs : List A) → IsOrdered before (sort_by before xs)
    unfolding sort_by
    sort_by-IsOrdered [] = tt
    sort_by-IsOrdered (x ∷ xs) = insert_by-IsOrdered x (sort_by before xs) (sort_by-IsOrdered xs)

pub Rearranged-map {ℓ κ} :
    {A : Type ℓ} {B : Type κ} (g : A → B) {xs ys : List A}
    → Rearranged xs ys
    → Rearranged (map g xs) (map g ys)
Rearranged-map g nothing = nothing
Rearranged-map g (keep x r) = keep (g x) (Rearranged-map g r)
Rearranged-map g (swap x y xs) = swap (g x) (g y) (map g xs)
Rearranged-map g (after r s) = after (Rearranged-map g r) (Rearranged-map g s)

pub Rearranged-sym {ℓ} : {A : Type ℓ} {xs ys : List A} → Rearranged xs ys → Rearranged ys xs
Rearranged-sym nothing = nothing
Rearranged-sym (keep x r) = keep x (Rearranged-sym r)
Rearranged-sym (swap x y xs) = swap y x xs
Rearranged-sym (after r s) = after (Rearranged-sym s) (Rearranged-sym r)
