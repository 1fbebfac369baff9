-- ===== src/Base/Sorting.antt =====
-- `ORDER BY`, `WHERE` and `LIMIT` on lists.
use Prim.Native.Nat.{suc, ◌+◌}
use mathlib.Core.Bool.{Bool, true, false, not, ◌&&◌, ◌||◌}
use mathlib.Core.List.{List, [], ◌∷◌, ◌++◌, map}
use mathlib.Core.Logic.{inl, inr}
use mathlib.Core.Option.{Option, none, some}
use mathlib.Core.Path.{◌≡◌, refl, ap, ◌∙◌, subst}
use native.Mathlib.Omega.{arith}
use nomai.Base.Lists.{length, All, All-map}
use nomai.Base.Tests.{if◌then◌else◌, Bool-cases}

module _ {ℓ} {A : Type ℓ} where
  -- The rows that a test keeps, and their number.
  unfoldable pub filter : (A → Bool) → List A → List A
  filter p [] = []
  filter p (x ∷ xs) = let rest = filter p xs in if p x then x ∷ rest else rest

  unfoldable pub any : (A → Bool) → List A → Bool
  any p [] = false
  any p (x ∷ xs) = p x || any p xs

  -- The first row that a test accepts.
  unfoldable pub find : (A → Bool) → List A → Option A
  find p [] = none
  find p (x ∷ xs) = if p x then some x else find p xs

  -- Insertion sort: `before x y` puts `x` in front of `y`; equal rows keep their order.
  unfoldable pub insert_by : (A → A → Bool) → A → List A → List A
  insert_by before x [] = x ∷ []
  insert_by before x (y ∷ ys) =
      let rest = insert_by before x ys in if before y x then y ∷ rest else x ∷ y ∷ ys

  unfoldable pub sort_by : (A → A → Bool) → List A → List A
  sort_by before [] = []
  sort_by before (x ∷ xs) = insert_by before x (sort_by before xs)

  pub length-insert_by :
      (before : A → A → Bool) (x : A) (ys : List A)
      → length (insert_by before x ys) ≡ suc (length ys)
  unfolding insert_by
  length-insert_by before x [] = refl
  length-insert_by before x (y ∷ ys) = ground (arith, length-insert_by before x ys)

  pub length-sort_by :
      (before : A → A → Bool) (xs : List A) → length (sort_by before xs) ≡ length xs
  unfolding sort_by
  length-sort_by before [] = refl
  length-sort_by before (x ∷ xs) =
      length-insert_by before x (sort_by before xs) ∙ ap suc (length-sort_by before xs)

  pub All-insert_by {κ} :
      (P : A → Type κ) (before : A → A → Bool) (x : A) (ys : List A)
      → P x
      → All P ys
      → All P (insert_by before x ys)
  unfolding insert_by
  All-insert_by P before x [] h k = (h, tt)
  All-insert_by P before x (y ∷ ys) h k = elim (Bool-cases (before y x)) [
    | inl q ↦ rw q (k.0, All-insert_by P before x ys h k.1)
    | inr q ↦ rw q (h, k)
  ]

  pub All-sort_by {κ} :
      (P : A → Type κ) (before : A → A → Bool) (xs : List A) → All P xs → All P (sort_by before xs)
  unfolding sort_by
  All-sort_by P before [] h = tt
  All-sort_by P before (x ∷ xs) h =
      All-insert_by P before x (sort_by before xs) h.0 (All-sort_by P before xs h.1)

  pub All-filter {κ} :
      (P : A → Type κ) (p : A → Bool) (xs : List A) → All P xs → All P (filter p xs)
  unfolding filter
  All-filter P p [] h = tt
  All-filter P p (x ∷ xs) h = elim (Bool-cases (p x)) [
    | inl q ↦ rw q (h.0, All-filter P p xs h.1)
    | inr q ↦ rw q (All-filter P p xs h.1)
  ]

  pub filter-All : (p : A → Bool) (xs : List A) → All (λ x. p x ≡ true) (filter p xs)
  unfolding filter
  filter-All p [] = tt
  filter-All p (x ∷ xs) = elim (Bool-cases (p x)) [
    | inl q ↦ rw q (q, filter-All p xs)
    | inr q ↦ rw q (filter-All p xs)
  ]

  pub filter-filter :
      (p q : A → Bool) (xs : List A) → filter p (filter q xs) ≡ filter (λ x. p x && q x) xs
  unfolding filter
  filter-filter p q [] = refl
  filter-filter p q (x ∷ xs) = ground (arith, filter-filter p q xs)

  pub filter-ext :
      (p q : A → Bool) (xs : List A) → ((x : A) → p x ≡ q x) → filter p xs ≡ filter q xs
  unfolding filter
  filter-ext p q [] h = refl
  filter-ext p q (x ∷ xs) h = rw (h x, filter-ext p q xs h)

  -- What a test keeps and what it drops are all.
  pub length-filter :
      (p : A → Bool) (xs : List A)
      → length (filter p xs) + length (filter (λ x. not (p x)) xs) ≡ length xs
  unfolding filter
  length-filter p [] = refl
  length-filter p (x ∷ xs) = ground (arith, length-filter p xs)

  pub filter_keep :
      (p : A → Bool) (x : A) (xs : List A) → p x ≡ true → filter p (x ∷ xs) ≡ x ∷ filter p xs
  unfolding filter
  filter_keep p x xs h = rw h

  pub filter_drop :
      (p : A → Bool) (x : A) (xs : List A) → p x ≡ false → filter p (x ∷ xs) ≡ filter p xs
  unfolding filter
  filter_drop p x xs h = rw h

  -- No two rows are related.
  abbrev pub IsApart : (A → A → Bool) → List A → Type 0
  IsApart rel [] = Unit
  IsApart rel (x ∷ xs) = All (λ y. rel x y ≡ false) xs × IsApart rel xs

  pub filter-IsApart :
      (rel : A → A → Bool) (p : A → Bool) (xs : List A) → IsApart rel xs → IsApart rel (filter p xs)
  unfolding filter
  filter-IsApart rel p [] h = tt
  filter-IsApart rel p (x ∷ xs) h = elim (Bool-cases (p x)) [
    | inl q ↦ rw q (All-filter (λ y. rel x y ≡ false) p xs h.0, filter-IsApart rel p xs h.1)
    | inr q ↦ rw q (filter-IsApart rel p xs h.1)
  ]

  pub any-All : (p : A → Bool) (xs : List A) → any p xs ≡ false → All (λ x. p x ≡ false) xs
  unfolding any
  any-All p [] h = tt
  any-All p (x ∷ xs) h = (ground (arith, h), any-All p xs (ground (arith, h)))

  pub All-any : (p : A → Bool) (xs : List A) → All (λ x. p x ≡ false) xs → any p xs ≡ false
  unfolding any
  All-any p [] h = refl
  All-any p (x ∷ xs) h = rw (h.0, All-any p xs h.1) refl

  pub any-filter :
      (p q : A → Bool) (xs : List A)
      → ((x : A) → p x ≡ true → q x ≡ true)
      → any p xs ≡ true
      → any p (filter q xs) ≡ true
  unfolding any filter
  any-filter p q [] h k = k
  any-filter p q (x ∷ xs) h k = elim (Bool-cases (p x)) [
    | inl e ↦ rw (h x e, e) refl
    | inr e ↦
        let rest = any-filter p q xs h (ground (arith, e, k)) in
        elim (Bool-cases (q x)) [ inl f ↦ rw (f, e) rest | inr f ↦ rw f rest ]
  ]

  pub filter_none : (p : A → Bool) (xs : List A) → All (λ y. p y ≡ false) xs → filter p xs ≡ []
  unfolding filter
  filter_none p [] h = refl
  filter_none p (x ∷ xs) h = rw (h.0, filter_none p xs h.1)

  pub filter-All' : (p : A → Bool) (xs : List A) → All (λ y. p y ≡ true) xs → filter p xs ≡ xs
  unfolding filter
  filter-All' p [] h = refl
  filter-All' p (x ∷ xs) h = rw (h.0, filter-All' p xs h.1)

  pub find-All {κ} :
      (P : A → Type κ) (p : A → Bool) (xs : List A) (y : A)
      → All P xs
      → find p xs ≡ some y
      → P y × (p y ≡ true)
  unfolding find
  find-All P p [] y h e = cc
  find-All P p (x ∷ xs) y h e = elim (Bool-cases (p x)) [
    | inl q ↦
        let same : x ≡ y = ground (arith, q, e) in subst (λ z. P z × (p z ≡ true)) same (h.0, q)
    | inr q ↦ find-All P p xs y h.1 (ground (arith, q, e))
  ]

  pub any-ext : (p q : A → Bool) (xs : List A) → ((x : A) → p x ≡ q x) → any p xs ≡ any q xs
  unfolding any
  any-ext p q [] h = refl
  any-ext p q (x ∷ xs) h = rw (h x, any-ext p q xs h) refl

  -- A row that is tested among those that are kept.
  pub any-of-filter :
      (p q : A → Bool) (xs : List A) → any p (filter q xs) ≡ any (λ x. q x && p x) xs
  unfolding any filter
  any-of-filter p q [] = refl
  any-of-filter p q (x ∷ xs) = elim (Bool-cases (q x)) [
    | inl e ↦ rw (e, any-of-filter p q xs) refl
    | inr e ↦ rw (e, any-of-filter p q xs) refl
  ]

  pub insert_by_last :
      (before : A → A → Bool) (x : A) (ys : List A)
      → All (λ y. before y x ≡ true) ys
      → insert_by before x ys ≡ ys ++ (x ∷ [])
  unfolding insert_by
  insert_by_last before x [] h = refl
  insert_by_last before x (y ∷ ys) h = rw (h.0, insert_by_last before x ys h.1) refl

  pub find_first : (p : A → Bool) (x : A) (xs : List A) → p x ≡ true → find p (x ∷ xs) ≡ some x
  unfolding find
  find_first p x xs h = rw h refl

  pub any_more : (p : A → Bool) (x : A) (xs : List A) → any p xs ≡ true → any p (x ∷ xs) ≡ true
  unfolding any
  any_more p x xs h = ground (arith, h)

  -- Every row is among the rows.
  pub any_self :
      (p : A → A → Bool) (xs : List A)
      → All (λ x. p x x ≡ true) xs
      → All (λ x. any (p x) xs ≡ true) xs
  unfolding any
  any_self p [] h = tt
  any_self p (x ∷ xs) h =
      (rw (h.0) refl, All-map _ _ (λ y k. any_more (p y) x xs k) xs (any_self p xs h.1))

module _ {ℓ κ} {A : Type ℓ} {B : Type κ} (f : A → B) (before : B → B → Bool) where
  map-insert_by :
      (x : A) (xs : List A)
      → map f (insert_by (λ a b. before (f a) (f b)) x xs) ≡ insert_by before (f x) (map f xs)
  unfolding insert_by
  map-insert_by x [] = refl
  map-insert_by x (y ∷ ys) = elim (Bool-cases (before (f y) (f x))) [
    | inl q ↦ rw (q, map-insert_by x ys) refl
    | inr q ↦ rw q refl
  ]

  pub map-sort_by :
      (xs : List A) → map f (sort_by (λ a b. before (f a) (f b)) xs) ≡ sort_by before (map f xs)
  unfolding sort_by
  map-sort_by [] = refl
  map-sort_by (x ∷ xs) = map-insert_by x _ ∙ ap (insert_by before (f x)) (map-sort_by xs)

pub any-map {ℓ κ} :
    {A : Type ℓ} {B : Type κ} (f : A → B) (p : B → Bool) (xs : List A)
    → any p (map f xs) ≡ any (λ x. p (f x)) xs
unfolding any
any-map f p [] = refl
any-map f p (x ∷ xs) = rw (any-map f p xs) refl
