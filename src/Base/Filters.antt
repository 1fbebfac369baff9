-- ===== src/Base/Filters.antt =====
-- What a filter keeps and what it drops, and rows that are changed in place.
use mathlib.Core.Bool.{Bool, true, false, not, ◌&&◌}
use mathlib.Core.List.{List, [], ◌∷◌, map}
use mathlib.Core.Logic.{inl, inr}
use mathlib.Core.Option.{none, some}
use mathlib.Core.Path.{◌≡◌, refl, ◌∙◌, subst}
use native.Mathlib.Omega.{arith}
use nomai.Base.Lists.{All, All-map, All-of-map}
use nomai.Base.Sorting.{filter, any, find, IsApart, filter_none, filter_keep, filter_drop}
use nomai.Base.Tests.{Bool-cases}

module _ {ℓ} {A : Type ℓ} where
  -- A row that is there and not among the dropped ones is among those that are kept.
  pub any_kept :
      (q p : A → Bool) (xs : List A)
      → any q xs ≡ true
      → any q (filter p xs) ≡ false
      → any q (filter (λ x. not (p x)) xs) ≡ true
  unfolding any filter
  any_kept q p [] h k = h
  any_kept q p (x ∷ xs) h k = ground (arith, any_kept q p xs, h, k)

  pub filter_kept :
      (q p : A → Bool) (xs : List A)
      → any q (filter p xs) ≡ false
      → filter q (filter (λ x. not (p x)) xs) ≡ filter q xs
  unfolding any filter
  filter_kept q p [] k = refl
  filter_kept q p (x ∷ xs) k = ground (arith, filter_kept q p xs, k)

  -- A row that is found, if no other one is like it, is the only one.
  pub find-filter :
      (rel : A → A → Bool) (p : A → Bool) (xs : List A) (y : A)
      → ((a b : A) → p a ≡ true → rel a b ≡ false → p b ≡ false)
      → IsApart rel xs
      → find p xs ≡ some y
      → filter p xs ≡ y ∷ []
  unfolding find filter
  find-filter rel p [] y h k e = cc
  find-filter rel p (x ∷ xs) y h k e = elim (Bool-cases (p x)) [
    | inl q ↦
        let none_else = filter_none p xs (All-map _ _ (λ z f. h x z q f) xs k.0) in
        ground (arith, q, e, none_else)
    | inr q ↦ ground (arith, q, e, find-filter rel p xs y h k.1)
  ]

  pub map-IsApart :
      (rel : A → A → Bool) (f : A → A) (xs : List A)
      → ((a b : A) → rel (f a) (f b) ≡ rel a b)
      → IsApart rel xs
      → IsApart rel (map f xs)
  map-IsApart rel f [] h k = tt
  map-IsApart rel f (x ∷ xs) h k = (
    All-of-map f (λ z. rel (f x) z ≡ false) xs
        (All-map (λ y. rel x y ≡ false) (λ y. rel (f x) (f y) ≡ false) (λ y e. h x y ∙ e) xs k.0),
    map-IsApart rel f xs h k.1,
  )

  -- A change that keeps a test commutes with it.
  pub filter-map :
      (p : A → Bool) (f : A → A) (xs : List A)
      → ((a : A) → p (f a) ≡ p a)
      → filter p (map f xs) ≡ map f (filter p xs)
  unfolding filter
  filter-map p f [] h = refl
  filter-map p f (x ∷ xs) h = elim (Bool-cases (p x)) [
    | inl q ↦ rw (h x, q, filter-map p f xs h) refl
    | inr q ↦ rw (h x, q, filter-map p f xs h) refl
  ]

  pub map_same : (f : A → A) (xs : List A) → All (λ x. f x ≡ x) xs → map f xs ≡ xs
  map_same f [] h = refl
  map_same f (x ∷ xs) h = rw (h.0, map_same f xs h.1) refl

  -- A row that is found and passes another test.
  pub find-any :
      (p q : A → Bool) (xs : List A) (y : A)
      → find p xs ≡ some y
      → q y ≡ true
      → any (λ x. p x && q x) xs ≡ true
  unfolding find any
  find-any p q [] y e h = cc
  find-any p q (x ∷ xs) y e h = ground (arith, find-any p q xs y, e, h)

  pub All-filter_and {κ} :
      (P : A → Type κ) (p q : A → Bool) (xs : List A)
      → All P (filter p xs)
      → All P (filter (λ x. p x && q x) xs)
  unfolding filter
  All-filter_and P p q [] h = tt
  All-filter_and P p q (x ∷ xs) h = elim (Bool-cases (p x)) [
    | inr e ↦ rw e (All-filter_and P p q xs (subst (All P) (filter_drop p x xs e) h))
    | inl e ↦
        let k = subst (All P) (filter_keep p x xs e) h in
        elim (Bool-cases (q x)) [
          | inl f ↦ rw (e, f) (k.0, All-filter_and P p q xs k.1)
          | inr f ↦ rw (e, f) (All-filter_and P p q xs k.1)
        ]
  ]

  -- A filter that keeps what is looked for, and one that drops it.
  pub find-of-filter :
      (p q : A → Bool) (xs : List A)
      → ((x : A) → p x ≡ true → q x ≡ true)
      → find p (filter q xs) ≡ find p xs
  unfolding find filter
  find-of-filter p q [] h = refl
  find-of-filter p q (x ∷ xs) h = elim (Bool-cases (p x)) [
    | inl e ↦ rw (h x e, e) refl
    | inr e ↦
        let rest = find-of-filter p q xs h in
        elim (Bool-cases (q x)) [ inl f ↦ rw (f, e) rest | inr f ↦ rw (f, e) rest ]
  ]

  pub find-of-filter-none :
      (p q : A → Bool) (xs : List A)
      → ((x : A) → p x ≡ true → q x ≡ false)
      → find p (filter q xs) ≡ none
  unfolding find filter
  find-of-filter-none p q [] h = refl
  find-of-filter-none p q (x ∷ xs) h =
      let rest = find-of-filter-none p q xs h in
      elim (Bool-cases (q x)) [
        | inr f ↦ rw f rest
        | inl f ↦ elim (Bool-cases (p x)) [ inl e ↦ let g = h x e in cc | inr e ↦ rw (f, e) rest ]
      ]
