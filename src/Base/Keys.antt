-- ===== src/Base/Keys.antt =====
-- Rows sorted by a key: the order is strict, and reading on behind the last row of a page gives what
-- the page left.
use Prim.Native.Nat.{ℕ, zero, suc, ◌<◌}
use mathlib.Core.Bool.{Bool, true, false}
use mathlib.Core.List.{List, [], ◌∷◌, map}
use mathlib.Core.Logic.{◌≢◌, inl, inr}
use mathlib.Core.Option.{some}
use mathlib.Core.Path.{◌≡◌, refl, sym, ap, ◌∙◌, subst}
use native.Mathlib.Omega.{arith}
use nomai.Base.Lists.{All-of-map, take, drop, last?, All, All-map, last?-cons, drop-of-take}
use nomai.Base.Sorting.{
  any, filter_none, filter-All', filter, filter_keep, filter_drop, insert_by, sort_by,
  All-insert_by, All-sort_by, All-filter,
}
use nomai.Base.Tests.{ltb, ◌==◌, if◌then◌else◌, Bool-cases, ltb→lt, ltb→le}

module _ {ℓ} {A : Type ℓ} (key : A → ℕ) where
  abbrev pub by_key : A → A → Bool
  by_key x y = ltb (key x) (key y)

  -- No two rows have one key.
  abbrev pub IsKeyed : List A → Type 0
  IsKeyed [] = Unit
  IsKeyed (x ∷ xs) = All (λ y. key x ≢ key y) xs × IsKeyed xs

  abbrev pub IsSorted : List A → Type 0
  IsSorted [] = Unit
  IsSorted (x ∷ xs) = All (λ y. key x < key y) xs × IsSorted xs

  insert_by-IsSorted :
      (x : A) (ys : List A)
      → All (λ y. key x ≢ key y) ys
      → IsSorted ys
      → IsSorted (insert_by by_key x ys)
  unfolding insert_by
  insert_by-IsSorted x [] h k = (tt, tt)
  insert_by-IsSorted x (y ∷ ys) h k = elim (Bool-cases (by_key y x)) [
    | inl q ↦ rw q (
      All-insert_by (λ z. key y < key z) by_key x ys (ltb→lt (key y) (key x) q) k.0,
      insert_by-IsSorted x ys h.1 k.1,
    )
    | inr q ↦
        let low : key x < key y = below x y h.0 q in
        rw q ((low, All-map (λ z. key y < key z) _ (λ z l. omega (arith, low, l)) ys k.0), k)
  ]
    where
      below : (x y : A) → key x ≢ key y → by_key y x ≡ false → key x < key y
      below x y ne q = omega (arith, ne, ltb→le (key y) (key x) q)

  pub sort_by-IsSorted : (xs : List A) → IsKeyed xs → IsSorted (sort_by by_key xs)
  unfolding sort_by
  sort_by-IsSorted [] h = tt
  sort_by-IsSorted (x ∷ xs) h =
      insert_by-IsSorted x (sort_by by_key xs) (All-sort_by (λ y. key x ≢ key y) by_key xs h.0)
        (sort_by-IsSorted xs h.1)

  pub filter-IsKeyed : (p : A → Bool) (xs : List A) → IsKeyed xs → IsKeyed (filter p xs)
  unfolding filter
  filter-IsKeyed p [] h = tt
  filter-IsKeyed p (x ∷ xs) h = elim (Bool-cases (p x)) [
    | inl q ↦ rw q (All-filter (λ y. key x ≢ key y) p xs h.0, filter-IsKeyed p xs h.1)
    | inr q ↦ rw q (filter-IsKeyed p xs h.1)
  ]

  insert_by_first :
      (x : A) (ys : List A) → All (λ y. by_key y x ≡ false) ys → insert_by by_key x ys ≡ x ∷ ys
  unfolding insert_by
  insert_by_first x [] h = refl
  insert_by_first x (y ∷ ys) h = rw h.0

  filter-insert_by :
      (p : A → Bool) (x : A) (ys : List A)
      → IsSorted ys
      → filter p (insert_by by_key x ys)
        ≡ (if p x then insert_by by_key x (filter p ys) else filter p ys)
  unfolding filter insert_by
  filter-insert_by p x [] k = refl
  filter-insert_by p x (y ∷ ys) k = elim (Bool-cases (by_key y x)) [
    | inl q ↦ ground (arith, filter-insert_by p x ys k.1)
    | inr q ↦ elim (Bool-cases (p x)) [
      | inl r ↦
          rw (q, r)
            (sym (
              insert_by_first x (filter p (y ∷ ys)) (
                All-filter (λ z. by_key z x ≡ false) p (y ∷ ys)
                  (q, All-map (λ z. key y < key z) _ (λ z l. above x y z l q) ys k.0))))
      | inr r ↦ rw (q, r)
    ]
  ]
    where
      above : (x y z : A) → key y < key z → by_key y x ≡ false → by_key z x ≡ false
      above x y z l q = ground arith

  -- Filtering and sorting commute.
  pub filter-sort_by :
      (p : A → Bool) (xs : List A)
      → IsKeyed xs
      → sort_by by_key (filter p xs) ≡ filter p (sort_by by_key xs)
  unfolding sort_by
  filter-sort_by p [] h = unfold filter in refl
  filter-sort_by p (x ∷ xs) h =
      let sorted = sort_by-IsSorted xs h.1 in
      elim (Bool-cases (p x)) [
        | inl q ↦
            ap (sort_by by_key) (filter_keep p x xs q)
            ∙ ap (insert_by by_key x) (filter-sort_by p xs h.1)
            ∙ sym (filter-insert_by p x (sort_by by_key xs) sorted ∙ rw q)
        | inr q ↦
            ap (sort_by by_key) (filter_drop p x xs q)
            ∙ filter-sort_by p xs h.1
            ∙ sym (filter-insert_by p x (sort_by by_key xs) sorted ∙ rw q)
      ]

  pub last-All {κ} :
      (P : A → Type κ) (n : ℕ) (xs : List A) (m : A) → All P xs → last? (take n xs) ≡ some m → P m
  last-All P zero xs m h e = cc
  last-All P (suc n) [] m h e = cc
  last-All P (suc n) (x ∷ xs) m h e = elim (last?-cons x (take n xs) m e) [
    | inl (_, f) ↦ subst P f h.0
    | inr f ↦ last-All P n xs m h.1 f
  ]

  -- The rows above the last one of a page are the rows behind the page.
  pub filter-above :
      (n : ℕ) (xs : List A) (m : A)
      → IsSorted xs
      → last? (take n xs) ≡ some m
      → filter (λ y. ltb (key m) (key y)) xs ≡ drop n xs
  unfolding filter
  filter-above zero xs m h e = cc
  filter-above (suc n) [] m h e = refl
  filter-above (suc n) (x ∷ xs) m h e = elim (last?-cons x (take n xs) m e) [
    | inl (g, f) ↦
        subst (λ y. filter (λ z. ltb (key y) (key z)) (x ∷ xs) ≡ drop n xs) f
          (skip x xs
            ∙ filter-All' (λ z. ltb (key x) (key z)) xs
                (All-map (λ y. key x < key y) _ (λ y l. lt→ltb x y l) xs h.0)
            ∙ sym (drop-of-take n xs g))
    | inr f ↦
        let low : key x < key m = last-All (λ y. key x < key y) n xs m h.0 f in
        ground (arith, filter-above n xs m h.1 f)
  ]
    where
      skip :
          (x : A) (xs : List A)
          → filter (λ z. ltb (key x) (key z)) (x ∷ xs) ≡ filter (λ z. ltb (key x) (key z)) xs
      skip x xs = ground arith

      lt→ltb : (x y : A) → key x < key y → ltb (key x) (key y) ≡ true
      lt→ltb x y l = ground arith

  -- A key that is there is there once.
  pub filter-key :
      (k : ℕ) (xs : List A)
      → IsKeyed xs
      → any (λ x. key x == k) xs ≡ true
      → (x : A) × (filter (λ y. key y == k) xs ≡ x ∷ [])
  unfolding any filter
  filter-key k [] h e = cc
  filter-key k (x ∷ xs) h e = elim (Bool-cases (key x == k)) [
    | inl q ↦ (x, rw (q, no_others (All-map _ _ (λ y ne. other y ne q) xs h.0)) refl)
    | inr q ↦ let (y, f) = filter-key k xs h.1 (ground (arith, e, q)) in (y, rw q f)
  ]
    where
      other : (y : A) → key x ≢ key y → (key x == k) ≡ true → (key y == k) ≡ false
      other y ne q = ground (arith, ne, q)

      no_others : All (λ y. (key y == k) ≡ false) xs → filter (λ y. key y == k) xs ≡ []
      no_others = filter_none (λ y. key y == k) xs

  pub map-IsKeyed :
      (f : A → A) (xs : List A) → ((x : A) → key (f x) ≡ key x) → IsKeyed xs → IsKeyed (map f xs)
  map-IsKeyed f [] h k = tt
  map-IsKeyed f (x ∷ xs) h k = (
    All-of-map f (λ y. key (f x) ≢ key y) xs
        (All-map (λ y. key x ≢ key y) (λ y. key (f x) ≢ key (f y)) (λ y ne. rw (h x, h y) ne) xs
          k.0),
    map-IsKeyed f xs h k.1,
  )
