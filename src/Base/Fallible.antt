-- ===== src/Base/Fallible.antt =====
-- Rust's `Result`, and its `?` as a monad.
use mathlib.Core.Path.{◌≡◌, refl, subst}
use mathlib.Core.Logic.{◌⊎◌, inl, inr}
use mathlib.Core.Option.{Option, none, some}

pub data Result {ℓ κ} (E : Type κ) (A : Type ℓ) : Type (ℓ ⊔ κ) where
  ok : A → Result E A
  err : E → Result E A

-- `Option::ok_or`.
abbrev pub ok_or {ℓ κ} : {E : Type κ} {A : Type ℓ} → Option A → E → Result E A
ok_or none e = err e
ok_or (some a) e = ok a

-- `?`: an error ends the function that it stands in.
abbrev pub ◌>>=◌ {ℓ₁ ℓ₂ μ} :
    {E : Type μ} {A : Type ℓ₁} {B : Type ℓ₂} → Result E A → (A → Result E B) → Result E B
err why >>= rest = err why
ok value >>= rest = rest value

-- A check, and what comes behind it.
abbrev pub ◌>>◌ {ℓ₂ μ} : {E : Type μ} {B : Type ℓ₂} → Result E (Unit {0}) → Result E B → Result E B
check >> rest = check >>= (λ passed. rest)

infixl 5 ◌>>=◌
infixl 5 ◌>>◌
-- What holds of the result of a computation that succeeds.
abbrev pub Holds {ℓ κ μ} : {E : Type μ} {A : Type ℓ} → (A → Type κ) → Result E A → Type κ
Holds P (ok a) = P a
Holds P (err e) = Unit

pub Holds-bind {ℓ κ μ ν} :
    {E : Type μ} {A : Type ℓ} {B : Type κ} (P : B → Type ν) (m : Result E A) (f : A → Result E B)
    → ((a : A) → Holds P (f a))
    → Holds P (m >>= f)
Holds-bind P (ok a) f h = h a
Holds-bind P (err e) f h = tt

pub Holds-ok {ℓ κ μ} :
    {E : Type μ} {A : Type ℓ} (P : A → Type κ) {r : Result E A} {a : A} → r ≡ ok a → Holds P r → P a
Holds-ok P e h = subst (Holds P) e h

-- The same, with what holds of the first result.
pub Holds-bind_on {ℓ κ μ ν ξ} :
    {E : Type μ} {A : Type ℓ} {B : Type κ} (P : A → Type ξ) (Q : B → Type ν) (m : Result E A)
    (f : A → Result E B)
    → Holds P m
    → ((a : A) → P a → Holds Q (f a))
    → Holds Q (m >>= f)
Holds-bind_on P Q (ok a) f h k = k a h
Holds-bind_on P Q (err e) f h k = tt

pub Result-cases {ℓ κ} :
    {E : Type κ} {A : Type ℓ} (r : Result E A) → ((a : A) × (r ≡ ok a)) ⊎ ((e : E) × (r ≡ err e))
Result-cases (ok a) = inl (a, refl)
Result-cases (err e) = inr (e, refl)

pub Holds-both {ℓ κ μ ν} :
    {E : Type μ} {A : Type ℓ} (P : A → Type κ) (Q : A → Type ν) (r : Result E A)
    → Holds P r
    → Holds Q r
    → Holds (λ a. P a × Q a) r
Holds-both P Q (ok a) h k = (h, k)
Holds-both P Q (err e) h k = tt

pub Holds-bind_eq {ℓ κ μ ν} :
    {E : Type μ} {A : Type ℓ} {B : Type κ} (P : B → Type ν) (m : Result E A) (f : A → Result E B)
    → ((a : A) → m ≡ ok a → Holds P (f a))
    → Holds P (m >>= f)
Holds-bind_eq P (ok a) f h = h a refl
Holds-bind_eq P (err e) f h = tt

pub Holds-map {ℓ κ μ ν} :
    {E : Type μ} {A : Type ℓ} (P : A → Type κ) (Q : A → Type ν) (r : Result E A)
    → ((a : A) → P a → Q a)
    → Holds P r
    → Holds Q r
Holds-map P Q (ok a) f h = f a h
Holds-map P Q (err e) f h = tt

pub ok_or-some {ℓ κ} :
    {E : Type κ} {A : Type ℓ} (o : Option A) (e : E) (a : A) → ok_or o e ≡ ok a → o ≡ some a
ok_or-some none e a h = cc
ok_or-some (some b) e a h = cc
