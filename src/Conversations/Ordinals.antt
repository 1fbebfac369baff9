-- ===== src/Conversations/Ordinals.antt =====
-- The ordinals of a conversation's turns, the newest first.
use nomai.Base.{
  ℕ, zero, suc, ◌+◌, ◌%◌, ◌^◌, ◌<◌, ◌≡◌, refl, sym, ap, ◌∙◌, true, ◌&&◌, Option, none, some, List,
  [], ◌∷◌, arith, ◌==◌, max, map, filter, any, any-map, any-of-filter, length,
}
use nomai.Conversations.{Turn, Tables, Codec, is_turn_of, unwrap_or}
use nomai.Conversations.Service.{max_ordinal, after_max, next_ordinal}
use nomai.Core.{Deps}

-- n - 1, …, 1, 0
unfoldable pub countdown : ℕ → List ℕ
countdown zero = []
countdown (suc n) = n ∷ countdown n

length-countdown : (n : ℕ) → length (countdown n) ≡ n
unfolding countdown
length-countdown zero = refl
length-countdown (suc n) = ap suc (length-countdown n)

pub countdown_inj : (n m : ℕ) → countdown n ≡ countdown m → n ≡ m
countdown_inj n m h = sym (length-countdown n) ∙ ap length h ∙ length-countdown m

pub countdown-zero : (n : ℕ) → any (λ o. o == 0) (countdown (suc n)) ≡ true
unfolding countdown any
countdown-zero zero = refl
countdown-zero (suc n) = ground (arith, countdown-zero n)

max_of : List ℕ → Option ℕ
max_of [] = none
max_of (o ∷ os) = some (max o (unwrap_or (max_of os) 0))

max_of-countdown : (n : ℕ) → max_of (countdown (suc n)) ≡ some n
unfolding max_of countdown
max_of-countdown zero = refl
max_of-countdown (suc n) =
    ap (λ o. some (max (suc n) (unwrap_or o 0))) (max_of-countdown n) ∙ ap some (above n)
  where
    above : (n : ℕ) → max (suc n) n ≡ suc n
    above n = omega arith

next_small : (n : ℕ) → suc n < 2 ^ 32 → (n + 1) % 2 ^ 32 ≡ suc n
next_small n l = omega (arith, l)

module _ (d : Deps) (codec : Codec d) where
  abbrev pub ordinals : d.Ulid → List (Turn d) → List ℕ
  ordinals id ts = map (λ t. t.ordinal) (filter (is_turn_of d codec id) ts)

  max_ordinal-max_of :
      (ts : List (Turn d)) → max_ordinal d codec ts ≡ max_of (map (λ t. t.ordinal) ts)
  unfolding max_ordinal max_of
  max_ordinal-max_of [] = refl
  max_ordinal-max_of (t ∷ ts) = rw (max_ordinal-max_of ts) refl

  -- The next ordinal is the number of the turns.
  pub next_ordinal-countdown :
      (id : d.Ulid) (db : Tables d) (n : ℕ)
      → ordinals id db.turns ≡ countdown n
      → n < 2 ^ 32
      → next_ordinal d codec id db ≡ n
  unfolding max_of countdown
  next_ordinal-countdown id db n h l =
      ap (after_max d codec)
        (max_ordinal-max_of (filter (is_turn_of d codec id) db.turns) ∙ ap max_of h)
      ∙ after n l
    where
      after : (n : ℕ) → n < 2 ^ 32 → after_max d codec (max_of (countdown n)) ≡ n
      after zero l = refl
      after (suc n) l = ap (after_max d codec) (max_of-countdown n) ∙ next_small n l

  -- An ordinal that is given is found by the constraint.
  pub any-ordinals :
      (id : d.Ulid) (o : ℕ) (ts : List (Turn d))
      → any (λ u. is_turn_of d codec id u && u.ordinal == o) ts ≡ any (λ p. p == o) (ordinals id ts)
  any-ordinals id o ts =
      sym (any-of-filter (λ u. u.ordinal == o) (is_turn_of d codec id) ts)
      ∙ sym (any-map (λ u. u.ordinal) (λ p. p == o) (filter (is_turn_of d codec id) ts))
