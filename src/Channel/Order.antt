-- ===== src/Channel/Order.antt =====
-- The order of the messages, and what a read finds in it.
use nomai.Base.{
  ℕ, zero, suc, ◌≤◌, ◌<◌, ◌≡◌, refl, sym, subst, ◌∙◌, inl, inr, true, ◌&&◌, some, List, [], ◌∷◌,
  arith, ltb, take, drop, last?, last?-cons, drop-of-take, Bool-cases, All,
}
use nomai.Channel.Model.{Deps, ChannelMessage}
use nomai.Channel.Service.{after, in_channel}
use nomai.Text.{Text, text_eq}

module _ (d : Deps) where
  abbrev Messages : Type 0
  Messages = List (ChannelMessage d)

  -- The keys grow, from above `low` on.
  abbrev pub Climbs : ℕ → Messages → Type 0
  Climbs low [] = Unit
  Climbs low (m ∷ ms) = (low < m.seq) × Climbs m.seq ms

  pub Climbs-weaken : (low low' : ℕ) (ms : Messages) → low' ≤ low → Climbs low ms → Climbs low' ms
  Climbs-weaken low low' [] h c = tt
  Climbs-weaken low low' (m ∷ ms) h c = (omega arith, c.1)

  -- With every key above the bound, the bound does not matter.
  pub after_low :
      (channel : Text) (from low : ℕ) (ms : Messages)
      → from ≤ low
      → Climbs low ms
      → after d channel from ms ≡ in_channel d channel ms
  unfolding after in_channel
  after_low channel from low [] h c = refl
  after_low channel from low (m ∷ ms) h c =
      ground (arith, after_low channel from m.seq ms (omega arith) c.1)

  -- A message that is not above the bound is passed over.
  after-skip :
      (channel : Text) (from : ℕ) (x : ChannelMessage d) (ms : Messages)
      → x.seq ≤ from
      → after d channel from (x ∷ ms) ≡ after d channel from ms
  unfolding after
  after-skip channel from x ms h = ground arith

  selected-le :
      (channel : Text) (from : ℕ) (x : ChannelMessage d)
      → (text_eq x.channel channel && ltb from x.seq) ≡ true
      → from ≤ x.seq
  selected-le channel from x q = ground arith

  selected-lt :
      (channel : Text) (from : ℕ) (x : ChannelMessage d)
      → (text_eq x.channel channel && ltb from x.seq) ≡ true
      → from < x.seq
  selected-lt channel from x q = ground arith

  after_own :
      (channel : Text) (from : ℕ) (x : ChannelMessage d) (ms : Messages)
      → from ≤ x.seq
      → Climbs x.seq ms
      → after d channel x.seq (x ∷ ms) ≡ after d channel from ms
  after_own channel from x ms h c =
      after-skip channel x.seq x ms (omega arith)
      ∙ after_low channel x.seq x.seq ms (omega arith) c
      ∙ sym (after_low channel from x.seq ms h c)

  -- What is read lies above the lower end.
  pub last-above :
      (channel : Text) (from low n : ℕ) (ms : Messages) (m : ChannelMessage d)
      → Climbs low ms
      → last? (take n (after d channel from ms)) ≡ some m
      → low < m.seq
  unfolding after
  last-above channel from low zero [] m c e = cc
  last-above channel from low (suc n) [] m c e = cc
  last-above channel from low zero (x ∷ ms) m c e = cc
  last-above channel from low (suc n) (x ∷ ms) m c e =
      elim (Bool-cases (text_eq x.channel channel && ltb from x.seq)) [
        | inl q ↦ elim (last?-cons x (take n (after d channel from ms)) m (rw q at e)) [
          | inl (_, f) ↦ subst (λ y. low < y.seq) f c.0
          | inr f ↦ omega (arith, c.0, last-above channel from x.seq n ms m c.1 f)
        ]
        | inr q ↦ omega (arith, c.0, last-above channel from x.seq (suc n) ms m c.1 (rw q at e))
      ]

  -- What is read lies above the cursor.
  pub last-from :
      (channel : Text) (from n : ℕ) (ms : Messages) (m : ChannelMessage d)
      → last? (take n (after d channel from ms)) ≡ some m
      → from < m.seq
  unfolding after
  last-from channel from zero [] m e = cc
  last-from channel from (suc n) [] m e = cc
  last-from channel from zero (x ∷ ms) m e = cc
  last-from channel from (suc n) (x ∷ ms) m e =
      elim (Bool-cases (text_eq x.channel channel && ltb from x.seq)) [
        | inl q ↦ elim (last?-cons x (take n (after d channel from ms)) m (rw q at e)) [
          | inl (_, f) ↦ subst (λ y. from < y.seq) f (selected-lt channel from x q)
          | inr f ↦ last-from channel from n ms m f
        ]
        | inr q ↦ last-from channel from (suc n) ms m (rw q at e)
      ]

  pub last-below :
      (channel : Text) (from n bound : ℕ) (ms : Messages) (m : ChannelMessage d)
      → All (λ x. x.seq ≤ bound) ms
      → last? (take n (after d channel from ms)) ≡ some m
      → m.seq ≤ bound
  unfolding after
  last-below channel from zero bound [] m k e = cc
  last-below channel from (suc n) bound [] m k e = cc
  last-below channel from zero bound (x ∷ ms) m k e = cc
  last-below channel from (suc n) bound (x ∷ ms) m k e =
      elim (Bool-cases (text_eq x.channel channel && ltb from x.seq)) [
        | inl q ↦ elim (last?-cons x (take n (after d channel from ms)) m (rw q at e)) [
          | inl (_, f) ↦ subst (λ y. y.seq ≤ bound) f k.0
          | inr f ↦ last-below channel from n bound ms m k.1 f
        ]
        | inr q ↦ last-below channel from (suc n) bound ms m k.1 (rw q at e)
      ]

  -- Reading on from the last message read gives what the reading left.
  pub after-take :
      (channel : Text) (from low n : ℕ) (ms : Messages) (m : ChannelMessage d)
      → Climbs low ms
      → last? (take n (after d channel from ms)) ≡ some m
      → after d channel m.seq ms ≡ drop n (after d channel from ms)
  unfolding after
  after-take channel from low zero [] m c e = cc
  after-take channel from low (suc n) [] m c e = refl
  after-take channel from low zero (x ∷ ms) m c e = cc
  after-take channel from low (suc n) (x ∷ ms) m c e =
      elim (Bool-cases (text_eq x.channel channel && ltb from x.seq)) [
        | inl q ↦ elim (last?-cons x (take n (after d channel from ms)) m (rw q at e)) [
          | inl (g, f) ↦
              subst (λ y. after d channel y.seq (x ∷ ms) ≡ after d channel from ms) f
                (after_own channel from x ms (selected-le channel from x q) c.1)
              ∙ sym (drop-of-take n (after d channel from ms) g)
              ∙ rw q
          | inr f ↦
              after-skip channel m.seq x ms
                (omega (arith, last-above channel from x.seq n ms m c.1 f))
              ∙ rw q (after-take channel from x.seq n ms m c.1 f)
        ]
        | inr q ↦
            after-skip channel m.seq x ms
              (omega (arith, last-above channel from x.seq (suc n) ms m c.1 (rw q at e)))
            ∙ rw q (after-take channel from x.seq (suc n) ms m c.1 (rw q at e))
      ]
