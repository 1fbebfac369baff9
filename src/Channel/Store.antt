-- ===== src/Channel/Store.antt =====
-- What the tables always satisfy, and what sending, purging and unsubscribing do to the queues.
use nomai.Base.{
  ℕ, ◌≤◌, ◌<◌, ◌≡◌, refl, inl, inr, ◌&&◌, [], ◌∷◌, ◌++◌, arith, ltb, if◌then◌else◌, All, Bool-cases,
}
use nomai.Channel.Model.{Deps, ChannelMessage, Tables}
use nomai.Channel.Order.{Climbs, Climbs-weaken}
use nomai.Channel.Service.{Messages, after, delete_before}
use nomai.Text.{Text, text_eq}

module _ (d : Deps) where
  abbrev pub IsBelow : ℕ → Messages d → Type 0
  IsBelow bound ms = All (λ m. m.seq ≤ bound) ms

  -- The keys grow, and neither a key nor a cursor is above the last key given out.
  pub record IsStore (t : Tables d) : Type 0 where
    pub climbs : Climbs d 0 t.messages
    pub below : IsBelow t.last_given t.messages
    pub cursors_below : All (λ c. c.last_seq ≤ t.last_given) t.cursors

  pub Climbs-append :
      (low bound : ℕ) (ms : Messages d) (m : ChannelMessage d)
      → low ≤ bound
      → bound < m.seq
      → Climbs d low ms
      → IsBelow bound ms
      → Climbs d low (ms ++ m ∷ [])
  Climbs-append low bound [] m l h c k = (omega arith, tt)
  Climbs-append low bound (x ∷ ms) m l h c k = (c.0, Climbs-append x.seq bound ms m k.0 h c.1 k.1)

  pub after-append :
      (channel : Text) (from : ℕ) (ms : Messages d) (m : ChannelMessage d)
      → from < m.seq
      → after d channel from (ms ++ m ∷ []) ≡ (
          if text_eq m.channel channel
          then after d channel from ms ++ m ∷ []
          else after d channel from ms)
  unfolding after
  after-append channel from [] m h = ground arith
  after-append channel from (x ∷ ms) m h = ground (arith, after-append channel from ms m h)

  pub delete_before-Climbs :
      (channel : Text) (bound low : ℕ) (ms : Messages d)
      → Climbs d low ms
      → Climbs d low (delete_before d channel bound ms)
  unfolding delete_before
  delete_before-Climbs channel bound low [] c = tt
  delete_before-Climbs channel bound low (m ∷ ms) c =
      let rest = delete_before-Climbs channel bound m.seq ms c.1 in
      elim (Bool-cases (text_eq m.channel channel && ltb m.seq bound)) [
        | inl q ↦ rw q (Climbs-weaken d m.seq low _ (omega (arith, c.0)) rest)
        | inr q ↦ rw q (c.0, rest)
      ]

  pub delete_before-IsBelow :
      (channel : Text) (bound high : ℕ) (ms : Messages d)
      → IsBelow high ms
      → IsBelow high (delete_before d channel bound ms)
  unfolding delete_before
  delete_before-IsBelow channel bound high [] k = tt
  delete_before-IsBelow channel bound high (m ∷ ms) k =
      let rest = delete_before-IsBelow channel bound high ms k.1 in
      elim (Bool-cases (text_eq m.channel channel && ltb m.seq bound)) [
        | inl q ↦ rw q rest
        | inr q ↦ rw q (k.0, rest)
      ]

  -- What is left of a queue after a purge of its channel: the keys from the bound on.
  unfoldable pub from_key : ℕ → Messages d → Messages d
  from_key bound [] = []
  from_key bound (m ∷ ms) =
      let rest = from_key bound ms in if ltb m.seq bound then rest else m ∷ rest

  pub after-delete_before :
      (channel : Text) (bound from : ℕ) (ms : Messages d)
      → after d channel from (delete_before d channel bound ms)
        ≡ from_key bound (after d channel from ms)
  unfolding after delete_before from_key
  after-delete_before channel bound from [] = refl
  after-delete_before channel bound from (m ∷ ms) =
      ground (arith, after-delete_before channel bound from ms)
