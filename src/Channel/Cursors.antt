-- ===== src/Channel/Cursors.antt =====
-- The table of the cursors: one position for each channel and subscriber.
use nomai.Base.{
  ℕ, ◌≤◌, ◌≡◌, refl, inl, inr, max, true, false, ◌&&◌, List, [], ◌∷◌, arith, Bool-cases, All,
}
use nomai.Channel.Model.{Deps, Cursor}
use nomai.Channel.Service.{is_cursor, find_cursor, put_cursor, delete_cursor}
use nomai.Text.Order.{text_eq_iff, text_eq_refl}
use nomai.Text.{Text, text_eq}

module _ (d : Deps) where
  -- A position moves forwards only.
  pub find_cursor-put :
      (channel subscriber : Text) (seq : ℕ) (now : d.Time) (cs : List (Cursor d))
      → find_cursor d channel subscriber (put_cursor d channel subscriber seq now cs)
        ≡ max (find_cursor d channel subscriber cs) seq
  unfolding find_cursor put_cursor
  find_cursor-put channel subscriber seq now [] =
      rw (text_eq_refl channel, text_eq_refl subscriber) (omega arith)
  find_cursor-put channel subscriber seq now (c ∷ cs) =
      elim (Bool-cases (is_cursor d channel subscriber c)) [
        | inl q ↦ rw (q, find_cursor, put_cursor) (rw q)
        | inr q ↦
            rw (q, find_cursor, put_cursor) (rw q (find_cursor-put channel subscriber seq now cs))
      ]

  other_key :
      (channel subscriber channel' subscriber' : Text) (c : Cursor d)
      → (text_eq channel channel' && text_eq subscriber subscriber') ≡ false
      → is_cursor d channel subscriber c ≡ true
      → is_cursor d channel' subscriber' c ≡ false
  other_key channel subscriber channel' subscriber' c h q =
      let e : c.channel ≡ channel = (text_eq_iff c.channel channel).0 (ground arith) in
      let f : c.subscriber ≡ subscriber = (text_eq_iff c.subscriber subscriber).0 (ground arith) in
      rw (e, f) h

  -- The other positions stay.
  pub find_cursor-put_other :
      (channel subscriber channel' subscriber' : Text) (seq : ℕ) (now : d.Time)
      (cs : List (Cursor d))
      → (text_eq channel channel' && text_eq subscriber subscriber') ≡ false
      → find_cursor d channel' subscriber' (put_cursor d channel subscriber seq now cs)
        ≡ find_cursor d channel' subscriber' cs
  unfolding find_cursor put_cursor
  find_cursor-put_other channel subscriber channel' subscriber' seq now [] h = rw h
  find_cursor-put_other channel subscriber channel' subscriber' seq now (c ∷ cs) h =
      elim (Bool-cases (is_cursor d channel subscriber c)) [
        | inl q ↦ let k = other_key channel subscriber channel' subscriber' c h q in rw q (rw k)
        | inr q ↦
            rw q (rw (find_cursor-put_other channel subscriber channel' subscriber' seq now cs h))
      ]

  -- No stored position is above the bound.
  pub put_cursor-below :
      (channel subscriber : Text) (seq bound : ℕ) (now : d.Time) (cs : List (Cursor d))
      → seq ≤ bound
      → All (λ c. c.last_seq ≤ bound) cs
      → All (λ c. c.last_seq ≤ bound) (put_cursor d channel subscriber seq now cs)
  unfolding put_cursor
  put_cursor-below channel subscriber seq bound now [] h k = (h, tt)
  put_cursor-below channel subscriber seq bound now (c ∷ cs) h k =
      elim (Bool-cases (is_cursor d channel subscriber c)) [
        | inl q ↦ rw q (omega (arith, h, k.0), k.1)
        | inr q ↦ rw q (k.0, put_cursor-below channel subscriber seq bound now cs h k.1)
      ]

  pub find_cursor-below :
      (channel subscriber : Text) (bound : ℕ) (cs : List (Cursor d))
      → All (λ c. c.last_seq ≤ bound) cs
      → find_cursor d channel subscriber cs ≤ bound
  unfolding find_cursor
  find_cursor-below channel subscriber bound [] k = omega arith
  find_cursor-below channel subscriber bound (c ∷ cs) k =
      elim (Bool-cases (is_cursor d channel subscriber c)) [
        | inl q ↦ rw q k.0
        | inr q ↦ rw q (find_cursor-below channel subscriber bound cs k.1)
      ]

  pub delete_cursor-below :
      (channel subscriber : Text) (bound : ℕ) (cs : List (Cursor d))
      → All (λ c. c.last_seq ≤ bound) cs
      → All (λ c. c.last_seq ≤ bound) (delete_cursor d channel subscriber cs)
  unfolding delete_cursor
  delete_cursor-below channel subscriber bound [] k = tt
  delete_cursor-below channel subscriber bound (c ∷ cs) k =
      let rest = delete_cursor-below channel subscriber bound cs k.1 in
      elim (Bool-cases (is_cursor d channel subscriber c)) [
        | inl q ↦ rw q rest
        | inr q ↦ rw q (k.0, rest)
      ]

  -- A deleted position is the start again.
  pub find_cursor-delete :
      (channel subscriber : Text) (cs : List (Cursor d))
      → find_cursor d channel subscriber (delete_cursor d channel subscriber cs) ≡ 0
  unfolding find_cursor delete_cursor
  find_cursor-delete channel subscriber [] = refl
  find_cursor-delete channel subscriber (c ∷ cs) =
      elim (Bool-cases (is_cursor d channel subscriber c)) [
        | inl q ↦ rw q (find_cursor-delete channel subscriber cs)
        | inr q ↦ rw q (rw (q, find_cursor) (find_cursor-delete channel subscriber cs))
      ]

  pub find_cursor-delete_other :
      (channel subscriber channel' subscriber' : Text) (cs : List (Cursor d))
      → (text_eq channel channel' && text_eq subscriber subscriber') ≡ false
      → find_cursor d channel' subscriber' (delete_cursor d channel subscriber cs)
        ≡ find_cursor d channel' subscriber' cs
  unfolding find_cursor delete_cursor
  find_cursor-delete_other channel subscriber channel' subscriber' [] h = refl
  find_cursor-delete_other channel subscriber channel' subscriber' (c ∷ cs) h =
      let rest = find_cursor-delete_other channel subscriber channel' subscriber' cs h in
      elim (Bool-cases (is_cursor d channel subscriber c)) [
        | inl q ↦ let k = other_key channel subscriber channel' subscriber' c h q in rw (q, k) rest
        | inr q ↦ rw q (rw rest)
      ]
