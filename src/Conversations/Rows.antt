-- ===== src/Conversations/Rows.antt =====
-- The turns of each conversation are numbered without a gap and counted: what one statement does to this.
use nomai.Base.{
  ℕ, zero, suc, ◌+◌, ◌%◌, ◌^◌, ◌≤◌, ◌<◌, ◌≡◌, ◌≢◌, refl, sym, ap, ◌∙◌, subst, true, false, not,
  ◌&&◌, List, ◌∷◌, arith, ◌==◌, ==_refl, ==_iff, ltb, ltb→lt, ltb→le, if◌then◌else◌, map, filter,
  any, any-map, any-ext, any-filter, any-All, any_more, filter-All, filter-filter, filter-ext,
  filter_none, filter_keep, filter_drop, All, All-map, All-both, All-filter, All-of-map, IsKeyed,
  map-IsKeyed, filter-IsKeyed, Bool-cases, inl, inr, Holds, Holds-bind,
}
use nomai.Conversations.{
  Conversation, Turn, Tables, Codec, has_conversation, is_turn_of, is_insertable, count_turn,
  insert_turn_row, insert_event, insert_conversation,
}
use nomai.Conversations.Ordinals.{countdown, countdown_inj, countdown-zero, ordinals, any-ordinals}
use nomai.Conversations.Service.{put_conversation, delete_conversation_row}
use nomai.Core.{Deps, same_id}
use nomai.Events.{Event, log_event}

module _ (d : Deps) (codec : Codec d) where
  abbrev pub conversation_key : Conversation d → ℕ
  conversation_key c = d.number c.id

  -- The ordinals of the conversation's turns are 0 to `turn_count - 1`.
  abbrev pub IsCounted : List (Turn d) → Conversation d → Type 0
  IsCounted ts c = (ordinals d codec c.id ts ≡ countdown c.turn_count) × (c.turn_count ≤ 2 ^ 32)

  abbrev pub IsOwned : List (Conversation d) → Turn d → Type 0
  IsOwned cs t = has_conversation d codec t.conversation_id cs ≡ true

  -- The ids of the conversations are distinct, every turn has its conversation, and the turns of each
  -- are numbered from 0 without a gap and counted by its `turn_count`.
  pub record IsValid (db : Tables d) : Type 0 where
    pub keyed : IsKeyed conversation_key db.conversations
    pub counted : All (IsCounted db.turns) db.conversations
    pub owned : All (IsOwned db.conversations) db.turns

  -- What is known of one conversation on the way: the number of its turns.
  abbrev pub HasTurns : d.Ulid → ℕ → Tables d → Type 0
  HasTurns id n db = IsValid db × (ordinals d codec id db.turns ≡ countdown n) × (n ≤ 2 ^ 32)

  pub insert_event-IsValid :
      (e : Event d) (db : Tables d) → IsValid db → Holds IsValid (insert_event d codec e db)
  unfolding insert_event
  insert_event-IsValid e db v =
      Holds-bind _ (log_event d _ e db.events) _
        λ es. record { keyed = v.keyed; counted = v.counted; owned = v.owned }

  not_owned :
      (id : d.Ulid) (cs : List (Conversation d)) (t : Turn d)
      → has_conversation d codec id cs ≡ false
      → IsOwned cs t
      → is_turn_of d codec id t ≡ false
  not_owned id cs t q h = elim (Bool-cases (is_turn_of d codec id t)) [
    | inl e ↦
        let same : d.number t.conversation_id ≡ d.number id = ground (arith, e) in
        let found =
          any-ext (λ c. same_id d c.id t.conversation_id) (λ c. same_id d c.id id) cs
            (λ c. ap (λ k. d.number c.id == k) same) in
        absurd (true_is_false (sym h ∙ found ∙ q))
    | inr e ↦ e
  ]
    where
      true_is_false : true ≢ false
      true_is_false e = cc

  -- A new conversation has no turns.
  pub insert_conversation-HasTurns :
      (c : Conversation d) (db : Tables d)
      → c.turn_count ≡ 0
      → IsValid db
      → Holds (HasTurns c.id 0) (insert_conversation d codec c db)
  unfolding insert_conversation countdown
  insert_conversation-HasTurns c db z v =
      elim (Bool-cases (has_conversation d codec c.id db.conversations)) [
        | inl q ↦ rw q tt
        | inr q ↦
            let none_yet : ordinals d codec c.id db.turns ≡ countdown 0 = no_turns q in
            rw q (
              record {
                keyed = (
                  All-map _ _ (λ b f. other b f) db.conversations (any-All _ db.conversations q),
                  v.keyed,
                );
                counted = (rw z (none_yet, small), v.counted);
                owned =
                    All-map _ _
                      (λ t h. any_more (λ b. same_id d b.id t.conversation_id) c db.conversations h)
                      db.turns v.owned;
              },
              none_yet,
              small,
            )
      ]
    where
      small : 0 ≤ 2 ^ 32
      small = omega arith

      other :
          (b : Conversation d)
          → same_id d b.id c.id ≡ false
          → conversation_key c ≢ conversation_key b
      other b f = ground (arith, f)

      no_turns :
          has_conversation d codec c.id db.conversations ≡ false
          → ordinals d codec c.id db.turns ≡ countdown 0
      no_turns q = ap (map (λ t. t.ordinal)) (
          filter_none (is_turn_of d codec c.id) db.turns
            (All-map _ _ (λ t h. not_owned c.id db.conversations t q h) db.turns v.owned))

  pub map-IsOwned :
      (f : Conversation d → Conversation d) (cs : List (Conversation d)) (t : Turn d)
      → ((c : Conversation d) → conversation_key (f c) ≡ conversation_key c)
      → IsOwned cs t
      → IsOwned (map f cs) t
  map-IsOwned f cs t k h =
      any-map f (λ c. same_id d c.id t.conversation_id) cs
      ∙ any-ext _ (λ c. same_id d c.id t.conversation_id) cs
          (λ c. ap (λ n. n == d.number t.conversation_id) (k c))
      ∙ h

  count_turn-key :
      (now : d.Time) (id : d.Ulid) (c : Conversation d)
      → conversation_key (count_turn d codec now id c) ≡ conversation_key c
  unfolding count_turn
  count_turn-key now id c = ground arith

  -- The ordinal 2 ^ 32 wraps around to 0, which is taken.
  pub not_full :
      (t : Turn d) (db : Tables d) (n : ℕ)
      → is_insertable d codec t db ≡ true
      → t.ordinal ≡ n % 2 ^ 32
      → HasTurns t.conversation_id n db
      → n < 2 ^ 32
  unfolding is_insertable
  not_full t db n q o v = elim (Bool-cases (ltb n (2 ^ 32))) [
    | inl l ↦ ltb→lt n (2 ^ 32) l
    | inr l ↦
        let taken =
          any_zero t.ordinal n (omega (arith, o, v.2, ltb→le n (2 ^ 32) l))
            (omega (arith, ltb→le n (2 ^ 32) l)) in
        let there =
          any-ordinals d codec t.conversation_id t.ordinal db.turns
          ∙ ap (any (λ p. p == t.ordinal)) v.1
          ∙ taken in
        absurd (taken_twice (sym there ∙ free))
  ]
    where
      taken_twice : true ≢ false
      taken_twice e = cc

      free :
          any (λ u. is_turn_of d codec t.conversation_id u && u.ordinal == t.ordinal) db.turns
          ≡ false
      free = ground (arith, q)

      any_zero : (o n : ℕ) → o ≡ 0 → 0 < n → any (λ p. p == o) (countdown n) ≡ true
      any_zero o zero e l = absurd (omega (arith, l))
      any_zero o (suc n) e l =
          subst (λ z. any (λ p. p == z) (countdown (suc n)) ≡ true) (sym e) (countdown-zero n)

  countdown-suc : (o n : ℕ) (os : List ℕ) → o ≡ n → os ≡ countdown n → (o ∷ os) ≡ countdown (suc n)
  unfolding countdown
  countdown-suc o n os e h = rw (e, h) refl

  ordinals-own :
      (t : Turn d) (ts : List (Turn d))
      → ordinals d codec t.conversation_id (t ∷ ts)
        ≡ t.ordinal ∷ ordinals d codec t.conversation_id ts
  ordinals-own t ts = ap (map (λ u. u.ordinal)) (
      filter_keep (is_turn_of d codec t.conversation_id) t ts
        (==_refl (d.number t.conversation_id)))

  count_turn-IsCounted :
      (now : d.Time) (t : Turn d) (ts : List (Turn d)) (n : ℕ) (c : Conversation d)
      → t.ordinal ≡ n
      → n < 2 ^ 32
      → ordinals d codec t.conversation_id ts ≡ countdown n
      → IsCounted ts c
      → IsCounted (t ∷ ts) (count_turn d codec now t.conversation_id c)
  unfolding count_turn
  count_turn-IsCounted now t ts n c o l h k = elim (Bool-cases (same_id d c.id t.conversation_id)) [
    | inl q ↦
        let same : c.id ≡ t.conversation_id =
          d.number_inj c.id t.conversation_id ((==_iff _ _).0 q) in
        let count : c.turn_count ≡ n =
          countdown_inj c.turn_count n (sym k.0 ∙ ap (λ i. ordinals d codec i ts) same ∙ h) in
        rw q (
          ap (λ i. ordinals d codec i (t ∷ ts)) same
              ∙ ordinals-own t ts
              ∙ next o h
              ∙ ap countdown (one_more count),
          omega (arith, count, l),
        )
    | inr q ↦ rw q (
      ap (map (λ u. u.ordinal)) (filter_drop (is_turn_of d codec c.id) t ts (other q)) ∙ k.0,
      k.1,
    )
  ]
    where
      next :
          t.ordinal ≡ n
          → ordinals d codec t.conversation_id ts ≡ countdown n
          → (t.ordinal ∷ ordinals d codec t.conversation_id ts) ≡ countdown (suc n)
      next o h = countdown-suc t.ordinal n _ o h

      one_more : c.turn_count ≡ n → suc n ≡ c.turn_count + 1
      one_more e = omega (arith, e)

      other : same_id d c.id t.conversation_id ≡ false → is_turn_of d codec c.id t ≡ false
      other q = ground (arith, q)

  pub insert_turn_row-HasTurns :
      (now : d.Time) (t : Turn d) (db : Tables d) (n : ℕ)
      → t.ordinal ≡ n % 2 ^ 32
      → HasTurns t.conversation_id n db
      → Holds (HasTurns t.conversation_id (suc n)) (insert_turn_row d codec now t db)
  unfolding insert_turn_row is_insertable
  insert_turn_row-HasTurns now t db n o v = elim (Bool-cases (is_insertable d codec t db)) [
    | inr q ↦ rw q tt
    | inl q ↦
        let less = not_full t db n q o v in
        let ordinal : t.ordinal ≡ n = omega (arith, o, less) in
        let marked = count_turn d codec now t.conversation_id in
        rw q (
          record {
            keyed =
                map-IsKeyed conversation_key marked db.conversations
                  (count_turn-key now t.conversation_id) v.0.keyed;
            counted = All-of-map marked (IsCounted (t ∷ db.turns)) db.conversations (
                All-map _ _ (λ c k. count_turn-IsCounted now t db.turns n c ordinal less v.1 k)
                  db.conversations v.0.counted);
            owned = (
              map-IsOwned marked db.conversations t (count_turn-key now t.conversation_id)
                  (ground (arith, q)),
              All-map _ _
                  (λ u h.
                    map-IsOwned marked db.conversations u (count_turn-key now t.conversation_id) h)
                  db.turns v.0.owned,
            );
          },
          ordinals-own t db.turns ∙ countdown-suc t.ordinal n _ ordinal v.1,
          omega (arith, less),
        )
  ]

  put_conversation-key :
      (c b : Conversation d)
      → conversation_key (
          if same_id d b.id c.id
          then record b {
            title = c.title;
            tags = c.tags;
            attrs = c.attrs;
            updated_at = c.updated_at;
          }
          else b)
        ≡ conversation_key b
  put_conversation-key c b = ground arith

  pub put_conversation-IsValid :
      (c : Conversation d) (db : Tables d)
      → IsValid db
      → IsValid (record db { conversations = put_conversation d codec c db.conversations })
  unfolding put_conversation
  put_conversation-IsValid c db v = record {
    keyed = map-IsKeyed conversation_key _ db.conversations (put_conversation-key c) v.keyed;
    counted =
        All-of-map _ (IsCounted db.turns) db.conversations
          (All-map _ _ (λ b h. same b h) db.conversations v.counted);
    owned =
        All-map _ _ (λ t h. map-IsOwned _ db.conversations t (put_conversation-key c) h) db.turns
          v.owned;
  }
    where
      same :
          (b : Conversation d)
          → IsCounted db.turns b
          → IsCounted db.turns (
              if same_id d b.id c.id
              then record b {
                title = c.title;
                tags = c.tags;
                attrs = c.attrs;
                updated_at = c.updated_at;
              }
              else b)
      same b h = elim (Bool-cases (same_id d b.id c.id)) [ inl q ↦ rw q h | inr q ↦ rw q h ]

  pub delete_conversation_row-IsValid :
      (id : d.Ulid) (db : Tables d) → IsValid db → IsValid (delete_conversation_row d codec id db)
  unfolding delete_conversation_row
  delete_conversation_row-IsValid id db v = record {
    keyed = filter-IsKeyed conversation_key _ db.conversations v.keyed;
    counted =
        All-map _ _ (λ c h. (others c h.0 ∙ h.1.0, h.1.1)) _
          (All-both _ _ _ (filter-All (λ c. not (same_id d c.id id)) db.conversations)
            (All-filter (IsCounted db.turns) _ db.conversations v.counted));
    owned =
        All-map _ _ (λ t h. kept t h.0 h.1) _
          (All-both _ _ _ (filter-All (λ t. not (is_turn_of d codec id t)) db.turns)
            (All-filter (IsOwned db.conversations) _ db.turns v.owned));
  }
    where
      others :
          (c : Conversation d)
          → not (same_id d c.id id) ≡ true
          → ordinals d codec c.id (filter (λ t. not (is_turn_of d codec id t)) db.turns)
            ≡ ordinals d codec c.id db.turns
      others c h = ap (map (λ t. t.ordinal)) (
          filter-filter (is_turn_of d codec c.id) _ db.turns
          ∙ filter-ext _ (is_turn_of d codec c.id) db.turns (λ t. ground (arith, h)))

      kept :
          (t : Turn d)
          → not (is_turn_of d codec id t) ≡ true
          → IsOwned db.conversations t
          → IsOwned (filter (λ c. not (same_id d c.id id)) db.conversations) t
      kept t h =
          any-filter (λ c. same_id d c.id t.conversation_id) _ db.conversations
            (λ c e. ground (arith, h, e))
