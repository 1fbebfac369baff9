-- ===== src/Channel/Service.antt =====
-- crates/core/src/channel_service.rs. A method takes the tables, and what the clock and the id
-- generator give, and returns the new tables beside its result.
use Prim.Native.Nat.{max}
use mathlib.Core.List.{reverse}
use nomai.Base.{
  ℕ, suc, ◌+◌, ◌-◌, Bool, true, false, ◌&&◌, ◌||◌, Option, none, some, List, [], ◌∷◌, ◌++◌, ltb,
  ◌==◌, if◌then◌else◌, is_empty, length, take, last?, Result, ok, err, ◌>>=◌, ◌>>◌,
}
use nomai.Channel.Model.{
  Deps, ℤ, pos, negsuc, CoreError, validation, channel_limit_max, ChannelMessage, SendMessage,
  RecvMessages, RecvResult, Cursor, Tables, validate_name, validate_attrs,
}
use nomai.Text.{Text, codes, text_eq}

abbrev pub check : Bool → Text → Result CoreError (Unit {0})
check bad message = if bad then err (validation message) else ok tt

abbrev pub both : Option Text → Option ℤ → Bool
both (some s) (some i) = true
both _ _ = false

-- `since`, if it is not negative
abbrev pub check_since : Option ℤ → Result CoreError (Option ℕ)
check_since none = ok none
check_since (some (pos n)) = ok (some n)
check_since (some (negsuc n)) = err (validation (codes "since must be >= 0"))

abbrev pub check_sender : Option Text → Result CoreError Text
check_sender none = ok []
check_sender (some s) = validate_name (codes "sender") s

abbrev pub check_subscriber : Option Text → Result CoreError (Option Text)
check_subscriber none = ok none
check_subscriber (some s) = do s' ← validate_name (codes "subscriber") s; ok (some s')

abbrev pub check_bound : ℤ → Result CoreError ℕ
check_bound (pos (suc n)) = ok (suc n)
check_bound _ = err (validation (codes "before_seq must be a positive integer"))

module _ (d : Deps) where
  abbrev pub Messages : Type 0
  Messages = List (ChannelMessage d)

  -- `id TEXT NOT NULL UNIQUE`
  unfoldable pub has_id : d.Ulid → Messages → Bool
  has_id i [] = false
  has_id i (m ∷ ms) = d.same_id m.id i || has_id i ms

  -- `WHERE channel = ?1 AND seq > ?2`, in the order of `seq`
  unfoldable pub after : Text → ℕ → Messages → Messages
  after channel from [] = []
  after channel from (m ∷ ms) =
      let rest = after channel from ms in
      if text_eq m.channel channel && ltb from m.seq then m ∷ rest else rest

  -- `WHERE channel = ?1`
  unfoldable pub in_channel : Text → Messages → Messages
  in_channel channel [] = []
  in_channel channel (m ∷ ms) =
      let rest = in_channel channel ms in if text_eq m.channel channel then m ∷ rest else rest

  unfoldable pub read_after : Tables d → Text → ℕ → ℕ → Messages
  read_after t channel from limit = take limit (after channel from t.messages)

  -- The newest messages, the last one first.
  unfoldable pub read_tail : Tables d → Text → ℕ → Messages
  read_tail t channel limit = take limit (reverse (in_channel channel t.messages))

  -- `SELECT MAX(seq) … .unwrap_or(0)`
  unfoldable pub max_seq : Messages → ℕ
  max_seq [] = 0
  max_seq (m ∷ ms) = max m.seq (max_seq ms)

  unfoldable pub latest_seq : Tables d → Text → ℕ
  latest_seq t channel = max_seq (in_channel channel t.messages)

  abbrev pub is_cursor : Text → Text → Cursor d → Bool
  is_cursor channel subscriber c = text_eq c.channel channel && text_eq c.subscriber subscriber

  unfoldable pub find_cursor : Text → Text → List (Cursor d) → ℕ
  find_cursor channel subscriber [] = 0
  find_cursor channel subscriber (c ∷ cs) =
      if is_cursor channel subscriber c then c.last_seq else find_cursor channel subscriber cs

  unfoldable pub read_cursor : Tables d → Text → Text → ℕ
  read_cursor t channel subscriber = find_cursor channel subscriber t.cursors

  -- `INSERT … ON CONFLICT(channel, subscriber) DO UPDATE SET last_seq = MAX(last_seq, …)`
  unfoldable pub put_cursor : Text → Text → ℕ → d.Time → List (Cursor d) → List (Cursor d)
  put_cursor channel subscriber seq now [] =
      record { channel = channel; subscriber = subscriber; last_seq = seq; updated_at = now } ∷ []
  put_cursor channel subscriber seq now (c ∷ cs) =
      let rest = put_cursor channel subscriber seq now cs in
      if is_cursor channel subscriber c
      then record c { last_seq = max c.last_seq seq; updated_at = now } ∷ cs
      else c ∷ rest

  unfoldable pub write_cursor : Tables d → Text → Text → ℕ → d.Time → Tables d
  write_cursor t channel subscriber seq now = record t {
    cursors = put_cursor channel subscriber seq now t.cursors;
  }

  unfoldable pub append :
      SendMessage d
      → d.Ulid
      → d.Time
      → Tables d
      → Text
      → Text
      → d.Json
      → ChannelMessage d × Tables d
  append p id created_at t channel sender attrs =
      let m : ChannelMessage d = record {
        seq = t.last_given + 1;
        id = id;
        channel = channel;
        sender = sender;
        text = p.text;
        attrs = attrs;
        created_at = created_at;
      } in
      (m, record t { messages = t.messages ++ m ∷ []; last_given = t.last_given + 1 })

  unfoldable pub send :
      SendMessage d → d.Ulid → d.Time → Tables d → Result CoreError (ChannelMessage d × Tables d)
  send p id created_at t = do
    channel ← validate_name (codes "channel") p.channel
    check (is_empty p.text) (codes "message text must not be empty")
    sender ← check_sender p.sender
    attrs ← validate_attrs d p.attrs
    check (has_id id t.messages) (codes "constraint violation")
    ok (append p id created_at t channel sender attrs)

  -- The match of `recv`: the items and the cursor, and the tables.
  unfoldable pub select :
      Text → Option Text → Option ℕ → ℕ → d.Time → Tables d → Messages × ℕ × Tables d
  select channel (some sub) none limit now t =
      let from = read_cursor t channel sub in
      let items = read_after t channel from limit in
      elim (last? items) [
        | some m ↦ (items, m.seq, write_cursor t channel sub m.seq now)
        | none ↦ (items, from, t)
      ]
  select channel none (some since) limit now t =
      let items = read_after t channel since limit in
      (items, elim (last? items) [ some m ↦ m.seq | none ↦ 0 ], t)
  select channel none none limit now t =
      let items = reverse (read_tail t channel limit) in
      (items, elim (last? items) [ some m ↦ m.seq | none ↦ 0 ], t)
  select channel (some sub) (some since) limit now t = ([], 0, t)

  abbrev pub finish : Text → Messages × ℕ × Tables d → RecvResult d × Tables d
  finish channel (items, cursor, t') =
      (record { items = items; latest = latest_seq t' channel; cursor = cursor }, t')

  unfoldable pub recv :
      RecvMessages → d.Time → Tables d → Result CoreError (RecvResult d × Tables d)
  recv p now t = do
    channel ← validate_name (codes "channel") p.channel
    check (both p.subscriber p.since) (codes "subscriber and since are mutually exclusive")
    check (p.limit == 0 || ltb channel_limit_max p.limit) (codes "limit must be 1..=200")
    since ← check_since p.since
    subscriber ← check_subscriber p.subscriber
    ok (finish channel (select channel subscriber since p.limit now t))

  -- `DELETE … WHERE channel = ?1 AND seq < ?2`
  unfoldable pub delete_before : Text → ℕ → Messages → Messages
  delete_before channel bound [] = []
  delete_before channel bound (m ∷ ms) =
      let rest = delete_before channel bound ms in
      if text_eq m.channel channel && ltb m.seq bound then rest else m ∷ rest

  unfoldable pub delete_cursor : Text → Text → List (Cursor d) → List (Cursor d)
  delete_cursor channel subscriber [] = []
  delete_cursor channel subscriber (c ∷ cs) =
      let rest = delete_cursor channel subscriber cs in
      if is_cursor channel subscriber c then rest else c ∷ rest

  unfoldable pub purge : Text → ℤ → Tables d → Result CoreError (ℕ × Tables d)
  purge channel before_seq t = do
    channel' ← validate_name (codes "channel") channel
    bound ← check_bound before_seq
    let kept = delete_before channel' bound t.messages
    ok (length t.messages - length kept, record t { messages = kept })

  unfoldable pub unsubscribe : Text → Text → Tables d → Result CoreError (ℕ × Tables d)
  unsubscribe channel subscriber t = do
    channel' ← validate_name (codes "channel") channel
    subscriber' ← validate_name (codes "subscriber") subscriber
    let kept = delete_cursor channel' subscriber' t.cursors
    ok (length t.cursors - length kept, record t { cursors = kept })
