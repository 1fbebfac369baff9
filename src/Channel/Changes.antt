-- ===== src/Channel/Changes.antt =====
-- Sending, purging and unsubscribing, as a subscriber sees them.
use nomai.Base.{
  ℕ, suc, ◌+◌, ◌-◌, ◌≤◌, ◌≡◌, refl, true, false, ◌&&◌, Option, none, some, [], ◌∷◌, ◌++◌, arith,
  if◌then◌else◌, is_empty, length, All-map, All-append, ok,
}
use nomai.Channel.Cursors.{find_cursor-below, find_cursor-delete, find_cursor-delete_other}
use nomai.Channel.Model.{Deps, pos, ChannelMessage, SendMessage, Tables, validate_attrs}
use nomai.Channel.Queue.{IsName, validate_name-IsName, pending}
use nomai.Channel.Service.{
  has_id, after, find_cursor, read_cursor, append, check_sender, send, delete_before, delete_cursor,
  purge, unsubscribe,
}
use nomai.Channel.Store.{IsStore, Climbs-append, after-append, from_key, after-delete_before}
use nomai.Text.{Text, codes, text_eq}

abbrev pub IsSender : Option Text → Type 0
IsSender none = Unit
IsSender (some s) = IsName s

module _ (d : Deps) where
  abbrev pub IsAttrs : Option d.Json → Type 0
  IsAttrs none = Unit
  IsAttrs (some a) = d.is_object a ≡ true

  -- A message that the service takes.
  pub record IsSend (p : SendMessage d) (id : d.Ulid) (t : Tables d) : Type 0 where
    pub channel : IsName p.channel
    pub text : is_empty p.text ≡ false
    pub sender : IsSender p.sender
    pub attrs : IsAttrs p.attrs
    pub fresh : has_id d id t.messages ≡ false

  abbrev pub sender_of : Option Text → Text
  sender_of none = []
  sender_of (some s) = s

  abbrev pub attrs_of : Option d.Json → d.Json
  attrs_of none = d.empty_object
  attrs_of (some a) = a

  check_sender-ok : (s : Option Text) → IsSender s → check_sender s ≡ ok (sender_of s)
  check_sender-ok none h = refl
  check_sender-ok (some s) h = validate_name-IsName (codes "sender") s h

  validate_attrs-ok : (a : Option d.Json) → IsAttrs a → validate_attrs d a ≡ ok (attrs_of a)
  unfolding validate_attrs
  validate_attrs-ok none h = refl
  validate_attrs-ok (some a) h = rw h

  send-append :
      (p : SendMessage d) (id : d.Ulid) (created_at : d.Time) (t : Tables d)
      → IsSend p id t
      → send d p id created_at t
        ≡ ok (append d p id created_at t p.channel (sender_of p.sender) (attrs_of p.attrs))
  unfolding send
  send-append p id created_at t h =
      rw (validate_name-IsName (codes "channel") p.channel h.channel) (
        rw (h.text, check_sender-ok p.sender h.sender)
          (rw (validate_attrs-ok p.attrs h.attrs) (rw h.fresh)))

  pub append-IsStore :
      (p : SendMessage d) (id : d.Ulid) (created_at : d.Time) (t : Tables d) (channel sender : Text)
      (attrs : d.Json)
      → IsStore d t
      → IsStore d (append d p id created_at t channel sender attrs).1
  unfolding append
  append-IsStore p id created_at t channel sender attrs h = record {
    climbs =
        Climbs-append d 0 t.last_given t.messages _ (omega arith) (omega arith) h.climbs h.below;
    below =
        All-append (λ m. m.seq ≤ t.last_given + 1) t.messages _
          (All-map (λ m. m.seq ≤ t.last_given) _ (λ m l. omega arith) t.messages h.below)
          (omega arith, tt);
    cursors_below =
        All-map (λ c. c.last_seq ≤ t.last_given) _ (λ c l. omega arith) t.cursors h.cursors_below;
  }

  -- Sending puts a message on every queue of its channel, and on no other. If the tables are well
  -- formed, a message with a name of 1 to 128 bytes for its channel (and for its sender, if it has
  -- one), some text, attributes that are an object if it has some, and an id that no stored
  -- message has, is taken. Its key is the next one after the last one given out; it becomes the
  -- last of the messages that each subscriber of the channel has not received, the queues of the
  -- other channels stay, and the tables are well formed again.
  pub send-queue :
      (p : SendMessage d) (id : d.Ulid) (created_at : d.Time) (t : Tables d)
      → IsStore d t
      → IsSend p id t
      → (m : ChannelMessage d) × (t' : Tables d) × (send d p id created_at t ≡ ok (m, t'))
        × (m.seq ≡ t.last_given + 1)
        × (m.text ≡ p.text)
        × IsStore d t'
        × ((channel subscriber : Text)
            → pending d t' channel subscriber ≡ (
                if text_eq p.channel channel
                then pending d t channel subscriber ++ m ∷ []
                else pending d t channel subscriber))
  unfolding pending append read_cursor
  send-queue p id created_at t s h = (
    (append d p id created_at t p.channel (sender_of p.sender) (attrs_of p.attrs)).0,
    (append d p id created_at t p.channel (sender_of p.sender) (attrs_of p.attrs)).1,
    send-append p id created_at t h,
    refl,
    refl,
    append-IsStore p id created_at t p.channel (sender_of p.sender) (attrs_of p.attrs) s,
    λ channel subscriber.
        let low = find_cursor-below d channel subscriber t.last_given t.cursors s.cursors_below in
        after-append d channel (find_cursor d channel subscriber t.cursors) t.messages _
          (omega arith),
  )

  -- Purging a channel takes the messages below the key `bound + 1` off the queues of that channel,
  -- for a name of 1 to 128 bytes: what a subscriber of the channel has not received afterwards
  -- is what it had not received before, from that key on, and the cursors stay.
  pub purge-queue :
      (channel : Text) (bound : ℕ) (t : Tables d)
      → IsName channel
      → (n : ℕ) × (t' : Tables d) × (purge d channel (pos (suc bound)) t ≡ ok (n, t'))
        × (t'.cursors ≡ t.cursors)
        × ((subscriber : Text)
            → pending d t' channel subscriber
              ≡ from_key d (suc bound) (pending d t channel subscriber))
  unfolding pending purge read_cursor
  purge-queue channel bound t h = (
    length t.messages - length (delete_before d channel (suc bound) t.messages),
    record t { messages = delete_before d channel (suc bound) t.messages },
    rw (validate_name-IsName (codes "channel") channel h),
    refl,
    λ subscriber.
        after-delete_before d channel (suc bound) (find_cursor d channel subscriber t.cursors)
          t.messages,
  )

  -- After an unsubscription, for names of 1 to 128 bytes, the subscriber's queue is all of the
  -- stored messages of the channel above key 0, and the other queues and the log stay.
  unsubscribe-queue :
      (channel subscriber : Text) (t : Tables d)
      → IsName channel
      → IsName subscriber
      → (n : ℕ) × (t' : Tables d) × (unsubscribe d channel subscriber t ≡ ok (n, t'))
        × (t'.messages ≡ t.messages)
        × (pending d t' channel subscriber ≡ after d channel 0 t.messages)
        × ((channel' subscriber' : Text)
            → (text_eq channel channel' && text_eq subscriber subscriber') ≡ false
            → pending d t' channel' subscriber' ≡ pending d t channel' subscriber')
  unfolding pending unsubscribe read_cursor
  unsubscribe-queue channel subscriber t h k = (
    length t.cursors - length (delete_cursor d channel subscriber t.cursors),
    record t { cursors = delete_cursor d channel subscriber t.cursors },
    rw (validate_name-IsName (codes "channel") channel h)
        (rw (validate_name-IsName (codes "subscriber") subscriber k)),
    refl,
    rw (find_cursor-delete d channel subscriber t.cursors),
    λ channel' subscriber' e.
        rw (find_cursor-delete_other d channel subscriber channel' subscriber' t.cursors e),
  )
