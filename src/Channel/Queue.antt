-- ===== src/Channel/Queue.antt =====
-- What a subscriber of a channel sees: a queue of messages, `pending`.
use nomai.Base.{
  ℕ, ◌≤◌, ◌<◌, ◌≡◌, refl, sym, ap, ◌∙◌, inl, inr, false, ◌&&◌, ◌||◌, none, some, arith, ltb, ◌==◌,
  is_empty, take, drop, last?, last?-none, drop-of-take, Option-cases, ok,
}
use nomai.Channel.Cursors.{find_cursor-put, find_cursor-put_other}
use nomai.Channel.Model.{Deps, ChannelMessage, RecvMessages, RecvResult, Tables, validate_name}
use nomai.Channel.Order.{Climbs, after-take, last-from}
use nomai.Channel.Service.{
  Messages, after, read_after, read_cursor, find_cursor, latest_seq, write_cursor, select, finish,
  recv,
}
use nomai.Text.{Text, codes, text_eq, len}

-- A name that the service takes: not empty, at most 128 bytes.
pub record IsName (s : Text) : Type 0 where
  pub not_empty : is_empty s ≡ false
  pub fits : len s ≤ 128

pub validate_name-IsName : (field s : Text) → IsName s → validate_name field s ≡ ok s
unfolding validate_name
validate_name-IsName field s h =
    let e : ltb 128 (len s) ≡ false = ground (arith, h.fits) in rw (h.not_empty, e)

-- A request for the next messages of a subscriber.
pub record IsRead (p : RecvMessages) (subscriber : Text) : Type 0 where
  pub channel : IsName p.channel
  pub subscriber_is : p.subscriber ≡ some subscriber
  pub subscriber_name : IsName subscriber
  pub no_since : p.since ≡ none
  pub positive : 1 ≤ p.limit
  pub limited : p.limit ≤ 200

module _ (d : Deps) where
  -- The messages of a channel that a subscriber has not received.
  unfoldable pub pending : Tables d → Text → Text → Messages d
  pending t channel subscriber = after d channel (read_cursor d t channel subscriber) t.messages

  -- Taking a message off the queue of one subscriber.
  pub record Takes (t t' : Tables d) (channel subscriber : Text) (n : ℕ) : Type 0 where
    pub rest : pending t' channel subscriber ≡ drop n (pending t channel subscriber)
    pub log : t'.messages ≡ t.messages
    pub others :
        (channel' subscriber' : Text)
        → (text_eq channel channel' && text_eq subscriber subscriber') ≡ false
        → pending t' channel' subscriber' ≡ pending t channel' subscriber'

  read_cursor-write :
      (t : Tables d) (channel subscriber : Text) (n : ℕ) (now : d.Time) (m : ChannelMessage d)
      → last? (take n (pending t channel subscriber)) ≡ some m
      → read_cursor d (write_cursor d t channel subscriber m.seq now) channel subscriber ≡ m.seq
  unfolding pending write_cursor read_cursor
  read_cursor-write t channel subscriber n now m e =
      let from = find_cursor d channel subscriber t.cursors in
      let above : from < m.seq = last-from d channel from n t.messages m e in
      find_cursor-put d channel subscriber m.seq now t.cursors ∙ omega arith

  write_cursor-Takes :
      (t : Tables d) (channel subscriber : Text) (n : ℕ) (now : d.Time) (m : ChannelMessage d)
      → Climbs d 0 t.messages
      → last? (take n (pending t channel subscriber)) ≡ some m
      → Takes t (write_cursor d t channel subscriber m.seq now) channel subscriber n
  unfolding pending write_cursor
  write_cursor-Takes t channel subscriber n now m c e = record {
    rest =
        ap (λ from. after d channel from t.messages)
          (read_cursor-write t channel subscriber n now m e)
        ∙ after-take d channel (read_cursor d t channel subscriber) 0 n t.messages m c e;
    log = refl;
    others = λ channel' subscriber' h.
        unfold read_cursor in
        rw (find_cursor-put_other d channel subscriber channel' subscriber' m.seq now t.cursors h);
  }

  recv-select :
      (p : RecvMessages) (now : d.Time) (t : Tables d) (subscriber : Text)
      → IsRead p subscriber
      → recv d p now t
        ≡ ok (finish d p.channel (select d p.channel (some subscriber) none p.limit now t))
  unfolding recv
  recv-select p now t subscriber h =
      let limited : (p.limit == 0 || ltb 200 p.limit) ≡ false =
        ground (arith, h.positive, h.limited) in
      rw (validate_name-IsName (codes "channel") p.channel h.channel) (
        rw (h.subscriber_is, h.no_since, limited)
          (rw (validate_name-IsName (codes "subscriber") subscriber h.subscriber_name)))

  select-take :
      (channel subscriber : Text) (limit : ℕ) (now : d.Time) (t : Tables d)
      → Climbs d 0 t.messages
      → (cursor : ℕ) × (t' : Tables d) × (select d channel (some subscriber) none limit now t
          ≡ (take limit (pending t channel subscriber), cursor, t'))
        × (cursor ≡ read_cursor d t' channel subscriber)
        × Takes t t' channel subscriber limit
  unfolding select pending read_after
  select-take channel subscriber limit now t c =
      elim (Option-cases (last? (take limit (pending t channel subscriber)))) [
        | inl e ↦
            let empty = last?-none (take limit (pending t channel subscriber)) e in
            (
              read_cursor d t channel subscriber,
              t,
              rw (e, select),
              refl,
              record {
                rest = sym (drop-of-take limit (pending t channel subscriber) empty);
                log = refl;
                others = λ channel' subscriber' h. refl;
              },
            )
        | inr (m, e) ↦ (
          m.seq,
          write_cursor d t channel subscriber m.seq now,
          rw (e, select),
          sym (read_cursor-write t channel subscriber limit now m e),
          write_cursor-Takes t channel subscriber limit now m c e,
        )
      ]

  -- A subscriber reads a channel as a queue. If the keys of the log grow, a request for a
  -- subscriber's next messages, with a name of 1 to 128 bytes for the channel and for the
  -- subscriber, no `since` and a limit of 1 to 200, succeeds. It gives the first `limit` messages
  -- of those that the subscriber has not received and leaves the others, it changes neither the
  -- log nor what another subscription has not received, and the cursor that it gives is the
  -- stored one.
  pub recv-queue :
      (p : RecvMessages) (now : d.Time) (t : Tables d) (subscriber : Text)
      → Climbs d 0 t.messages
      → IsRead p subscriber
      → (r : RecvResult d) × (t' : Tables d) × (recv d p now t ≡ ok (r, t'))
        × (r.items ≡ take p.limit (pending t p.channel subscriber))
        × (r.cursor ≡ read_cursor d t' p.channel subscriber)
        × Takes t t' p.channel subscriber p.limit
  recv-queue p now t subscriber c h =
      let (cursor, t', run, at_cursor, takes) = select-take p.channel subscriber p.limit now t c in
      (
        record {
          items = take p.limit (pending t p.channel subscriber);
          latest = latest_seq d t' p.channel;
          cursor = cursor;
        },
        t',
        recv-select p now t subscriber h ∙ ap (λ s. ok (finish d p.channel s)) run,
        refl,
        at_cursor,
        takes,
      )
