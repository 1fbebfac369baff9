-- ===== src/Channel/Reachable.antt =====
-- The tables that the service can reach, by any sequence of calls.
use nomai.Base.{
  ℕ, ◌≡◌, inl, inr, Option, none, some, [], ◌||◌, ◌==◌, ltb, is_empty, Holds, Holds-bind, Holds-ok,
  Result, ok, last?, Option-cases,
}
use nomai.Channel.Changes.{append-IsStore}
use nomai.Channel.Cursors.{put_cursor-below, delete_cursor-below}
use nomai.Channel.Model.{
  Deps, ℤ, CoreError, ChannelMessage, SendMessage, RecvMessages, RecvResult, Tables, validate_name,
  validate_attrs, channel_limit_max,
}
use nomai.Channel.Order.{last-below}
use nomai.Channel.Service.{
  check, both, check_sender, check_since, check_subscriber, check_bound, has_id, read_after,
  read_cursor, write_cursor, send, select, recv, purge, unsubscribe,
}
use nomai.Channel.Store.{IsStore, delete_before-Climbs, delete_before-IsBelow}
use nomai.Text.{Text, codes}

module _ (d : Deps) where
  -- A call that succeeds. One that fails returns before it writes.
  pub data Step (t t' : Tables d) : Type 0 where
    sent :
        (p : SendMessage d) (id : d.Ulid) (created_at : d.Time) (m : ChannelMessage d)
        → send d p id created_at t ≡ ok (m, t')
        → Step t t'
    received :
        (p : RecvMessages) (now : d.Time) (r : RecvResult d)
        → recv d p now t ≡ ok (r, t')
        → Step t t'
    purged :
        (channel : Text) (before_seq : ℤ) (n : ℕ)
        → purge d channel before_seq t ≡ ok (n, t')
        → Step t t'
    unsubscribed :
        (channel subscriber : Text) (n : ℕ)
        → unsubscribe d channel subscriber t ≡ ok (n, t')
        → Step t t'

  abbrev pub no_rows : Tables d
  no_rows = record { messages = []; last_given = 0; cursors = [] }

  pub data Reachable : Tables d → Type 0 where
    start : Reachable no_rows
    followed : {t t' : Tables d} → Reachable t → Step t t' → Reachable t'

  abbrev KeepsStore : {A : Type 0} → Result CoreError (A × Tables d) → Type 0
  KeepsStore r = Holds (λ o. IsStore d o.1) r

  send-IsStore :
      (p : SendMessage d) (id : d.Ulid) (created_at : d.Time) (t : Tables d)
      → IsStore d t
      → KeepsStore (send d p id created_at t)
  unfolding send
  send-IsStore p id created_at t s =
      Holds-bind _ (validate_name (codes "channel") p.channel) _ λ channel.
        Holds-bind _ (check (is_empty p.text) _) _ λ _.
          Holds-bind _ (check_sender p.sender) _ λ sender.
            Holds-bind _ (validate_attrs d p.attrs) _ λ attrs.
              Holds-bind _ (check (has_id d id t.messages) _) _
                λ _. append-IsStore d p id created_at t channel sender attrs s

  select-IsStore :
      (channel : Text) (subscriber : Option Text) (since : Option ℕ) (limit : ℕ) (now : d.Time)
      (t : Tables d)
      → IsStore d t
      → IsStore d (select d channel subscriber since limit now t).2
  unfolding select write_cursor
  select-IsStore channel none none limit now t s = s
  select-IsStore channel none (some n) limit now t s = s
  select-IsStore channel (some sub) (some n) limit now t s = s
  select-IsStore channel (some sub) none limit now t s =
      elim (Option-cases (last? (read_after d t channel (read_cursor d t channel sub) limit))) [
        | inl e ↦ rw (e, select) s
        | inr (m, e) ↦
            rw (e, select)
              (record {
                climbs = s.climbs;
                below = s.below;
                cursors_below =
                    put_cursor-below d channel sub m.seq t.last_given now t.cursors
                      (unfold read_after in
                        last-below d channel (read_cursor d t channel sub) limit t.last_given
                          t.messages m s.below e)
                      s.cursors_below;
              })
      ]

  recv-IsStore :
      (p : RecvMessages) (now : d.Time) (t : Tables d) → IsStore d t → KeepsStore (recv d p now t)
  unfolding recv
  recv-IsStore p now t s = Holds-bind _ (validate_name (codes "channel") p.channel) _ λ channel.
      Holds-bind _ (check (both p.subscriber p.since) _) _ λ _.
        Holds-bind _ (check (p.limit == 0 || ltb channel_limit_max p.limit) _) _ λ _.
          Holds-bind _ (check_since p.since) _ λ since.
            Holds-bind _ (check_subscriber p.subscriber) _
              λ subscriber. select-IsStore channel subscriber since p.limit now t s

  purge-IsStore :
      (channel : Text) (before_seq : ℤ) (t : Tables d)
      → IsStore d t
      → KeepsStore (purge d channel before_seq t)
  unfolding purge
  purge-IsStore channel before_seq t s =
      Holds-bind _ (validate_name (codes "channel") channel) _ λ channel'.
        Holds-bind _ (check_bound before_seq) _ λ bound. record {
          climbs = delete_before-Climbs d channel' bound 0 t.messages s.climbs;
          below = delete_before-IsBelow d channel' bound t.last_given t.messages s.below;
          cursors_below = s.cursors_below;
        }

  unsubscribe-IsStore :
      (channel subscriber : Text) (t : Tables d)
      → IsStore d t
      → KeepsStore (unsubscribe d channel subscriber t)
  unfolding unsubscribe
  unsubscribe-IsStore channel subscriber t s =
      Holds-bind _ (validate_name (codes "channel") channel) _ λ channel'.
        Holds-bind _ (validate_name (codes "subscriber") subscriber) _ λ subscriber'. record {
          climbs = s.climbs;
          below = s.below;
          cursors_below =
              delete_cursor-below d channel' subscriber' t.last_given t.cursors s.cursors_below;
        }

  Step-IsStore : {t t' : Tables d} → Step t t' → IsStore d t → IsStore d t'
  Step-IsStore {t} (sent p id created_at m h) s = Holds-ok _ h (send-IsStore p id created_at t s)
  Step-IsStore {t} (received p now r h) s = Holds-ok _ h (recv-IsStore p now t s)
  Step-IsStore {t} (purged channel before_seq n h) s =
      Holds-ok _ h (purge-IsStore channel before_seq t s)
  Step-IsStore {t} (unsubscribed channel subscriber n h) s =
      Holds-ok _ h (unsubscribe-IsStore channel subscriber t s)

  -- Whatever sequence of sends, reads, purges and unsubscriptions the service has run since its
  -- tables were empty, the keys of the stored messages grow, and no key and no cursor is above the
  -- last key given out.
  pub Reachable-IsStore : (t : Tables d) → Reachable t → IsStore d t
  Reachable-IsStore _ start = record { climbs = tt; below = tt; cursors_below = tt }
  Reachable-IsStore t (followed r step) = Step-IsStore step (Reachable-IsStore _ r)
