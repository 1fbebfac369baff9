-- ===== src/Channel/Tests.antt =====
-- Runs of the channel service on small tables.
use nomai.Base.{
  ℕ, ◌+◌, ◌≡◌, refl, Bool, true, none, some, [], ◌∷◌, ◌++◌, arith, ◌==◌, if◌then◌else◌, take, ok,
}
use nomai.Channel.Changes.{IsSend, send-queue, purge-queue}
use nomai.Channel.Model.{
  Deps, pos, ChannelMessage, SendMessage, RecvMessages, RecvResult, Tables, validate_attrs,
  validate_name,
}
use nomai.Channel.Queue.{IsName, IsRead, pending, Takes, recv-queue}
use nomai.Channel.Reachable.{no_rows, Reachable, start, followed, sent, received, Reachable-IsStore}
use nomai.Channel.Service.{
  after, read_cursor, send, append, recv, select, purge, read_after, in_channel, latest_seq,
  max_seq, find_cursor, put_cursor, write_cursor, has_id,
}
use nomai.Channel.Store.{IsStore, from_key}
use nomai.Text.{Text, codes, text_eq, len, len_utf8}

-- Ids and times are numbers, and a JSON value is the answer to "is it an object?".
abbrev numbers : Deps
numbers = record {
  Ulid = ℕ;
  Json = Bool;
  Time = ℕ;
  same_id = λ i j. i == j;
  is_object = λ b. b;
  empty_object = true;
}

abbrev hello : SendMessage numbers
hello = record {
  channel = codes "build";
  text = codes "hello";
  sender = some (codes "ci");
  attrs = none;
}

abbrev next : RecvMessages
next = record { channel = codes "build"; subscriber = some (codes "bob"); since = none; limit = 1 }

abbrev message : ℕ → Text → ChannelMessage numbers
message n s = record {
  seq = n;
  id = n;
  channel = codes "build";
  sender = codes "ci";
  text = s;
  attrs = true;
  created_at = 7;
}

abbrev one_row : Tables numbers
one_row = record { messages = message 1 (codes "hello") ∷ []; last_given = 1; cursors = [] }

abbrev read_row : Tables numbers
read_row = record one_row {
  cursors =
      record { channel = codes "build"; subscriber = codes "bob"; last_seq = 1; updated_at = 9 }
      ∷ [];
}

send-hello : send numbers hello 1 7 (no_rows numbers) ≡ ok (message 1 (codes "hello"), one_row)
unfolding send append validate_name validate_attrs has_id len len_utf8
send-hello = refl

recv_hello :
    recv numbers next 9 one_row
    ≡ ok (record { items = message 1 (codes "hello") ∷ []; latest = 1; cursor = 1 }, read_row)
unfolding recv select read_after after text_eq read_cursor find_cursor write_cursor put_cursor
    latest_seq in_channel max_seq validate_name len len_utf8
recv_hello = refl

build-IsName : IsName (codes "build")
unfolding len len_utf8
build-IsName = record { not_empty = refl; fits = omega arith }

bob-IsName : IsName (codes "bob")
unfolding len len_utf8
bob-IsName = record { not_empty = refl; fits = omega arith }

ci-IsName : IsName (codes "ci")
unfolding len len_utf8
ci-IsName = record { not_empty = refl; fits = omega arith }

next-IsRead : IsRead next (codes "bob")
next-IsRead = record {
  channel = build-IsName;
  subscriber_is = refl;
  subscriber_name = bob-IsName;
  no_since = refl;
  positive = omega arith;
  limited = omega arith;
}

hello-IsSend : IsSend numbers hello 2 read_row
unfolding has_id
hello-IsSend = record {
  channel = build-IsName;
  text = refl;
  sender = ci-IsName;
  attrs = tt;
  fresh = refl;
}

read_row-Reachable : Reachable numbers read_row
read_row-Reachable =
    followed (followed start (sent hello 1 7 (message 1 (codes "hello")) send-hello)) (
      received next 9 (record { items = message 1 (codes "hello") ∷ []; latest = 1; cursor = 1 })
        recv_hello)

Reachable-IsStore_example : IsStore numbers read_row
Reachable-IsStore_example = Reachable-IsStore numbers read_row read_row-Reachable

recv-queue_example :
    (r : RecvResult numbers) × (t' : Tables numbers) × (recv numbers next 9 one_row ≡ ok (r, t'))
    × (r.items ≡ take 1 (pending numbers one_row (codes "build") (codes "bob")))
    × (r.cursor ≡ read_cursor numbers t' (codes "build") (codes "bob"))
    × Takes numbers one_row t' (codes "build") (codes "bob") 1
recv-queue_example = recv-queue numbers next 9 one_row (codes "bob") (omega arith, tt) next-IsRead

send-queue_example :
    (m : ChannelMessage numbers) × (t' : Tables numbers) × (send numbers hello 2 8 read_row
      ≡ ok (m, t'))
    × (m.seq ≡ 1 + 1)
    × (m.text ≡ codes "hello")
    × IsStore numbers t'
    × ((channel subscriber : Text)
        → pending numbers t' channel subscriber ≡ (
            if text_eq (codes "build") channel
            then pending numbers read_row channel subscriber ++ m ∷ []
            else pending numbers read_row channel subscriber))
send-queue_example =
    send-queue numbers hello 2 8 read_row
      (record {
        climbs = (omega arith, tt);
        below = (omega arith, tt);
        cursors_below = (omega arith, tt);
      })
      hello-IsSend

purge-queue_example :
    (n : ℕ) × (t' : Tables numbers) × (purge numbers (codes "build") (pos 2) one_row ≡ ok (n, t'))
    × (t'.cursors ≡ [])
    × ((subscriber : Text)
        → pending numbers t' (codes "build") subscriber
          ≡ from_key numbers 2 (pending numbers one_row (codes "build") subscriber))
purge-queue_example = purge-queue numbers (codes "build") 1 one_row build-IsName
