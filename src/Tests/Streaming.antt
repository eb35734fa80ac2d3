-- ===== src/Tests/Streaming.antt =====
-- Examples for internal/streaming.
use mercury_relay.Prelude.{ℕ, ◌≡◌, refl, true, false, none, [], ◌∷◌, pos, lookup, insert, arith}
use mercury_relay.Prelude.Json
use mercury_relay.Models.Event.{NostrEvent, to_nostr_event, validate, calculate_quality_score}
use mercury_relay.Quality.RateLimit.{check_rate_limit, clean}
use mercury_relay.Quality.Controller.{graded, kind_error}
use mercury_relay.Quality.Controller.Verdict.{GoesThrough}
use mercury_relay.Streaming.Messages.{Shared, parse_upstream_event, handle_upstream_message}
use mercury_relay.Streaming.Published.{
  Cached, handle_upstream_message_passed, handle_upstream_message-Cached,
}
use mercury_relay.Streaming.Tags.{object_of_event, parse_upstream_event-object_of_event}
use mercury_relay.Streaming.Connections.{UpstreamConnection}
use mercury_relay.Streaming.Locks
use mercury_relay.Streaming.Locks.{State, write_at, removing, waiting, Steps, done, then}
use mercury_relay.Streaming.Deadlock.{IsStuck, Steps-IsStuck}
use mercury_relay.Tests.Data.{
  fixed, stdlib, fifo, store, quality, upstream_fields, upstream_items, noon,
}

abbrev shared : Shared fixed stdlib fifo store
shared = record { quality_control = quality; queue = []; cache = [] }

valid : validate noon noon (parse_upstream_event fixed upstream_fields) ≡ none
unfolding validate parse_upstream_event Json.get
valid = refl

through : GoesThrough fixed stdlib fifo noon quality [] (parse_upstream_event fixed upstream_fields)
unfolding parse_upstream_event Json.get check_rate_limit clean lookup insert kind_error graded
    calculate_quality_score
through = record {
  not_blocked = refl;
  within_rate = refl;
  within_length = omega arith;
  kind_accepted = refl;
  queue_accepted = refl;
}

handle_upstream_message_passed_example :
    let g = graded fixed stdlib quality (parse_upstream_event fixed upstream_fields) in
    let after =
      (handle_upstream_message fixed stdlib fifo store noon noon noon "upstream" shared).0 in
    (after.queue ≡ (fifo.publish_event g (fifo.publish_event g []).0).0) × (after.cache ≡ g ∷ [])
handle_upstream_message_passed_example =
    handle_upstream_message_passed fixed stdlib fifo store noon noon noon "upstream" "sub"
      upstream_items upstream_fields [] shared refl refl valid through

handle_upstream_message-Cached_example :
    Cached fixed stdlib fifo store noon noon noon shared
      (handle_upstream_message fixed stdlib fifo store noon noon noon "upstream" shared).0.cache
handle_upstream_message-Cached_example =
    handle_upstream_message-Cached fixed stdlib fifo store noon noon noon "upstream" shared

-- A message with a relay's hint in its tag.
abbrev hinted : NostrEvent
hinted = record {
  id = "id";
  pub_key = "alice";
  created_at = pos 1000;
  kind = pos 4;
  tags = ("p" ∷ "bob" ∷ "wss://relay" ∷ []) ∷ ("t" ∷ []) ∷ [];
  content = "hello";
  sig = "good";
}

parse_upstream_event-object_of_event_example :
    to_nostr_event (parse_upstream_event fixed (object_of_event fixed hinted))
    ≡ record hinted { tags = ("p" ∷ "bob" ∷ []) ∷ [] }
parse_upstream_event-object_of_event_example =
    parse_upstream_event-object_of_event fixed hinted refl refl

abbrev old_conn : UpstreamConnection ℕ
old_conn = record { url = "wss://a"; conn = 7; active = true; last_ping = 5; subscriptions = [] }

abbrev stuck_state : State ℕ
stuck_state = record {
  monitor = removing "wss://a" [];
  readers = 0;
  writer = false;
  connections = ("wss://a", 0) ∷ [];
  heap = λ ref. old_conn;
}

-- The connection answers a ping after all, and another goroutine reads the map.
abbrev stuck_later : State ℕ
stuck_later = record stuck_state {
  readers = 1;
  heap = write_at 0 (record old_conn { last_ping = 60 }) (λ ref. old_conn);
}

late-Steps : Steps (pos 9) stuck_state stuck_later
late-Steps =
    then (Locks.read_lock stuck_state refl)
      (then (Locks.pinged (record stuck_state { readers = 1 }) 0 60) done)

Steps-IsStuck_example : IsStuck (pos 9) "wss://a" [] (("wss://a", 0) ∷ []) stuck_later
Steps-IsStuck_example =
    Steps-IsStuck (pos 9) "wss://a" [] (("wss://a", 0) ∷ [])
      (record { at = refl; unwritten = refl; unchanged = refl }) late-Steps
