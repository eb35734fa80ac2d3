-- ===== src/Rest/Draining.antt =====
-- How many events `HandleKindEvents` takes (internal/api/rest.go).
use mercury_relay.Prelude.{
  ℕ, zero, suc, ◌+◌, ◌≤◌, String, ◌≡◌, ◌⊎◌, inl, inr, List, [], ◌∷◌, ◌++◌, ℤ, length, length-append,
  arith, Option-cases, Sum-cases,
}
use mercury_relay.Prelude.Decimal.{atoi}
use mercury_relay.Models.Event.{Event}
use mercury_relay.Models.Codec.{Codec}
use mercury_relay.Queue.{Queue}
use mercury_relay.Queue.Rabbit.{Amqp, RabbitConfig}
use mercury_relay.Queue.Rabbit.Kinds.{Directory}
use mercury_relay.Queue.Rabbit.Operations.{rabbit_queue, consume_from, consume_events_by_kind}
use mercury_relay.Rest.Kinds.{KindEvents, kind_limit, consume_up_to, handle_kind_events}

-- The events of an answer.
abbrev pub size_of : {E A : Type 0} → E ⊎ List A → ℕ
size_of (inl err) = 0
size_of (inr events) = length events

kind_limit_le : (text : String) → kind_limit text ≤ 100
unfolding kind_limit
kind_limit_le text = ground arith

module _ {F : Type 0} (Q : Queue F) (kind : ℤ) where
  -- The queue gives at most one event at a time.
  abbrev pub IsSingle : Type 0
  IsSingle = (q : Q.State) → size_of (Q.consume_events_by_kind kind q).1 ≤ 1

  answered :
      (n : ℕ) (q : Q.State) (events got : List (Event F))
      → (Q.consume_events_by_kind kind q).1 ≡ inr got
      → length got ≤ 1
      → ((q' : Q.State) (sofar : List (Event F))
          → length (consume_up_to Q n kind q' sofar).1 ≤ length sofar + n)
      → length (consume_up_to Q (suc n) kind q events).1 ≤ length events + suc n
  unfolding consume_up_to
  answered n q events [] e small ih = rw (consume_up_to, e) (omega arith)
  answered n q events (x ∷ xs) e small ih =
      rw (consume_up_to, e)
        (omega (
          arith,
          ih (Q.consume_events_by_kind kind q).0 (events ++ x ∷ xs),
          length-append events (x ∷ xs),
        ))

  consume_up_to-length :
      IsSingle
      → (n : ℕ) (q : Q.State) (events : List (Event F))
      → length (consume_up_to Q n kind q events).1 ≤ length events + n
  unfolding consume_up_to
  consume_up_to-length one zero q events = omega arith
  consume_up_to-length one (suc n) q events = elim (Sum-cases (Q.consume_events_by_kind kind q).1) [
    | inl (err, e) ↦ rw (consume_up_to, e) (omega arith)
    | inr (got, e) ↦ answered n q events got e (ground (arith, one q)) (consume_up_to-length one n)
  ]

module _ {F : Type 0} (A : Amqp) (codec : Codec F) (config : RabbitConfig) (dir : Directory)
    (now : ℕ) where
  rabbit_queue-IsSingle : (kind : ℤ) → IsSingle (rabbit_queue A codec config dir now) kind
  unfolding consume_events_by_kind consume_from
  rabbit_queue-IsSingle kind q = ground arith

  -- Over RabbitMQ, a reply of `HandleKindEvents` has at most 100 events, and counts them right.
  pub handle_kind_events-length :
      (kind limit : String) (q : A.State) {reply : KindEvents F}
      → (handle_kind_events (rabbit_queue A codec config dir now) kind limit q).1 ≡ inr reply
      → (length reply.events ≤ 100) × (reply.count ≡ length reply.events)
  unfolding handle_kind_events
  handle_kind_events-length kind limit q h = elim (Option-cases (atoi kind)) [
    | inl e ↦ absurd (ground arith)
    | inr (k, e) ↦ ground (
      arith,
      kind_limit_le limit,
      consume_up_to-length (rabbit_queue A codec config dir now) k (rabbit_queue-IsSingle k)
          (kind_limit limit) q [],
    )
  ]
