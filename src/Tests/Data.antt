-- ===== src/Tests/Data.antt =====
-- Concrete numbers, libraries, queues and events for the examples.
use mercury_relay.Prelude.{
  ℕ, ◌+◌, ◌-◌, ◌*◌, ◌/◌, String, str_eq, ◌≡◌, refl, Bool, false, ◌⊎◌, inr, Option, none, some, List,
  [], ◌∷◌, ◌++◌, ℤ, length, pos, negsuc, ltb, arith, if◌then◌else◌,
}
use mercury_relay.Prelude.Float.{Float, IsIeee, Term, plus, minus, float_sum, exact_sum}
use mercury_relay.Prelude.Json
use mercury_relay.Prelude.Json.{Json, Stdlib}
use mercury_relay.Models.Event.{Event, NostrEvent}
use mercury_relay.Queue.{Queue}
use mercury_relay.Cache.{Cache}
use mercury_relay.Quality.Controller

-- Numbers in whole tenths, which keep the sums exact and stop at 0.
abbrev pub of_int : ℤ → ℕ
of_int (pos n) = n * 10
of_int (negsuc n) = 0

abbrev pub fixed : Float
fixed = record {
  F = ℕ;
  tenths = λ n. n;
  add = λ x y. x + y;
  sub = λ x y. x - y;
  mul = λ x y. x * y / 10;
  div = λ x y. x * 10 / y;
  lt = λ x y. ltb x y;
  of_int = of_int;
  trunc = λ x. pos (x / 10);
}

fixed_sum : (ts : List Term) → float_sum fixed ts ≡ exact_sum ts
fixed_sum [] = refl
fixed_sum (plus n ∷ ts) = rw (fixed_sum ts) refl
fixed_sum (minus n ∷ ts) = rw (fixed_sum ts) refl

pub fixed-IsIeee : IsIeee fixed
fixed-IsIeee = record {
  lt-tenths = λ m n h k. refl;
  lt_trans = λ x y z h k. ground arith;
  lt-sum = λ ts k few range small off. rw (fixed_sum ts) refl;
  lt-difference = refl;
}

-- A decoder of a few texts.
abbrev pub one_tag : Json ℕ
one_tag = Json.arr (Json.cons (Json.str "p") (Json.cons (Json.str "bob") Json.nil))

abbrev pub contact_list : Json ℕ
contact_list = Json.arr (
    Json.cons (Json.str "EVENT") (
      Json.cons (Json.str "sub") (
        Json.cons (Json.obj (Json.entry "tags" (Json.arr (Json.cons one_tag Json.nil)) Json.end))
          Json.nil)))

abbrev pub req_fields : Json.Fields ℕ
req_fields = Json.entry "kinds" (Json.arr (Json.cons (Json.num 10) Json.nil)) Json.end

abbrev pub req_message : Json ℕ
req_message = Json.arr (
    Json.cons (Json.str "REQ")
      (Json.cons (Json.str "sub") (Json.cons (Json.obj req_fields) Json.nil)))

-- An EVENT message of another relay, with an event of alice.
abbrev pub upstream_fields : Json.Fields ℕ
upstream_fields = Json.entry "pubkey" (Json.str "alice") (
    Json.entry "id" (Json.str "id")
      (Json.entry "sig" (Json.str "good") (Json.entry "created_at" (Json.num 10000) Json.end)))

abbrev pub upstream_items : Json.Items ℕ
upstream_items =
    Json.cons (Json.str "EVENT")
      (Json.cons (Json.str "sub") (Json.cons (Json.obj upstream_fields) Json.nil))

abbrev pub decode : String → Option (Json ℕ)
decode s =
    if str_eq s "contacts"
    then some (Json.arr (Json.cons contact_list Json.nil))
    else if str_eq s "request"
    then some req_message
    else if str_eq s "upstream"
    then some (Json.arr upstream_items)
    else if str_eq s "{}"
    then some (Json.obj Json.end)
    else none

abbrev pub stdlib : Stdlib ℕ
stdlib = record {
  decode = decode;
  to_lower = λ s. s;
  fields = λ s. s ∷ [];
  match_string = λ pattern s. some (str_eq pattern s);
}

-- A queue that takes all but the event with the id "refuse", and gives the oldest event.
abbrev pub take_event : Event ℕ → List (Event ℕ) → List (Event ℕ) × Option String
take_event e q = if str_eq e.id "refuse" then (q, some "refused") else (q ++ e ∷ [], none)

abbrev pub give_event : List (Event ℕ) → List (Event ℕ) × (String ⊎ List (Event ℕ))
give_event [] = ([], inr [])
give_event (e ∷ q) = (q, inr (e ∷ []))

abbrev pub fifo : Queue ℕ
fifo = record {
  State = List (Event ℕ);
  Error = String;
  publish_event = take_event;
  consume_events = give_event;
  get_queue_stats = λ q. inr (length q);
  close = λ q. ([], none);
  consume_events_by_kind = λ kind q. give_event q;
  get_kind_queue_stats = λ kind q. inr (length q);
  get_all_kind_queue_stats = λ q. inr [];
}

-- The clock, a minute after the events of the examples.
abbrev pub noon : ℕ
noon = 1060000000000

abbrev pub note : Event ℕ
note = record {
  id = "id";
  pub_key = "alice";
  created_at = pos 1000;
  kind = pos 1;
  tags = [];
  content = "hello, relay";
  sig = "good";
  quality_score = 0;
  is_quarantined = false;
  quarantine_reason = "";
  created_at_db = none;
}

-- A direct message from alice to bob.
abbrev pub dm : Event ℕ
dm = record note { kind = pos 4; tags = ("p" ∷ "bob" ∷ []) ∷ [] }

-- An answer to the challenge "c".
abbrev pub auth_answer : NostrEvent
auth_answer = record {
  id = "a";
  pub_key = "alice";
  created_at = pos 1000;
  kind = pos 22242;
  tags = ("challenge" ∷ "c" ∷ []) ∷ ("relay" ∷ "wss://relay" ∷ []) ∷ [];
  content = "";
  sig = "good";
}

abbrev pub check_signature : NostrEvent → Option Bool
check_signature e = some (str_eq e.sig "good")

-- A quality controller without kinds.
abbrev pub quality : Controller.Controller ℕ
quality = record {
  config = record {
    max_content_length = pos 50;
    rate_limit_per_minute = pos 10;
    spam_threshold = 7;
  };
  kind_config_loader = none;
  rate_limiter = [];
  blocked_npubs = [];
}

-- A cache that keeps all events and gives them all.
abbrev pub store : Cache ℕ
store = record {
  State = List (Event ℕ);
  Error = String;
  store_event = λ e events. (e ∷ events, none);
  delete_event = λ id events. (events, none);
  get_replaceable_event_history = λ kind pubkey d events. inr [];
  get_latest_replaceable_event = λ kind pubkey d events. none;
  get_events = λ filter events. (events, inr events);
}
