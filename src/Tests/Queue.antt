-- ===== src/Tests/Queue.antt =====
-- Examples for internal/queue.
use mercury_relay.Prelude.{
  ℕ, ◌+◌, ◌-◌, ◌<>◌, String, str_eq, ◌≡◌, inl, inr, refl, Bool, true, false, Option, none, some,
  List, [], ◌∷◌, ℤ, pos, negsuc, elem_ℤ, arith, if◌then◌else◌,
}
use mercury_relay.Prelude.Decimal.{itoa, atoi, read_digits}
use mercury_relay.Queue.Rabbit.{Amqp, RabbitConfig, queue_name_of, all_kinds}
use mercury_relay.Queue.Rabbit.Kinds.{listing, missing, get_common_kinds}
use mercury_relay.Queue.Rabbit.Routing.{IsDelivered, routing_key-IsDelivered}
use mercury_relay.Queue.Rabbit.Files.{elem_ℤ-get_common_kinds}
use mercury_relay.Queue.Rabbit.Operations.{new_rabbit_mq, get_all_kind_queue_stats}
use mercury_relay.Queue.Rabbit.Resources.{IsAmqp, after_dial, new_rabbit_mq-opened}
use mercury_relay.Queue.Rabbit.Stats.{stat_of, inspected, get_all_kind_queue_stats_stat}
use mercury_relay.Tests.Data.{note, noon}

abbrev files : List (String × Bool)
files = ("README.md", false) ∷ ("1.yml", false) ∷ []

-- The directory with another file, added after the start.
abbrev more_files : List (String × Bool)
more_files = ("7.yml", false) ∷ files

kind_one_known :
    (elem_ℤ (pos 1) (get_common_kinds (listing files)) ≡ true)
    × (elem_ℤ (pos 1) (get_common_kinds (listing more_files)) ≡ true)
unfolding get_common_kinds atoi read_digits
kind_one_known = (refl, refl)

routing_key-IsDelivered_example :
    (kind : ℤ) × IsDelivered
      (listing files)
      (listing more_files)
      (listing more_files)
      noon
      note
      kind
routing_key-IsDelivered_example =
    routing_key-IsDelivered (listing files) (listing more_files) (listing more_files) noon note
      (λ h. kind_one_known.0) refl

one_yml : itoa (pos 1) <> ".yml" ≡ "1.yml"
unfolding itoa
one_yml = refl

elem_ℤ-get_common_kinds_example : elem_ℤ (pos 1) (get_common_kinds (listing files)) ≡ true
elem_ℤ-get_common_kinds_example =
    elem_ℤ-get_common_kinds (pos 1) files (omega arith) (inr (inl (rw one_yml refl)))

-- A broker that counts its connections, and refuses one queue.
abbrev keep : ℕ → ℕ × Option String
keep st = (st, none)

abbrev pub broker : Amqp
broker = record {
  State = ℕ;
  Error = String;
  Delivery = String;
  body_of = λ d. d;
  dial = λ url st. if str_eq url "" then (st, some "no address") else (st + 1, none);
  open_channel = λ st. keep st;
  close_channel = λ st. keep st;
  close_connection = λ st. (st - 1, none);
  exchange_declare = λ name kind st. keep st;
  queue_declare = λ name options st. if str_eq name "bad" then (st, some "refused") else (st, none);
  queue_bind = λ queue key exchange st. keep st;
  publish = λ exchange key message st. keep st;
  get = λ queue st. (st, inr none);
  ack = λ d st. st;
  nack = λ d st. st;
  queue_inspect = λ queue st. inr st;
}

broker-IsAmqp : IsAmqp broker
broker-IsAmqp = record {
  opened = λ st. st;
  dial_opens = λ url st. ground arith;
  open_channel_keeps = λ st. refl;
  close_channel_keeps = λ st. refl;
  close_connection_closes = λ st. refl;
  exchange_declare_keeps = λ name kind st. refl;
  queue_declare_keeps = λ name options st. ground arith;
  queue_bind_keeps = λ queue key exchange st. refl;
}

-- Its main queue is the refused one.
abbrev pub config : RabbitConfig
config = record {
  url = "amqp://localhost";
  exchange_name = "events";
  queue_name = "bad";
  dlx_name = "dead";
  ttl_milliseconds = pos 60000;
}

new_rabbit_mq-opened_example :
    (new_rabbit_mq broker config missing 4).0
    ≡ after_dial (new_rabbit_mq broker config missing 4).1 4
unfolding broker-IsAmqp
new_rabbit_mq-opened_example = new_rabbit_mq-opened broker broker-IsAmqp config missing 4

abbrev counts : List (ℤ × ℕ)
counts =
    (pos 0, 4)
    ∷ (pos 1, 4)
    ∷ (pos 3, 4)
    ∷ (pos 7, 4)
    ∷ (pos 10002, 4)
    ∷ (negsuc 0, 4)
    ∷ (negsuc 1, 4)
    ∷ []

counted : get_all_kind_queue_stats broker missing 4 ≡ inr counts
unfolding get_all_kind_queue_stats all_kinds get_common_kinds
counted = refl

get_all_kind_queue_stats_stat_example : stat_of (pos 7) counts ≡ (
    if elem_ℤ (pos 7) (all_kinds missing)
    then inspected broker missing 4 (queue_name_of (pos 7))
    else none)
get_all_kind_queue_stats_stat_example =
    get_all_kind_queue_stats_stat broker missing 4 counts (pos 7) counted
