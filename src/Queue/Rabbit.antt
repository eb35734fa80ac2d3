-- ===== src/Queue/Rabbit.antt =====
-- internal/queue/rabbitmq.go: the queue on RabbitMQ. The broker's client is a parameter, and so is
-- what the directory of kinds holds when it is read.
pub mod Kinds
pub mod Routing
pub mod Operations
pub mod Resources
pub mod Stats
pub mod Files
use mercury_relay.Prelude.{
  ℕ, ◌+◌, ◌-◌, ◌*◌, ◌/◌, String, ◌<>◌, str_eq, Bool, true, false, not, ◌||◌, ◌⊎◌, inl, inr, Option,
  none, some, List, [], ◌∷◌, ◌++◌, map, ℤ, pos, negsuc, eq_ℤ, ltb_ℤ, shift, elem_ℤ, if◌then◌else◌,
}
use mercury_relay.Prelude.Decimal.{itoa}
use mercury_relay.Models.Event.{Event}
use mercury_relay.Models.Codec.{Codec}
use mercury_relay.Queue.Rabbit.Kinds.{Directory, get_common_kinds}

-- What is published: the content type is always JSON.
pub record Publishing : Type 0 where
  pub body : String
  pub timestamp : ℕ
  pub message_id : String

-- The calls of `amqp091-go`; flags that are the same in every call are left out.
pub record Amqp : Type 1 where
  pub State : Type 0
  pub Error : Type 0
  pub Delivery : Type 0
  pub body_of : Delivery → String
  pub dial : String → State → State × Option Error
  pub open_channel : State → State × Option Error
  pub close_channel : State → State × Option Error
  pub close_connection : State → State × Option Error
  -- A name and a type.
  pub exchange_declare : String → String → State → State × Option Error
  -- A name, and the time to live in milliseconds with the dead-letter exchange, where given.
  pub queue_declare : String → Option (ℤ × String) → State → State × Option Error
  -- A queue, a routing key and an exchange.
  pub queue_bind : String → String → String → State → State × Option Error
  -- An exchange and a routing key.
  pub publish : String → String → Publishing → State → State × Option Error
  pub get : String → State → State × (Error ⊎ Option Delivery)
  pub ack : Delivery → State → State
  pub nack : Delivery → State → State
  pub queue_inspect : String → State → Error ⊎ ℕ

pub record RabbitConfig : Type 0 where
  pub url : String
  pub exchange_name : String
  pub queue_name : String
  pub dlx_name : String
  -- `int64(config.TTL.Seconds() * 1000)`, which Go computes in floating point.
  pub ttl_milliseconds : ℤ

abbrev pub kind_exchange : String
kind_exchange = "nostr_kinds"

abbrev pub undefined_kind : ℤ
undefined_kind = negsuc 0

abbrev pub moderation_kind : ℤ
moderation_kind = negsuc 1

-- The queue that `NewRabbitMQ` declares for a kind, and the key that it binds it to.
unfoldable pub queue_name_of : ℤ → String
queue_name_of kind =
    if eq_ℤ kind undefined_kind
    then "nostr_kind_undefined"
    else if eq_ℤ kind moderation_kind
    then "nostr_kind_moderation"
    else "nostr_kind_" <> itoa kind

unfoldable pub binding_key_of : ℤ → String
binding_key_of kind =
    if eq_ℤ kind undefined_kind
    then "kind.undefined"
    else if eq_ℤ kind moderation_kind
    then "kind.moderation"
    else "kind." <> itoa kind

unfoldable pub all_kinds : Directory → List ℤ
all_kinds dir = get_common_kinds dir ++ (undefined_kind ∷ moderation_kind ∷ [])

module _ {F : Type 0} where
  -- `isValidEvent`, for an event that is not nil. The clock counts nanoseconds, `now.Unix()`
  -- whole seconds.
  unfoldable pub is_valid_event : ℕ → Event F → Bool
  is_valid_event now event =
      let unix = now / 1000000000 in
      if str_eq event.id "" || str_eq event.pub_key "" || str_eq event.sig ""
      then false
      else if ltb_ℤ (shift (86400 * 365) event.created_at) (pos unix)
          || ltb_ℤ (pos (unix + 86400)) event.created_at
      then false
      else if ltb_ℤ event.kind (pos 0) || ltb_ℤ (pos 65535) event.kind
      then false
      else true

  -- The routing key that `PublishToKindTopic` determines.
  unfoldable pub routing_key : Directory → ℕ → Event F → String
  unfolding is_valid_event
  routing_key dir now event =
      if not (is_valid_event now event)
      then "kind.moderation"
      else if elem_ℤ event.kind (get_common_kinds dir)
      then "kind." <> itoa event.kind
      else "kind.undefined"

-- The queue that `ConsumeEventsByKind` reads.
unfoldable pub consumed_queue : Directory → ℤ → String
consumed_queue dir kind =
    if elem_ℤ kind (get_common_kinds dir)
    then "nostr_kind_" <> itoa kind
    else "nostr_kind_undefined"

-- The queue that `GetKindQueueStats` inspects.
unfoldable pub inspected_queue : Directory → ℤ → String
inspected_queue dir kind =
    if eq_ℤ kind undefined_kind
    then "nostr_kind_undefined"
    else if eq_ℤ kind moderation_kind
    then "nostr_kind_moderation"
    else if elem_ℤ kind (get_common_kinds dir)
    then "nostr_kind_" <> itoa kind
    else "nostr_kind_undefined"
