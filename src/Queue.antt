-- ===== src/Queue.antt =====
-- internal/queue: the interface of the message queue, and RabbitMQ behind it.
pub mod Rabbit
use mercury_relay.Prelude.{ℕ, ℤ, Option, List, ◌⊎◌}
use mercury_relay.Models.Event.{Event}

-- `queue.Queue`, over an unknown state. An error is `some`.
pub record Queue (F : Type 0) : Type 1 where
  pub State : Type 0
  pub Error : Type 0
  pub publish_event : Event F → State → State × Option Error
  pub consume_events : State → State × (Error ⊎ List (Event F))
  pub get_queue_stats : State → Error ⊎ ℕ
  pub close : State → State × Option Error
  pub consume_events_by_kind : ℤ → State → State × (Error ⊎ List (Event F))
  pub get_kind_queue_stats : ℤ → State → Error ⊎ ℕ
  pub get_all_kind_queue_stats : State → Error ⊎ List (ℤ × ℕ)
