-- ===== src/Cache.antt =====
-- internal/cache: the interface of the event cache.
pub mod Redis
use mercury_relay.Prelude.{String, ℤ, Option, List, ◌⊎◌}
use mercury_relay.Prelude.Json.{Fields}
use mercury_relay.Models.Event.{Event}
use mercury_relay.Models.Filter.{Filter}

-- `cache.Cache` without its statistics and its closing, over an unknown state.
pub record Cache (F : Type 0) : Type 1 where
  pub State : Type 0
  pub Error : Type 0
  pub store_event : Event F → State → State × Option Error
  pub delete_event : String → State → State × Option Error
  pub get_replaceable_event_history : ℤ → String → String → State → Error ⊎ List (Fields F)
  pub get_latest_replaceable_event : ℤ → String → String → State → Option (Event F)
  pub get_events : Filter → State → State × (Error ⊎ List (Event F))
