-- ===== src/Models/Codec.antt =====
-- `json.Marshal` and `json.Unmarshal` on events: the library's, so a parameter. Marshalling can
-- fail (a score that is NaN), and so can unmarshalling.
use mercury_relay.Prelude.{String, Option}
use mercury_relay.Models.Event.{Event}

pub record Codec (F : Type 0) : Type 0 where
  pub marshal : Event F → Option String
  pub unmarshal : String → Option (Event F)
