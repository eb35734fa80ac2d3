-- ===== src/Cache/Redis/Once.antt =====
-- An identifier is stored once (internal/cache/redis.go).
use mercury_relay.Prelude.{◌≡◌, none, some, List, [], ◌⊎◌, ◌∷◌}
use mercury_relay.Models.Event.{Event}
use mercury_relay.Models.Codec.{Codec}
use mercury_relay.Cache.Redis.{Client, Versions, store_event, exists_failed}

module _ (C : Client) {F : Type 0} (codec : Codec F) (versions : Versions) where
  open C use {State}

  -- Events are stored one after another, whatever comes of it; the last one stands first.
  abbrev pub store_all : List (Event F) → State → State
  store_all [] st = st
  store_all (e ∷ es) st = (store_event C codec versions e (store_all es st)).0

  -- Nothing is stored, and there is no error but that of asking whether the key exists.
  abbrev pub IsPassedOver : Event F → State → Type 0
  IsPassedOver e st =
      ((store_event C codec versions e st).0 ≡ st)
      × (((store_event C codec versions e st).1 ≡ none)
          ⊎ ((store_event C codec versions e st).1 ≡ some exists_failed))
