-- ===== src/Cache/Redis/Answers.antt =====
-- What a query of the cache answers (internal/cache/redis.go).
use mercury_relay.Prelude.{String, ◌<>◌, ◌≡◌, ◌⊎◌, some, [], ◌∷◌, inr, Any, ℤ, pos}
use mercury_relay.Prelude.Decimal.{itoa}
use mercury_relay.Models.Event.{Event}
use mercury_relay.Models.Filter.{Filter, IsSince, IsUntil}
use mercury_relay.Models.Codec.{Codec}
use mercury_relay.Cache.Redis.{Client, Versions, d_tag}
use mercury_relay.Cache.Redis.Listed.{IsListed}

-- The kinds of which a query gives the latest version.
abbrev pub IsReplaceable : ℤ → Type 0
IsReplaceable kind =
    Any (λ k. kind ≡ pos k)
      (0 ∷ 3 ∷ 5 ∷ 6 ∷ 7 ∷ 8 ∷ 40 ∷ 41 ∷ 42 ∷ 43 ∷ 44 ∷ 10002 ∷ 30000 ∷ 30001 ∷ 30008 ∷ 30009
        ∷ 30078 ∷ [])

module _ (C : Client) {F : Type 0} (codec : Codec F) (versions : Versions) (st : C.State) where
  -- The event under an identifier.
  abbrev pub IsStored : String → Event F → Type 0
  IsStored id e =
      (body : String) × ((C.get ("event:" <> id) st ≡ inr body) × (codec.unmarshal body ≡ some e))

  -- What a query gives for an event that it finds.
  abbrev pub IsChosen : Event F → Event F → Type 0
  IsChosen e a =
      ((IsReplaceable e.kind → ⊥) × (a ≡ e))
      ⊎ (IsReplaceable e.kind
          × ((latest : String) × ((C.get
                    ("latest:" <> (itoa e.kind <> (":" <> (e.pub_key <> (":" <> d_tag e.tags))))) st
                  ≡ inr latest)
                × IsStored latest a)))

  -- An event that a filter asks for: a listed identifier holds an event within the bounds, and it is
  -- that one, or the latest version of it.
  pub record IsAnswer (filter : Filter) (a : Event F) : Type 0 where
    pub id : String
    pub event : Event F
    pub listed : IsListed C codec versions st filter.authors filter.kinds id
    pub stored : IsStored id event
    pub since : IsSince filter.since event.created_at
    pub until : IsUntil filter.until event.created_at
    pub chosen : IsChosen event a
