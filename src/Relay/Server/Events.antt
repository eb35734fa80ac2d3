-- ===== src/Relay/Server/Events.antt =====
-- What an EVENT message does (internal/relay/relay.go).
use mercury_relay.Prelude.{
  ℕ, String, eq_iff, ◌≡◌, ◌≢◌, ◌↔◌, ◌⊎◌, inl, inr, refl, true, false, Option, none, some, List, [],
  ◌∷◌, arith, Option-cases,
}
use mercury_relay.Prelude.Float.{Float, IsIeee}
use mercury_relay.Prelude.Json.{Json, obj, Fields, as_object}
use mercury_relay.Models.Event.{Event, validate, calculate_quality_score}
use mercury_relay.Models.Event.Score.{is_spam_iff}
use mercury_relay.Access.{Controller, can_write}
use mercury_relay.Queue.{Queue}
use mercury_relay.Relay.Server.{Connection, graded_event, claim, accept_event, handle_event}
use mercury_relay.Relay.Server.Parse.{parse_event, claimed_pubkey}

-- The object that a message carries, or none.
abbrev pub object_of : {F : Type 0} → List (Json F) → Option (Fields F)
object_of [] = none
object_of (arg ∷ args) = as_object arg

module _ (R : Float) (Q : Queue R.F) (access : Controller) (since now : ℕ) where
  -- What the queue answers for an event that is let through.
  abbrev pub publishing : Event R.F → Q.State → Q.State × Option Q.Error
  publishing e q = Q.publish_event (graded_event R e) q

  pub record IsAccepted (e : Event R.F) (q : Q.State) : Type 0 where
    pub may_write : can_write access e.pub_key ≡ true
    pub is_valid : validate since now e ≡ none
    pub published : (publishing e q).1 ≡ none

  abbrev pub IsAcceptedFrom : Option (Fields R.F) → Q.State → Type 0
  IsAcceptedFrom none q = ⊥
  IsAcceptedFrom (some fs) q = IsAccepted (parse_event R fs) q

  accept_event_iff :
      (e : Event R.F) (conn : Connection Q.Error) (q : Q.State)
      → ((accept_event R Q access since now e conn q).2 ≡ none) ↔ IsAccepted e q
  unfolding accept_event
  accept_event_iff e conn q = (
    λ h. record { may_write = ground arith; is_valid = ground arith; published = ground arith },
    λ a. rw (a.may_write, a.is_valid, a.published) refl,
  )

  -- An EVENT message succeeds exactly when its data is an object whose author may write, the event
  -- read from it passes the validation, and the queue takes the graded event.
  pub handle_event_iff :
      (args : List (Json R.F)) (conn : Connection Q.Error) (q : Q.State)
      → ((handle_event R Q access since now conn q args).2 ≡ none)
        ↔ IsAcceptedFrom (object_of args) q
  unfolding handle_event
  handle_event_iff [] conn q = (λ h. ground arith, λ a. elim a [ ])
  handle_event_iff (arg ∷ args) conn q = elim (Option-cases (as_object arg)) [
    | inl e ↦ rw (handle_event, e) (λ h. ground arith, λ a. elim a [ ])
    | inr (fs, e) ↦ rw (handle_event, e) (accept_event_iff (parse_event R fs) (claim R fs conn) q)
  ]

  -- An EVENT message whose author may not write, or whose event fails the validation, leaves the
  -- queue as it was and fails.
  pub handle_event_refused :
      (fs : Fields R.F) (args : List (Json R.F)) (conn : Connection Q.Error) (q : Q.State)
      → (can_write access (parse_event R fs).pub_key ≡ false)
        ⊎ (validate since now (parse_event R fs) ≢ none)
      → let after = handle_event R Q access since now conn q (obj fs ∷ args) in
        (after.1 ≡ q) × (after.2 ≢ none)
  unfolding handle_event accept_event
  handle_event_refused fs args conn q h = (ground arith, ground arith)

  -- The first EVENT of a connection whose data names a pubkey makes that the connection's, whether
  -- the event is accepted or not, and without a look at its signature.
  pub handle_event-claim :
      (fs : Fields R.F) (args : List (Json R.F)) (pubkey : String) (conn : Connection Q.Error)
      (q : Q.State)
      → conn.pubkey ≡ ""
      → claimed_pubkey fs ≡ some pubkey
      → (handle_event R Q access since now conn q (obj fs ∷ args)).0.pubkey ≡ pubkey
  unfolding handle_event accept_event claim
  handle_event-claim fs args pubkey conn q new claimed = ground (arith, eq_iff conn.pubkey "")

-- No event that a client sends is quarantined: the tags are not read, and without tags no content is
-- scored below the threshold.
pub graded_event-parse_event :
    (R : Float)
    → IsIeee R
    → (fs : Fields R.F) → (graded_event R (parse_event R fs)).is_quarantined ≡ false
unfolding graded_event parse_event
graded_event-parse_event R ieee fs = ground (
  arith,
  is_spam_iff R ieee
      (record (parse_event R fs) { quality_score = calculate_quality_score R (parse_event R fs) }),
)
