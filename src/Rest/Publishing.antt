-- ===== src/Rest/Publishing.antt =====
-- What `HandlePublish` accepts and does (internal/api/rest.go).
use mercury_relay.Prelude.{
  ℕ, ◌≡◌, ◌↔◌, ◌⊎◌, inl, inr, Bool, true, false, none, some, arith, Option-cases, refl,
}
use mercury_relay.Prelude.Float.{Float}
use mercury_relay.Prelude.Json.{Stdlib}
use mercury_relay.Models.Event.{Event, validate}
use mercury_relay.Queue.{Queue}
use mercury_relay.Quality.Controller.{Controller, graded}
use mercury_relay.Quality.Controller.Verdict.{
  GoesThrough, validate_event-GoesThrough, validate_event_passed,
}
use mercury_relay.Rest.Requests.{handle_publish, publish_checked}

abbrev pub succeeded : {A B : Type 0} → A ⊎ B → Bool
succeeded (inl _) = false
succeeded (inr _) = true

module _ (R : Float) (lib : Stdlib R.F) (Q : Queue R.F) (since now later : ℕ) where
  open R use {F}

  pub record IsPublished (c : Controller F) (q : Q.State) (e : Event F) : Type 0 where
    pub valid : validate since now e ≡ none
    pub through : GoesThrough R lib Q later c q e

  publish_only :
      (e : Event F) (c : Controller F) (q : Q.State)
      → succeeded (handle_publish R lib Q since now later (some e) (some c) q).reply ≡ true
      → IsPublished c q e
  unfolding handle_publish publish_checked
  publish_only e c q h = elim (Option-cases (validate since now e)) [
    | inr (err, v) ↦ absurd (ground arith)
    | inl v ↦ record {
      valid = v;
      through = (validate_event-GoesThrough R lib Q later c q e).0 (ground arith);
    }
  ]

  -- An event that is valid and goes through the quality control is published, graded, once, and its
  -- identifier is the reply.
  pub handle_publish_once :
      (e : Event F) (c : Controller F) (q : Q.State)
      → IsPublished c q e
      → let after = handle_publish R lib Q since now later (some e) (some c) q in
        (after.queue ≡ (Q.publish_event (graded R lib c e) q).0) × (after.reply ≡ inr e.id)
  unfolding handle_publish publish_checked graded
  handle_publish_once e c q p =
      let passed = (validate_event-GoesThrough R lib Q later c q e).1 p.through in
      ground (arith, p.valid, validate_event_passed R lib Q later c q e passed)

  -- With a quality controller, `HandlePublish` replies with success exactly if the event passes its
  -- validation and goes through the quality control.
  pub handle_publish_iff :
      (e : Event F) (c : Controller F) (q : Q.State)
      → (succeeded (handle_publish R lib Q since now later (some e) (some c) q).reply ≡ true)
        ↔ IsPublished c q e
  handle_publish_iff e c q = (publish_only e c q, λ p. rw ((handle_publish_once e c q p).1) refl)
