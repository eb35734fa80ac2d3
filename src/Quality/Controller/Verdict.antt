-- ===== src/Quality/Controller/Verdict.antt =====
-- What `ValidateEvent` of internal/quality/controller.go lets through, and what it leaves alone.
use mercury_relay.Prelude.{
  ℕ, len, ◌≡◌, refl, ◌↔◌, Bool, true, false, Bool-cases, inl, inr, Option, none, some, List, [],
  arith, has, pos, ◌≤ℤ◌,
}
use mercury_relay.Prelude.Float.{Float}
use mercury_relay.Prelude.Json.{Stdlib}
use mercury_relay.Models.Event.{Event, to_nostr_event, calculate_quality_score}
use mercury_relay.Queue.{Queue}
use mercury_relay.Quality.RateLimit.{check_rate_limit}
use mercury_relay.Quality.KindConfig.{KindConfigLoader, validate_event_kind}
use mercury_relay.Quality.KindConfig.Score.{calculate_kind_score}
use mercury_relay.Quality.Controller.{
  Controller, QualityError, Outcome, npub_is_blocked, publish_failed, refused, kind_error, score_of,
  graded, validate_event,
}
use mercury_relay.Quality.Controller.Blocking.{BlockOp, last_on, apply_all, lookup-apply_all}

abbrev pub is_publish_failure : {E : Type 0} → QualityError E → Bool
is_publish_failure (publish_failed x) = true
is_publish_failure _ = false

module _ (R : Float) (lib : Stdlib R.F) (Q : Queue R.F) (now : ℕ) where
  open R use {F, lt}

  -- Every condition on which an event goes through.
  pub record GoesThrough (c : Controller F) (q : Q.State) (e : Event F) : Type 0 where
    pub not_blocked : has e.pub_key c.blocked_npubs ≡ false
    pub within_rate :
        (check_rate_limit c.config.rate_limit_per_minute e.pub_key now c.rate_limiter).1 ≡ none
    pub within_length : pos (len e.content) ≤ℤ c.config.max_content_length
    pub kind_accepted : kind_error R lib c.kind_config_loader e ≡ none
    pub queue_accepted : (Q.publish_event (graded R lib c e) q).1 ≡ none

  through_only :
      (c : Controller F) (q : Q.State) (e : Event F)
      → (validate_event R lib Q now c q e).error ≡ none
      → GoesThrough c q e
  unfolding validate_event
  through_only c q e h = record {
    not_blocked = ground arith;
    within_rate = ground arith;
    within_length = ground arith;
    kind_accepted = ground arith;
    queue_accepted = ground arith;
  }

  through_all :
      (c : Controller F) (q : Q.State) (e : Event F)
      → GoesThrough c q e
      → (validate_event R lib Q now c q e).error ≡ none
  unfolding validate_event
  through_all c q e h = ground arith

  pub validate_event-GoesThrough :
      (c : Controller F) (q : Q.State) (e : Event F)
      → ((validate_event R lib Q now c q e).error ≡ none) ↔ GoesThrough c q e
  validate_event-GoesThrough c q e = (through_only c q e, through_all c q e)

  -- Described without the code's steps: the score of an event.
  pub record HasScore (c : Controller F) (e : Event F) (x : F) : Type 0 where
    pub default : c.kind_config_loader ≡ none → x ≡ calculate_quality_score R e
    pub by_kind :
        (k : KindConfigLoader F) (y : F)
        → c.kind_config_loader ≡ some k
        → calculate_kind_score R lib k e.kind e.content e.tags ≡ some y
        → x ≡ y
    pub unscored :
        (k : KindConfigLoader F)
        → c.kind_config_loader ≡ some k
        → calculate_kind_score R lib k e.kind e.content e.tags ≡ none
        → x ≡ calculate_quality_score R e

  -- The second event is the first with its score, and quarantined if that is too low.
  pub record IsGraded (c : Controller F) (e e' : Event F) : Type 0 where
    pub same_event : to_nostr_event e' ≡ to_nostr_event e
    pub same_time : e'.created_at_db ≡ e.created_at_db
    pub score : HasScore c e e'.quality_score
    pub quarantined :
        lt e'.quality_score c.config.spam_threshold ≡ true
        → (e'.is_quarantined ≡ true) × (e'.quarantine_reason ≡ "Low quality score")
    pub left_alone :
        lt e'.quality_score c.config.spam_threshold ≡ false
        → (e'.is_quarantined ≡ e.is_quarantined) × (e'.quarantine_reason ≡ e.quarantine_reason)

  -- What makes an outcome the acceptance of an event.
  pub record IsAccepted (c : Controller F) (q : Q.State) (e : Event F) (out : Outcome R lib Q)
      : Type 0 where
    pub not_blocked : has e.pub_key c.blocked_npubs ≡ false
    pub within_rate :
        (check_rate_limit c.config.rate_limit_per_minute e.pub_key now c.rate_limiter).1 ≡ none
    pub within_length : pos (len e.content) ≤ℤ c.config.max_content_length
    pub kind_accepted :
        (k : KindConfigLoader F)
        → c.kind_config_loader ≡ some k
        → validate_event_kind lib k e.kind e.content e.tags ≡ none
    pub grade : IsGraded c e out.event
    pub published : Q.publish_event out.event q ≡ (out.queue, none)

  reaches_queue :
      (c : Controller F) (q : Q.State) (e : Event F)
      → has e.pub_key c.blocked_npubs ≡ false
      → (check_rate_limit c.config.rate_limit_per_minute e.pub_key now c.rate_limiter).1 ≡ none
      → pos (len e.content) ≤ℤ c.config.max_content_length
      → kind_error R lib c.kind_config_loader e ≡ none
      → let out = validate_event R lib Q now c q e in
        Q.publish_event out.event q ≡ (out.queue, none) → out.error ≡ none
  unfolding validate_event
  reaches_queue c q e a b l k p = ground arith

  score_of-HasScore :
      (c : Controller F) (e : Event F) → HasScore c e (score_of R lib c.kind_config_loader e)
  unfolding score_of
  score_of-HasScore c e = record {
    default = λ h. rw h refl;
    by_kind = λ k y h s. rw (h, score_of, s) refl;
    unscored = λ k h s. rw (h, score_of, s) refl;
  }

  graded-IsGraded : (c : Controller F) (e : Event F) → IsGraded c e (graded R lib c e)
  unfolding graded to_nostr_event
  graded-IsGraded c e =
      elim (Bool-cases (lt (score_of R lib c.kind_config_loader e) c.config.spam_threshold)) [
        | inl low ↦
            rw (graded, low)
              (record {
                same_event = refl;
                same_time = refl;
                score = score_of-HasScore c e;
                quarantined = λ h. (refl, refl);
                left_alone = λ h. absurd (ground arith);
              })
        | inr high ↦
            rw (graded, high)
              (record {
                same_event = refl;
                same_time = refl;
                score = score_of-HasScore c e;
                quarantined = λ h. absurd (ground arith);
                left_alone = λ h. (refl, refl);
              })
      ]

  passed_event :
      (c : Controller F) (q : Q.State) (e : Event F)
      → (validate_event R lib Q now c q e).error ≡ none
      → (validate_event R lib Q now c q e).event ≡ graded R lib c e
  unfolding validate_event
  passed_event c q e h = ground arith

  published_queue :
      (c : Controller F) (q : Q.State) (e : Event F)
      → (validate_event R lib Q now c q e).error ≡ none
      → let out = validate_event R lib Q now c q e in
        Q.publish_event out.event q ≡ (out.queue, none)
  unfolding validate_event
  published_queue c q e h = ground arith

  kind_error-none :
      (k : Option (KindConfigLoader F)) (e : Event F)
      → ((l : KindConfigLoader F)
          → k ≡ some l
          → validate_event_kind lib l e.kind e.content e.tags ≡ none)
        ↔ (kind_error R lib k e ≡ none)
  unfolding kind_error
  kind_error-none none e = (λ h. refl, λ h l s. absurd (ground arith))
  kind_error-none (some k) e = (λ h. h k refl, λ h l s. ground arith)

  accepted :
      (c : Controller F) (q : Q.State) (e : Event F)
      → IsAccepted c q e (validate_event R lib Q now c q e)
      → (validate_event R lib Q now c q e).error ≡ none
  accepted c q e a =
      reaches_queue c q e a.not_blocked a.within_rate a.within_length
        ((kind_error-none c.kind_config_loader e).0 a.kind_accepted) a.published

  -- `ValidateEvent` returns no error exactly if the author is not blocked and within the rate, the
  -- content is within the configured length, the configured rules of the kind accept the event, and
  -- the queue takes the event that it leaves: the same one, with the score of its kind, or the
  -- default one where there is none, and quarantined if that is below the threshold.
  pub validate_event_iff :
      (c : Controller F) (q : Q.State) (e : Event F)
      → ((validate_event R lib Q now c q e).error ≡ none)
        ↔ IsAccepted c q e (validate_event R lib Q now c q e)
  validate_event_iff c q e = (
    λ h.
        let through = through_only c q e h in
        record {
          not_blocked = through.not_blocked;
          within_rate = through.within_rate;
          within_length = through.within_length;
          kind_accepted = (kind_error-none c.kind_config_loader e).1 through.kind_accepted;
          grade = rw (passed_event c q e h) (graded-IsGraded c e);
          published = published_queue c q e h;
        },
    accepted c q e,
  )

  -- What `ValidateEvent` leaves of an event that goes through.
  pub validate_event_passed :
      (c : Controller F) (q : Q.State) (e : Event F)
      → (validate_event R lib Q now c q e).error ≡ none
      → let out = validate_event R lib Q now c q e in
        (out.event ≡ graded R lib c e) × (out.queue ≡ (Q.publish_event (graded R lib c e) q).0)
  unfolding validate_event
  validate_event_passed c q e h = (ground arith, ground arith)

  -- An event that is refused for any reason but the queue's own error, the rules of its kind among
  -- them, has reached no queue, the one for moderation neither, and is left as it was.
  pub validate_event_refused :
      (c : Controller F) (q : Q.State) (e : Event F) {err : QualityError Q.Error}
      → (validate_event R lib Q now c q e).error ≡ some err
      → is_publish_failure err ≡ false
      → ((validate_event R lib Q now c q e).queue ≡ q)
        × ((validate_event R lib Q now c q e).event ≡ e)
  unfolding validate_event
  validate_event_refused c q e h k = (ground arith, ground arith)

  -- Once an author is blocked and not unblocked since, every event of that author is refused as
  -- such, and the controller, its rate limiter included, the queue and the event stay as they are.
  pub validate_event_blocked :
      (c : Controller F) (ops : List BlockOp) (q : Q.State) (e : Event F)
      → c.blocked_npubs ≡ []
      → last_on e.pub_key ops ≡ true
      → validate_event R lib Q now (apply_all ops c) q e
        ≡ refused R lib Q (apply_all ops c) q e npub_is_blocked
  unfolding validate_event
  validate_event_blocked c ops q e h last = ground (arith, lookup-apply_all e.pub_key ops c h)

  -- Whatever the verdict, what the author signed is what the event holds afterwards.
  pub to_nostr_event-validate_event :
      (c : Controller F) (q : Q.State) (e : Event F)
      → to_nostr_event (validate_event R lib Q now c q e).event ≡ to_nostr_event e
  unfolding validate_event to_nostr_event
  to_nostr_event-validate_event c q e = ground arith
