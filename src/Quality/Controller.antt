-- ===== src/Quality/Controller.antt =====
-- internal/quality/controller.go: the blocked authors, and the whole check of an event.
pub mod Blocking
pub mod Verdict
use mercury_relay.Prelude.{
  ℕ, String, len, Bool, true, false, Option, none, some, List, [], ℤ, pos, ltb_ℤ, Dict, insert,
  erase, keys, lookup, has, if◌then◌else◌,
}
use mercury_relay.Prelude.Float.{Float}
use mercury_relay.Prelude.Json.{Stdlib}
use mercury_relay.Models.Event.{Event, calculate_quality_score}
use mercury_relay.Queue.{Queue}
use mercury_relay.Quality.RateLimit.{Limiter, RateError, check_rate_limit}
use mercury_relay.Quality.KindConfig.{KindConfigLoader, KindError, validate_event_kind}
use mercury_relay.Quality.KindConfig.Score.{calculate_kind_score}

pub record QualityConfig (F : Type 0) : Type 0 where
  pub max_content_length : ℤ
  pub rate_limit_per_minute : ℤ
  pub spam_threshold : F

-- `quality.Controller`; its queue is passed beside it.
pub record Controller (F : Type 0) : Type 0 where
  pub config : QualityConfig F
  pub kind_config_loader : Option (KindConfigLoader F)
  pub rate_limiter : Limiter
  pub blocked_npubs : Dict Bool

module _ {F : Type 0} where
  unfoldable pub block_npub : String → Controller F → Controller F
  block_npub npub c = record c { blocked_npubs = insert npub true c.blocked_npubs }

  unfoldable pub unblock_npub : String → Controller F → Controller F
  unblock_npub npub c = record c { blocked_npubs = erase npub c.blocked_npubs }

  unfoldable pub is_npub_blocked : String → Controller F → Bool
  is_npub_blocked npub c = has npub c.blocked_npubs

  unfoldable pub get_blocked_npubs : Controller F → List String
  get_blocked_npubs c = keys c.blocked_npubs

pub data QualityError (E : Type 0) : Type 0 where
  npub_is_blocked content_too_long : QualityError E
  rate_limited : RateError → QualityError E
  kind_validation_failed : KindError → QualityError E
  publish_failed : E → QualityError E

module _ (R : Float) (lib : Stdlib R.F) where
  open R use {F, lt}

  unfoldable pub score_of : Option (KindConfigLoader F) → Event F → F
  score_of none e = calculate_quality_score R e
  score_of (some k) e = elim (calculate_kind_score R lib k e.kind e.content e.tags) [
    | some score ↦ score
    | none ↦ calculate_quality_score R e
  ]

  unfoldable pub kind_error : Option (KindConfigLoader F) → Event F → Option KindError
  kind_error none e = none
  kind_error (some k) e = validate_event_kind lib k e.kind e.content e.tags

  -- The score, and the quarantine below the threshold.
  unfoldable pub graded : Controller F → Event F → Event F
  unfolding score_of
  graded c e =
      let score = score_of c.kind_config_loader e in
      let scored : Event F = record e { quality_score = score } in
      if lt score c.config.spam_threshold
      then record scored { is_quarantined = true; quarantine_reason = "Low quality score" }
      else scored

module _ (R : Float) (lib : Stdlib R.F) (Q : Queue R.F) where
  open R use {F}

  -- What `ValidateEvent` leaves: the controller, the queue, the event behind the pointer and the
  -- error.
  pub record Outcome : Type 0 where
    pub controller : Controller F
    pub queue : Q.State
    pub event : Event F
    pub error : Option (QualityError Q.Error)

  abbrev pub refused : Controller F → Q.State → Event F → QualityError Q.Error → Outcome
  refused c q e err = record { controller = c; queue = q; event = e; error = some err }

  -- The end of `ValidateEvent`: the graded event goes to the queue.
  unfoldable pub publish_graded : Controller F → Q.State → Event F → Outcome
  unfolding graded
  publish_graded c q e =
      let e' = graded R lib c e in
      let (q', err) = Q.publish_event e' q in
      record {
        controller = c;
        queue = q';
        event = e';
        error = elim err [ none ↦ none | some x ↦ some (publish_failed x) ];
      }

  -- The tests after the rate limit.
  unfoldable pub check_content : Controller F → Q.State → Event F → Outcome
  unfolding publish_graded kind_error
  check_content c q e =
      if ltb_ℤ c.config.max_content_length (pos (len e.content))
      then refused c q e content_too_long
      else elim (kind_error R lib c.kind_config_loader e) [
        | some x ↦ refused c q e (kind_validation_failed x)
        | none ↦ publish_graded c q e
      ]

  -- `ValidateEvent`, with the clock that the rate limit reads.
  unfoldable pub validate_event : ℕ → Controller F → Q.State → Event F → Outcome
  unfolding check_content
  validate_event now c q e =
      if has e.pub_key c.blocked_npubs
      then refused c q e npub_is_blocked
      else (let (m, err) =
            check_rate_limit c.config.rate_limit_per_minute e.pub_key now c.rate_limiter in
          let c' : Controller F = record c { rate_limiter = m } in
          elim err [ some x ↦ refused c' q e (rate_limited x) | none ↦ check_content c' q e ])
