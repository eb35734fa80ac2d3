-- ===== src/Tests/Quality.antt =====
-- Examples for internal/quality.
use mercury_relay.Prelude.{
  ℕ, ◌+◌, ◌≤◌, ◌≡◌, ◌↔◌, refl, true, none, some, List, [], ◌∷◌, pos, arith, lookup, insert,
}
use mercury_relay.Models.Event.{minute}
use mercury_relay.Quality.RateLimit.{RateOp, check, tick, run, check_rate_limit, clean}
use mercury_relay.Quality.RateLimit.Window.{spec_run, in_window, run-spec_run}
use mercury_relay.Quality.RateLimit.Cap.{accepted_log, run-in_window}
use mercury_relay.Quality.KindConfig.{EventKindConfig, KindConfigLoader, validate_event_kind}
use mercury_relay.Quality.KindConfig.Validation.{AcceptsKind, validate_event_kind_iff}
use mercury_relay.Quality.Controller
use mercury_relay.Quality.Controller.{
  QualityConfig, QualityError, content_too_long, npub_is_blocked, refused, is_npub_blocked,
  get_blocked_npubs, validate_event,
}
use mercury_relay.Quality.Controller.Verdict.{
  IsAccepted, validate_event_iff, validate_event_refused,
}
use mercury_relay.Tests.Data.{fixed, stdlib, fifo, note, noon}

-- Two calls of alice in a minute, a tick, and a third a minute later.
abbrev calls : List RateOp
calls = check "alice" 5 ∷ check "alice" 7 ∷ tick 9 ∷ check "alice" (minute + 6) ∷ []

run-spec_run_example : (run (pos 1) [] calls).1 ≡ (spec_run (pos 1) [] calls).1
run-spec_run_example = run-spec_run (pos 1) calls (ground arith)

run-in_window_example :
    in_window "alice" (minute + 8) (accepted_log calls (run (pos 1) [] calls).1) ≤ 1
run-in_window_example =
    run-in_window (pos 1) "alice" (minute + 8) calls (ground arith) (ground arith)

abbrev kind_one : EventKindConfig ℕ
kind_one = record {
  required_tags = [];
  content_validation = record {
    type = "text";
    max_length = pos 100;
    min_length = pos 1;
    required_fields = [];
  };
  quality_rules = record { name = "reasonable_length"; weight = 5; max_follows = pos 0 } ∷ [];
}

abbrev loader : KindConfigLoader ℕ
loader = record {
  event_kinds = ("1", kind_one) ∷ [];
  spam_enabled = true;
  spam_threshold = 7;
  required_tag_formats = [];
}

validate_event_kind_iff_example :
    (validate_event_kind stdlib loader (pos 1) "hello, relay" [] ≡ none)
    ↔ AcceptsKind stdlib loader (pos 1) "hello, relay" []
validate_event_kind_iff_example = validate_event_kind_iff stdlib loader (pos 1) "hello, relay" []

abbrev controller : Controller.Controller ℕ
controller = record {
  config = record {
    max_content_length = pos 5;
    rate_limit_per_minute = pos 10;
    spam_threshold = 7;
  };
  kind_config_loader = none;
  rate_limiter = [];
  blocked_npubs = [];
}

abbrev with_kinds : Controller.Controller ℕ
with_kinds = record controller {
  config = record {
    max_content_length = pos 50;
    rate_limit_per_minute = pos 10;
    spam_threshold = 7;
  };
  kind_config_loader = some loader;
}

validate_event_iff_example :
    ((validate_event fixed stdlib fifo noon with_kinds [] note).error ≡ none)
    ↔ IsAccepted fixed stdlib fifo noon with_kinds [] note
        (validate_event fixed stdlib fifo noon with_kinds [] note)
validate_event_iff_example = validate_event_iff fixed stdlib fifo noon with_kinds [] note

too_long_note :
    (validate_event fixed stdlib fifo noon controller [] note).error ≡ some content_too_long
unfolding validate_event lookup insert check_rate_limit clean
too_long_note = refl

validate_event_refused_example :
    ((validate_event fixed stdlib fifo noon controller [] note).queue ≡ [])
    × ((validate_event fixed stdlib fifo noon controller [] note).event ≡ note)
validate_event_refused_example =
    validate_event_refused fixed stdlib fifo noon controller [] note too_long_note refl
