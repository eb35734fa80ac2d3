-- ===== src/Quality/RateLimit.antt =====
-- The rate limiter of internal/quality/controller.go: at most so many events of an author in a
-- minute. Clock readings are nanoseconds.
pub mod Window
pub mod Cap
use mercury_relay.Prelude.{
  ℕ, ◌+◌, String, Bool, true, false, Option, none, some, List, [], ◌∷◌, ◌++◌, ℤ, pos, ltb, ltb_ℤ,
  length, filter, Dict, lookup, insert, if◌then◌else◌, str_eq,
}
use mercury_relay.Models.Event.{minute}

abbrev pub Limiter : Type 0
Limiter = Dict (List ℕ)

pub data RateError : Type 0 where
  rate_limit_exceeded : RateError

-- `t.After(now.Add(-time.Minute))`
abbrev pub recent : ℕ → ℕ → Bool
recent now t = ltb now (t + minute)

-- `rateLimiter[npub]`: nil where the key is missing.
abbrev pub times : String → Limiter → List ℕ
times npub m = elim (lookup npub m) [ none ↦ [] | some ts ↦ ts ]

-- The first part of `checkRateLimit`: the author's old entries go.
unfoldable pub clean : String → ℕ → Limiter → Limiter
clean npub now m = elim (lookup npub m) [
  | none ↦ m
  | some ts ↦ insert npub (filter (recent now) ts) m
]

-- `checkRateLimit`, with the configured limit and the clock.
unfoldable pub check_rate_limit : ℤ → String → ℕ → Limiter → Limiter × Option RateError
check_rate_limit limit npub now m =
    let cleaned = clean npub now m in
    if ltb_ℤ (pos (length (times npub cleaned))) limit
    then (insert npub (times npub cleaned ++ now ∷ []) cleaned, none)
    else (cleaned, some rate_limit_exceeded)

-- One tick of `cleanupRateLimiter`: authors with no recent event are dropped.
pub cleanup : ℕ → Limiter → Limiter
cleanup now [] = []
cleanup now ((npub, ts) ∷ m) =
    let rest = cleanup now m in
    let valid_times = filter (recent now) ts in
    elim valid_times [ [] ↦ rest | t ∷ more ↦ (npub, t ∷ more) ∷ rest ]

-- What reaches the limiter: calls of `checkRateLimit` and ticks of the cleanup, each with the
-- clock at that moment.
pub data RateOp : Type 0 where
  check : String → ℕ → RateOp
  tick : ℕ → RateOp

abbrev pub clock_of : RateOp → ℕ
clock_of (check npub now) = now
clock_of (tick now) = now

abbrev pub let_through : Option RateError → Bool
let_through none = true
let_through (some e) = false

-- A run: the final limiter, and for each call whether it was let through.
pub run : ℤ → Limiter → List RateOp → Limiter × List Bool
run limit m [] = (m, [])
run limit m (check npub now ∷ ops) =
    let (m', err) = check_rate_limit limit npub now m in
    let (m'', answers) = run limit m' ops in (m'', let_through err ∷ answers)
run limit m (tick now ∷ ops) = run limit (cleanup now m) ops
