-- ===== src/Quality/RateLimit/Cap.antt =====
-- The bound that the limiter of internal/quality/controller.go is for.
use mercury_relay.Prelude.{
  ℕ, ◌+◌, ◌≤◌, String, ◌≡◌, ◌∙◌, Bool, true, List, [], ◌∷◌, ◌++◌, ℤ, length, filter, arith,
  if◌then◌else◌, str_eq, eq_iff, pos_part, length-append, length-filter-le, append-nil,
  append_assoc, Bool-cases, inl, inr,
}
use mathlib.Core.Path.{subst}
use mercury_relay.Quality.RateLimit.{recent, RateOp, check, tick, clock_of, run}
use mercury_relay.Quality.RateLimit.Window.{
  Log, accepted_times, in_window, passes, spec_run, IsMonotone, accepted_times-append,
  filter-append, extended, run-spec_run,
}

-- The accepted calls of a run, by the answers that the code gave.
pub accepted_log : List RateOp → List Bool → Log
accepted_log [] answers = []
accepted_log (tick now ∷ ops) answers = accepted_log ops answers
accepted_log (check npub now ∷ ops) [] = []
accepted_log (check npub now ∷ ops) (answer ∷ answers) =
    let rest = accepted_log ops answers in if answer then (npub, now) ∷ rest else rest

-- Every operation of the run stands at or before the moment.
abbrev pub IsOver : ℕ → List RateOp → Type 0
IsOver later [] = Unit
IsOver later (op ∷ ops) = (clock_of op ≤ later) × IsOver later ops

filter_shrinks :
    (now later : ℕ) (ts : List ℕ)
    → now ≤ later
    → length (filter (recent later) ts) ≤ length (filter (recent now) ts)
filter_shrinks now later [] h = omega arith
filter_shrinks now later (t ∷ ts) h = ground (arith, filter_shrinks now later ts h)

-- The log of the specification is that of its answers.
log-spec_run :
    (limit : ℤ) (log : Log) (ops : List RateOp)
    → (spec_run limit log ops).0 ≡ log ++ accepted_log ops (spec_run limit log ops).1
unfolding spec_run accepted_log
log-spec_run limit log [] = rw append-nil
log-spec_run limit log (tick now ∷ ops) = log-spec_run limit log ops
log-spec_run limit log (check npub now ∷ ops) = elim (Bool-cases (passes limit npub now log)) [
  | inl e ↦ rw e (log-spec_run limit (log ++ (npub, now) ∷ []) ops ∙ rw append_assoc)
  | inr e ↦ rw e (log-spec_run limit log ops)
]

in_window-append :
    (npub j : String) (now later : ℕ) (log : Log)
    → in_window j later (log ++ (npub, now) ∷ [])
      ≤ (if str_eq npub j then in_window j later log + 1 else in_window j later log)
in_window-append npub j now later log = elim (Bool-cases (str_eq npub j)) [
  | inl e ↦
      rw (accepted_times-append, e, filter-append, length-append)
        (ground (arith, length-filter-le (recent later) (now ∷ [])))
  | inr e ↦ rw (accepted_times-append, e) (omega arith)
]

passes_room :
    (limit : ℤ) (npub : String) (now : ℕ) (log : Log)
    → passes limit npub now log ≡ true
    → in_window npub now log + 1 ≤ pos_part limit
passes_room limit npub now log h = ground arith

room_of_passes :
    (limit : ℤ) (npub j : String) (now : ℕ) (log : Log)
    → passes limit npub now log ≡ true
    → str_eq npub j ≡ true
    → in_window j now log + 1 ≤ pos_part limit
room_of_passes limit npub j now log h same =
    subst (λ k. in_window k now log + 1 ≤ pos_part limit) ((eq_iff npub j).0 same)
      (passes_room limit npub now log h)

in_window-extended :
    (limit : ℤ) (npub j : String) (now : ℕ) (log : Log)
    → in_window j now log ≤ pos_part limit
    → in_window j now (extended limit npub now log) ≤ pos_part limit
in_window-extended limit npub j now log h = elim (Bool-cases (passes limit npub now log)) [
  | inl e ↦
      rw e
        (ground (arith, in_window-append npub j now now log, room_of_passes limit npub j now log e))
  | inr e ↦ rw e h
]

capped_from :
    (limit : ℤ) (npub : String) (start later : ℕ) (log : Log) (ops : List RateOp)
    → IsMonotone start ops
    → IsOver later ops
    → start ≤ later
    → in_window npub start log ≤ pos_part limit
    → in_window npub later (spec_run limit log ops).0 ≤ pos_part limit
unfolding spec_run
capped_from limit npub start later log [] mono over h full =
    omega (arith, filter_shrinks start later (accepted_times npub log) h)
capped_from limit npub start later log (tick now ∷ ops) (le, mono) (before, over) h full =
    capped_from limit npub now later log ops mono over before
      (omega (arith, filter_shrinks start now (accepted_times npub log) le))
capped_from limit npub start later log (check j now ∷ ops) (le, mono) (before, over) h full =
    capped_from limit npub now later (extended limit j now log) ops mono over before (
      in_window-extended limit j npub now log
        (omega (arith, filter_shrinks start now (accepted_times npub log) le)))

-- While the clock does not run backwards, at no moment after a run do more accepted calls of one
-- author lie in the last minute than the limit; with a limit that is not positive, none do.
pub run-in_window :
    (limit : ℤ) (npub : String) (later : ℕ) (ops : List RateOp)
    → IsMonotone 0 ops
    → IsOver later ops
    → in_window npub later (accepted_log ops (run limit [] ops).1) ≤ pos_part limit
run-in_window limit npub later ops mono over =
    rw (run-spec_run limit ops mono, ← log-spec_run limit [] ops)
      (capped_from limit npub 0 later [] ops mono over (omega arith) (omega arith))
