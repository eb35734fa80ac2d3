-- ===== src/Quality/RateLimit/Window.antt =====
-- The limiter of internal/quality/controller.go against a sliding window over the whole history.
use mercury_relay.Prelude.{
  ℕ, ◌≤◌, String, ◌≡◌, refl, ◌∙◌, Bool, true, false, Option, none, some, List, [], ◌∷◌, ◌++◌, ℤ,
  pos, ltb_ℤ, length, filter, arith, lookup, insert, NodupKeys, lookup-insert, insert-NodupKeys,
  if◌then◌else◌, str_eq, eq_iff, Option-cases, inl, inr, eq_refl,
}
use mercury_relay.Quality.RateLimit.{
  Limiter, RateError, rate_limit_exceeded, recent, times, check_rate_limit, clean, cleanup, RateOp,
  check, tick, clock_of, let_through, run,
}

-- The specification: every accepted call is kept for ever, and a call passes if fewer than
-- `limit` accepted calls of its author lie in the last minute.
abbrev pub Log : Type 0
Log = List (String × ℕ)

abbrev pub accepted_times : String → Log → List ℕ
accepted_times npub [] = []
accepted_times npub ((j, t) ∷ log) =
    let rest = accepted_times npub log in if str_eq j npub then t ∷ rest else rest

abbrev pub in_window : String → ℕ → Log → ℕ
in_window npub now log = length (filter (recent now) (accepted_times npub log))

abbrev pub passes : ℤ → String → ℕ → Log → Bool
passes limit npub now log = ltb_ℤ (pos (in_window npub now log)) limit

unfoldable pub spec_run : ℤ → Log → List RateOp → Log × List Bool
spec_run limit log [] = (log, [])
spec_run limit log (tick now ∷ ops) = spec_run limit log ops
spec_run limit log (check npub now ∷ ops) =
    let pass = passes limit npub now log in
    let (log', answers) = spec_run limit (if pass then log ++ (npub, now) ∷ [] else log) ops in
    (log', pass ∷ answers)

-- The clock does not run backwards, from a given moment on.
abbrev pub IsMonotone : ℕ → List RateOp → Type 0
IsMonotone start [] = Unit
IsMonotone start (op ∷ ops) = (start ≤ clock_of op) × IsMonotone (clock_of op) ops

filter_later :
    (now later : ℕ) (ts : List ℕ)
    → now ≤ later
    → filter (recent later) (filter (recent now) ts) ≡ filter (recent later) ts
filter_later now later [] h = refl
filter_later now later (t ∷ ts) h = ground (arith, filter_later now later ts h)

pub filter-append :
    (p : ℕ → Bool) (ts us : List ℕ) → filter p (ts ++ us) ≡ filter p ts ++ filter p us
filter-append p [] us = refl
filter-append p (t ∷ ts) us = ground (arith, filter-append p ts us)

pub accepted_times-append :
    (npub : String) (log : Log) (j : String) (t : ℕ)
    → accepted_times npub (log ++ (j, t) ∷ [])
      ≡ (if str_eq j npub then accepted_times npub log ++ t ∷ [] else accepted_times npub log)
accepted_times-append npub [] j t = ground arith
accepted_times-append npub ((i, u) ∷ log) j t = ground (arith, accepted_times-append npub log j t)

times-cleanup :
    (npub : String) (now : ℕ) (m : Limiter)
    → NodupKeys m
    → times npub (cleanup now m) ≡ filter (recent now) (times npub m)
unfolding cleanup lookup
times-cleanup npub now [] u = refl
times-cleanup npub now ((j, ts) ∷ m) (fresh, u) =
    ground (arith, times-cleanup npub now m u, eq_iff j npub)

cleanup-absent :
    (npub : String) (now : ℕ) (m : Limiter)
    → lookup npub m ≡ none
    → lookup npub (cleanup now m) ≡ none
unfolding cleanup lookup
cleanup-absent npub now [] h = refl
cleanup-absent npub now ((j, ts) ∷ m) h = ground (arith, cleanup-absent npub now m, eq_iff j npub)

cleanup-NodupKeys : (now : ℕ) (m : Limiter) → NodupKeys m → NodupKeys (cleanup now m)
unfolding cleanup
cleanup-NodupKeys now [] u = tt
cleanup-NodupKeys now ((j, ts) ∷ m) (fresh, u) =
    ground (arith, cleanup-NodupKeys now m u, cleanup-absent j now m)

clean-NodupKeys :
    (npub : String) (now : ℕ) (m : Limiter) → NodupKeys m → NodupKeys (clean npub now m)
unfolding clean
clean-NodupKeys npub now m u = elim (Option-cases (lookup npub m)) [
  | inl e ↦ rw (e, clean) u
  | inr f ↦ rw (f.1, clean) (insert-NodupKeys npub (filter (recent now) f.0) m u)
]

times-insert :
    (npub j : String) (ts : List ℕ) (m : Limiter)
    → times npub (insert j ts m) ≡ (if str_eq j npub then ts else times npub m)
times-insert npub j ts m = ground (arith, lookup-insert j npub ts m)

times-clean :
    (npub j : String) (now : ℕ) (m : Limiter)
    → times npub (clean j now m)
      ≡ (if str_eq j npub then filter (recent now) (times npub m) else times npub m)
unfolding clean
times-clean npub j now m =
    ground (arith, eq_iff j npub, lookup-insert j npub (filter (recent now) (times j m)) m)

-- What the limiter keeps of the log: for each author, the same recent times from now on.
pub record Tracks (now : ℕ) (m : Limiter) (log : Log) : Type 0 where
  pub is_map : NodupKeys m
  pub same :
      (npub : String) (later : ℕ)
      → now ≤ later
      → filter (recent later) (times npub m) ≡ filter (recent later) (accepted_times npub log)

module _ {start now : ℕ} {m : Limiter} {log : Log} (h : start ≤ now) (t : Tracks start m log) where
  Tracks-clean : (npub : String) → Tracks now (clean npub now m) log
  Tracks-clean npub = record {
    is_map = clean-NodupKeys npub now m t.is_map;
    same = λ j later le.
        rw times-clean
          (ground (arith, filter_later now later (times j m) le, t.same j later (omega arith)));
  }

  Tracks-cleanup : Tracks now (cleanup now m) log
  Tracks-cleanup = record {
    is_map = cleanup-NodupKeys now m t.is_map;
    same = λ j later le.
        rw (times-cleanup j now m t.is_map)
          (filter_later now later (times j m) le ∙ t.same j later (omega arith));
  }

  -- After the old entries are gone, what is left is the window.
  times-clean_self :
      (npub : String)
      → times npub (clean npub now m) ≡ filter (recent now) (accepted_times npub log)
  times-clean_self npub = rw times-clean (rw (eq_refl npub) (t.same npub now h))

Tracks-insert :
    (npub : String) {now : ℕ} {m : Limiter} {log : Log}
    → Tracks now m log
    → Tracks now (insert npub (times npub m ++ now ∷ []) m) (log ++ (npub, now) ∷ [])
Tracks-insert npub {now} {m} {log} t = record {
  is_map = insert-NodupKeys npub (times npub m ++ now ∷ []) m t.is_map;
  same = λ j later le.
      rw (times-insert j npub (times npub m ++ now ∷ []) m, accepted_times-append j log npub now)
        (ground (
          arith,
          eq_iff npub j,
          t.same j later le,
          filter-append (recent later) (times j m) (now ∷ []),
          filter-append (recent later) (accepted_times j log) (now ∷ []),
        ));
}

choose :
    {now : ℕ} {x y : Limiter} {k l : Log} (b : Bool) (e f : Option RateError)
    → Tracks now x k
    → Tracks now y l
    → Tracks now
        (if◌then◌else◌ {A = Limiter × Option RateError} b (x, e) (y, f)).0
        (if b then k else l)
choose true e f tx ty = tx
choose false e f tx ty = ty

-- A call after the log `log`: its answer is the specification's, and the new limiter tracks the
-- new log.
abbrev pub extended : ℤ → String → ℕ → Log → Log
extended limit npub now log = if passes limit npub now log then log ++ (npub, now) ∷ [] else log

module _ (limit : ℤ) (npub : String) {start now : ℕ} {m : Limiter} {log : Log} (h : start ≤ now)
    (t : Tracks start m log) where
  -- The branches of the code by the specification's test.
  check-eq : check_rate_limit limit npub now m ≡ (
      let cleaned = clean npub now m in
      if passes limit npub now log
      then (insert npub (times npub cleaned ++ now ∷ []) cleaned, none)
      else (cleaned, some rate_limit_exceeded))
  unfolding check_rate_limit
  check-eq i =
      let cleaned = clean npub now m in
      if ltb_ℤ (pos (length (times-clean_self h t npub i))) limit
      then (insert npub (times npub cleaned ++ now ∷ []) cleaned, none)
      else (cleaned, some rate_limit_exceeded)

  check-passes : let_through (check_rate_limit limit npub now m).1 ≡ passes limit npub now log
  check-passes = rw check-eq (ground arith)

  check-Tracks : Tracks now (check_rate_limit limit npub now m).0 (extended limit npub now log)
  check-Tracks = rw check-eq (
      choose (passes limit npub now log) none (some rate_limit_exceeded)
        (Tracks-insert npub (Tracks-clean h t npub)) (Tracks-clean h t npub))

answers_from :
    (limit : ℤ) (start : ℕ) (m : Limiter) (log : Log) (ops : List RateOp)
    → Tracks start m log
    → IsMonotone start ops
    → (run limit m ops).1 ≡ (spec_run limit log ops).1
unfolding run spec_run
answers_from limit start m log [] t mono = refl
answers_from limit start m log (tick now ∷ ops) t (le, mono) =
    answers_from limit now (cleanup now m) log ops (Tracks-cleanup le t) mono
answers_from limit start m log (check npub now ∷ ops) t (le, mono) = cc (
  check-passes limit npub le t,
  answers_from limit now (check_rate_limit limit npub now m).0 (extended limit npub now log) ops
      (check-Tracks limit npub le t) mono,
)

-- Whatever the calls and the cleanup ticks, as long as the clock does not run backwards: the
-- limiter, which forgets, lets through exactly the calls that a limiter with the whole history
-- lets through.
pub run-spec_run :
    (limit : ℤ) (ops : List RateOp)
    → IsMonotone 0 ops
    → (run limit [] ops).1 ≡ (spec_run limit [] ops).1
unfolding lookup
run-spec_run limit ops mono =
    answers_from limit 0 [] [] ops (record { is_map = tt; same = λ npub later le. refl }) mono
