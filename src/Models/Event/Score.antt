-- ===== src/Models/Event/Score.antt =====
-- The default quality score (internal/models/event.go): its range and the spam test.
use mercury_relay.Prelude.{
  ℕ, ◌<◌, ◌≤◌, len, ◌≡◌, ◌↔◌, ◌⊎◌, true, false, ◌&&◌, ◌||◌, List, [], ◌∷◌, arith, length, ltb, ◌≢◌,
}
use mercury_relay.Prelude.Float.{Float, IsIeee, Term, plus, minus, float_sum, exact_sum, InRange}
use mercury_relay.Models.Event.{Event, raw_score, clamp, calculate_quality_score, is_spam}

module _ (R : Float) (ieee : IsIeee R) where
  open R use {F, tenths, lt}
  open ieee use {lt_trans, lt-sum, lt-difference}

  -- A clamped score is neither below 0 nor above 1.
  pub clamp_range :
      (x : F) → (lt (clamp R x) (tenths 0) ≡ false) × (lt (tenths 10) (clamp R x) ≡ false)
  unfolding clamp
  clamp_range x = ground (
    arith,
    ieee.lt-tenths 0 0 (omega arith) (omega arith),
    ieee.lt-tenths 10 0 (omega arith) (omega arith),
    ieee.lt-tenths 10 10 (omega arith) (omega arith),
  )

  -- Clamping does not change how a score compares with 0.7.
  lt-clamp : (x : F) → lt (clamp R x) (tenths 7) ≡ lt x (tenths 7)
  unfolding clamp
  lt-clamp x = ground (
    arith,
    ieee.lt-tenths 0 7 (omega arith) (omega arith),
    ieee.lt-tenths 10 7 (omega arith) (omega arith),
    ieee.lt-tenths 10 0 (omega arith) (omega arith),
    lt_trans x (tenths 0) (tenths 7),
    lt_trans (tenths 10) x (tenths 7),
    lt_trans (tenths 10) x (tenths 0),
  )

  below_seven :
      (ts : List Term)
      → (length ts ≤ 4) × InRange ts × (exact_sum ts ≢ 7)
      → lt (float_sum R ts) (tenths 7) ≡ ltb (exact_sum ts) 7
  below_seven ts (few, range, off) = lt-sum ts 7 few range (omega arith) off

  raw_score-lt :
      (size count : ℕ)
      → lt (raw_score R size count) (tenths 7) ≡ (ltb 20 count && (ltb size 10 || ltb 5000 size))
  unfolding raw_score
  raw_score-lt size count = ground (
    arith,
    ieee.lt-tenths 10 7 (omega arith) (omega arith),
    lt-difference,
    below_seven (minus 2 ∷ []) (omega arith),
    below_seven (minus 1 ∷ []) (omega arith),
    below_seven (plus 1 ∷ []) (omega arith),
    below_seven (minus 3 ∷ minus 2 ∷ []) (omega arith),
    below_seven (minus 3 ∷ minus 1 ∷ []) (omega arith),
    below_seven (minus 3 ∷ plus 1 ∷ []) (omega arith),
    below_seven (plus 1 ∷ minus 2 ∷ []) (omega arith),
    below_seven (plus 1 ∷ minus 1 ∷ []) (omega arith),
    below_seven (plus 1 ∷ plus 1 ∷ []) (omega arith),
  )

  -- At the relay's threshold of 0.7 an event is spam exactly when it has more than 20 tags and its
  -- content has fewer than 10 or more than 5000 bytes.
  pub is_spam_iff :
      (e : Event F)
      → (is_spam R e (tenths 7) ≡ true)
        ↔ ((20 < length e.tags) × ((len e.content < 10) ⊎ (5000 < len e.content)))
  unfolding is_spam
  is_spam_iff e =
      rw (lt-clamp (raw_score R (len e.content) (length e.tags)))
        (rw (raw_score-lt (len e.content) (length e.tags)) (ground arith))

  -- The default score of any event is neither below 0 nor above 1.
  pub calculate_quality_score_range :
      (e : Event F)
      → (lt (calculate_quality_score R e) (tenths 0) ≡ false)
        × (lt (tenths 10) (calculate_quality_score R e) ≡ false)
  unfolding calculate_quality_score
  calculate_quality_score_range e = clamp_range (raw_score R (len e.content) (length e.tags))
