-- ===== src/Quality/KindConfig/Score.antt =====
-- `CalculateQualityScore` of internal/quality/kind_config.go.
use mercury_relay.Prelude.{
  String, ◌≡◌, false, Option, none, some, List, [], ◌∷◌, arith, ℤ, Option-cases, inl, inr,
  if◌then◌else◌,
}
use mercury_relay.Prelude.Float.{Float, IsIeee}
use mercury_relay.Prelude.Json.{Stdlib}
use mercury_relay.Models.Event.{Tags, clamp}
use mercury_relay.Models.Event.Score.{clamp_range}
use mercury_relay.Quality.KindConfig.{
  QualityRule, EventKindConfig, KindConfigLoader, get_kind_config,
}
use mercury_relay.Quality.KindConfig.Rules.{calculate_rule_score}
use mercury_relay.Quality.KindConfig.Spam.{calculate_spam_score}

module _ (R : Float) (lib : Stdlib R.F) where
  open R use {F, tenths, sub, mul, lt}

  -- `score *= (1.0 - (rule.Weight * (1.0 - ruleScore)))` for every rule.
  unfoldable pub apply_rules : List (QualityRule F) → String → Tags → F → F
  apply_rules [] content tags score = score
  apply_rules (rule ∷ rules) content tags score =
      let rule_score = calculate_rule_score R lib rule content tags in
      apply_rules rules content tags
        (mul score (sub (tenths 10) (mul rule.weight (sub (tenths 10) rule_score))))

  -- The score before the two final tests.
  unfoldable pub raw_kind_score : KindConfigLoader F → EventKindConfig F → String → Tags → F
  unfolding apply_rules
  raw_kind_score k config content tags =
      let score = apply_rules config.quality_rules content tags (tenths 10) in
      if k.spam_enabled
      then mul score
          (sub (tenths 10) (mul k.spam_threshold (calculate_spam_score R lib content tags)))
      else score

  -- `none` is the error of a kind with no configuration.
  unfoldable pub calculate_kind_score : KindConfigLoader F → ℤ → String → Tags → Option F
  calculate_kind_score k kind content tags = elim (get_kind_config lib k kind) [
    | none ↦ none
    | some config ↦ some (clamp R (raw_kind_score k config content tags))
  ]

  -- Whatever the weights, a score that the rules of a kind give is neither below 0 nor above 1.
  pub calculate_kind_score_range :
      (ieee : IsIeee R) (k : KindConfigLoader F) (kind : ℤ) (content : String) (tags : Tags) (x : F)
      → calculate_kind_score k kind content tags ≡ some x
      → (lt x (tenths 0) ≡ false) × (lt (tenths 10) x ≡ false)
  unfolding calculate_kind_score
  calculate_kind_score_range ieee k kind content tags x h =
      elim (Option-cases (get_kind_config lib k kind)) [
        | inl e ↦ cc
        | inr f ↦
            let range = clamp_range R ieee (raw_kind_score k f.0 content tags) in
            ground (arith, range)
      ]
