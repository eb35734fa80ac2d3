-- ===== src/Quality/KindConfig/Rules.antt =====
-- `calculateRuleScore` of internal/quality/kind_config.go: what one quality rule gives.
use mercury_relay.Prelude.{
  ℕ, String, len, str_eq, Bool, true, false, ◌&&◌, ◌||◌, none, some, List, [], ◌∷◌, ℤ, pos, ltb_ℤ,
  ltb, ◌==◌, any, length, if◌then◌else◌, filter,
}
use text.Mathlib.Text.{find?}
use mercury_relay.Prelude.Float.{Float}
use mercury_relay.Prelude.Json.{Stdlib, get, as_object}
use mercury_relay.Models.Event.{Tags}
use mercury_relay.Quality.KindConfig.{QualityRule, value_of}

-- `strings.Contains`
abbrev pub contains : String → String → Bool
contains s t = elim (find? s t) [ none ↦ false | some _ ↦ true ]

-- How many tags have the name and at least one value.
abbrev pub has_value : String → List String → Bool
has_value name tag = elim (value_of name tag) [ none ↦ false | some _ ↦ true ]

abbrev pub count_named : String → Tags → ℕ
count_named name tags = length (filter (has_value name) tags)

-- Some tag has the name and a value that passes a test.
abbrev pub passes_value : String → (String → Bool) → List String → Bool
passes_value name test tag = elim (value_of name tag) [ none ↦ false | some v ↦ test v ]

abbrev pub not_empty : String → Bool
not_empty v = if str_eq v "" then false else true

abbrev pub is_key : String → Bool
is_key v = len v == 64

abbrev pub is_answer : String → Bool
is_answer v = str_eq v "yes" || str_eq v "ask" || str_eq v "no"

-- The names of the `switch`.
pub data RuleName : Type 0 where
  valid_json has_name reasonable_length valid_p_tags reasonable_follow_count : RuleName
  valid_d_tag valid_title_tag valid_a_tags valid_auto_update valid_derivative_work : RuleName
  valid_content valid_asciidoc valid_wikilinks other : RuleName

unfoldable pub rule_name : String → RuleName
rule_name s =
    if str_eq s "valid_json"
    then valid_json
    else if str_eq s "has_name"
    then has_name
    else if str_eq s "reasonable_length"
    then reasonable_length
    else if str_eq s "valid_p_tags"
    then valid_p_tags
    else if str_eq s "reasonable_follow_count"
    then reasonable_follow_count
    else if str_eq s "valid_d_tag"
    then valid_d_tag
    else if str_eq s "valid_title_tag"
    then valid_title_tag
    else if str_eq s "valid_a_tags"
    then valid_a_tags
    else if str_eq s "valid_auto_update"
    then valid_auto_update
    else if str_eq s "valid_derivative_work"
    then valid_derivative_work
    else if str_eq s "valid_content"
    then valid_content
    else if str_eq s "valid_asciidoc"
    then valid_asciidoc
    else if str_eq s "valid_wikilinks"
    then valid_wikilinks
    else other

module _ (R : Float) (lib : Stdlib R.F) where
  open R use {F, tenths, div, of_int}

  abbrev one_or : F → Bool → F
  one_or low pass = if pass then tenths 10 else low

  -- Whether the content decodes into a map that has the key "name". The literal `null` decodes
  -- into a nil map.
  unfoldable pub has_name_field : String → Bool
  has_name_field content = elim (lib.decode content) [
    | none ↦ false
    | some j ↦ elim (as_object j) [
      | none ↦ false
      | some m ↦ elim (get "name" m) [ none ↦ false | some _ ↦ true ]
    ]
  ]

  unfoldable pub p_tag_share : Tags → F
  p_tag_share [] = tenths 10
  p_tag_share (tag ∷ tags) =
      div (of_int (pos (length (filter (passes_value "p" is_key) (tag ∷ tags)))))
        (of_int (pos (length (tag ∷ tags))))

  unfoldable pub score_by_name : RuleName → ℤ → String → Tags → F
  unfolding has_name_field p_tag_share
  score_by_name valid_json max_follows content tags =
      one_or (tenths 0)
        (str_eq content "" || elim (lib.decode content) [ none ↦ false | some _ ↦ true ])
  score_by_name has_name max_follows content tags =
      one_or (tenths 0) (not_empty content && has_name_field content)
  score_by_name reasonable_length max_follows content tags =
      one_or (tenths 5) (ltb 0 (len content) && ltb (len content) 1000)
  score_by_name valid_p_tags max_follows content tags = p_tag_share tags
  score_by_name reasonable_follow_count max_follows content tags =
      if ltb_ℤ (pos 0) max_follows
      then (if ltb_ℤ max_follows (pos (count_named "p" tags)) then tenths 5 else tenths 10)
      else tenths 10
  score_by_name valid_d_tag max_follows content tags =
      one_or (tenths 0) (any (passes_value "d" not_empty) tags)
  score_by_name valid_title_tag max_follows content tags =
      one_or (tenths 0) (any (passes_value "title" not_empty) tags)
  score_by_name valid_a_tags max_follows content tags =
      one_or (tenths 0) (any (passes_value "a" not_empty) tags)
  score_by_name valid_auto_update max_follows content tags =
      one_or (tenths 0) (any (passes_value "auto-update" is_answer) tags)
  score_by_name valid_derivative_work max_follows content tags =
      one_or (tenths 10) (any (has_value "p") tags || any (has_value "E") tags)
  score_by_name valid_content max_follows content tags = one_or (tenths 0) (ltb 0 (len content))
  score_by_name valid_asciidoc max_follows content tags =
      one_or (tenths 8) (contains content "=" || contains content "==")
  score_by_name valid_wikilinks max_follows content tags =
      one_or (tenths 9) (contains content "[[" && contains content "]]")
  score_by_name other max_follows content tags = tenths 10

  unfoldable pub calculate_rule_score : QualityRule F → String → Tags → F
  unfolding rule_name score_by_name
  calculate_rule_score rule content tags =
      score_by_name (rule_name rule.name) rule.max_follows content tags
