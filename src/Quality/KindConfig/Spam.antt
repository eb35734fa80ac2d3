-- ===== src/Quality/KindConfig/Spam.antt =====
-- `calculateSpamScore` of internal/quality/kind_config.go and the two tests of the content.
use mercury_relay.Prelude.{
  ℕ, suc, String, Bool, false, ◌||◌, none, some, List, [], ◌∷◌, map, pos, ltb, any, length,
  if◌then◌else◌, filter, Dict, lookup, insert,
}
use mercury_relay.Prelude.Float.{Float}
use mercury_relay.Prelude.Json.{Stdlib}
use mercury_relay.Models.Event.{Tags}
use mercury_relay.Quality.KindConfig.Rules.{contains, has_value}

-- `wordCounts[w]++` for every word.
unfoldable pub count_words : List String → Dict ℕ → Dict ℕ
count_words [] counts = counts
count_words (w ∷ ws) counts =
    count_words ws (insert w (elim (lookup w counts) [ none ↦ 1 | some n ↦ suc n ]) counts)

abbrev pub suspicious_patterns : List String
suspicious_patterns = "click here" ∷ "free money" ∷ "guaranteed" ∷ "act now" ∷ "limited time" ∷ []

module _ (R : Float) (lib : Stdlib R.F) where
  open R use {F, tenths, add, div, lt, of_int}

  unfoldable pub is_repetitive_content : String → Bool
  unfolding count_words
  is_repetitive_content content =
      let words = lib.fields content in
      if ltb (length words) 3
      then false
      else any (λ (w, n). lt (tenths 5) (div (of_int (pos n)) (of_int (pos (length words)))))
          (count_words (map lib.to_lower words) [])

  unfoldable pub has_suspicious_patterns : String → Bool
  has_suspicious_patterns content =
      let content_lower = lib.to_lower content in any (contains content_lower) suspicious_patterns

  unfoldable pub mention_count : Tags → ℕ
  mention_count tags = length (filter (λ tag. has_value "p" tag || has_value "e" tag) tags)

  unfoldable pub calculate_spam_score : String → Tags → F
  unfolding is_repetitive_content has_suspicious_patterns mention_count
  calculate_spam_score content tags =
      let score = tenths 0 in
      let score = if is_repetitive_content content then add score (tenths 3) else score in
      let score = if ltb 10 (mention_count tags) then add score (tenths 2) else score in
      if has_suspicious_patterns content then add score (tenths 4) else score
