-- ===== src/Quality/KindConfig.antt =====
-- internal/quality/kind_config.go: the configuration of each kind of event, and its validation.
-- The scores are in the child modules.
pub mod Validation
pub mod Rules
pub mod Spam
pub mod Score
use mercury_relay.Prelude.{
  ℕ, String, len, str_eq, Bool, true, false, ◌&&◌, Option, none, some, List, [], ◌∷◌, ℤ, pos, ltb_ℤ,
  any, Dict, lookup, if◌then◌else◌,
}
use mercury_relay.Prelude.Decimal.{itoa}
use mercury_relay.Prelude.Json
use mercury_relay.Prelude.Json.{Json, Fields, Stdlib, get, as_object}
use mercury_relay.Models.Event.{Tags}

pub record ContentValidation : Type 0 where
  pub type : String
  pub max_length : ℤ
  pub min_length : ℤ
  pub required_fields : List String

pub record QualityRule (F : Type 0) : Type 0 where
  pub name : String
  pub weight : F
  pub max_follows : ℤ

-- The fields of `EventKindConfig` that the code reads.
pub record EventKindConfig (F : Type 0) : Type 0 where
  pub required_tags : List String
  pub content_validation : ContentValidation
  pub quality_rules : List (QualityRule F)

-- `KindConfigLoader`: the kinds, and the parts of the global configuration that the code reads.
pub record KindConfigLoader (F : Type 0) : Type 0 where
  pub event_kinds : Dict (EventKindConfig F)
  pub spam_enabled : Bool
  pub spam_threshold : F
  pub required_tag_formats : Dict String

pub data ContentError : Type 0 where
  too_long too_short invalid_json not_an_object text_too_long encrypted_empty : ContentError
  missing_field : String → ContentError

pub data TagError : Type 0 where
  missing_tag : String → TagError
  invalid_pattern : String → TagError
  bad_format : String → String → TagError

pub data KindError : Type 0 where
  no_configuration : KindError
  bad_content : ContentError → KindError
  bad_tags : TagError → KindError

-- `len(tag) > 0 && tag[0] == name`
abbrev pub is_named : String → List String → Bool
is_named name [] = false
is_named name (t ∷ ts) = str_eq t name

-- `len(tag) >= 2 && tag[0] == name`, with the value `tag[1]`.
abbrev pub value_of : String → List String → Option String
value_of name (t ∷ v ∷ ts) = if str_eq t name then some v else none
value_of name _ = none

module _ {F : Type 0} (lib : Stdlib F) where
  -- The loop over `RequiredFields`.
  unfoldable pub check_fields : List String → Fields F → Option ContentError
  check_fields [] m = none
  check_fields (field ∷ fields) m = elim (get field m) [
    | none ↦ some (missing_field field)
    | some _ ↦ check_fields fields m
  ]

  -- The case "json" for a content that is not empty.
  unfoldable pub check_json : List String → String → Option ContentError
  unfolding check_fields
  check_json required content = elim (lib.decode content) [
    | none ↦ some invalid_json
    | some j ↦ elim required [
      | [] ↦ none
      | field ∷ fields ↦ elim (as_object j) [
        | none ↦ some not_an_object
        | some m ↦ check_fields (field ∷ fields) m
      ]
    ]
  ]

  -- `0 < bound && bound < size`, and the other way round.
  abbrev pub exceeds : ℤ → String → Bool
  exceeds bound content = ltb_ℤ (pos 0) bound && ltb_ℤ bound (pos (len content))

  abbrev pub falls_short : ℤ → String → Bool
  falls_short bound content = ltb_ℤ (pos 0) bound && ltb_ℤ (pos (len content)) bound

  -- `validateContent`. In the case "base64" the code asks whether the text can be written as JSON,
  -- which every text can, so nothing is refused.
  unfoldable pub validate_content : ContentValidation → String → Option ContentError
  unfolding check_json
  validate_content v content =
      if exceeds v.max_length content
      then some too_long
      else if falls_short v.min_length content
      then some too_short
      else if str_eq v.type "json"
      then (if str_eq content "" then none else check_json v.required_fields content)
      else if str_eq v.type "text"
      then (if exceeds v.max_length content then some text_too_long else none)
      else if str_eq v.type "encrypted"
      then (if str_eq content "" then some encrypted_empty else none)
      else none

  unfoldable pub check_required : List String → Tags → Option TagError
  check_required [] tags = none
  check_required (name ∷ names) tags =
      let rest = check_required names tags in
      if any (is_named name) tags then rest else some (missing_tag name)

  -- The test of one tag against the configured formats.
  unfoldable pub check_format : Dict String → List String → Option TagError
  check_format formats (name ∷ value ∷ more) = elim (lookup name formats) [
    | none ↦ none
    | some pattern ↦ elim (lib.match_string pattern value) [
      | none ↦ some (invalid_pattern name)
      | some true ↦ none
      | some false ↦ some (bad_format name value)
    ]
  ]
  check_format formats _ = none

  unfoldable pub check_formats : Dict String → Tags → Option TagError
  unfolding check_format
  check_formats formats [] = none
  check_formats formats (tag ∷ tags) = elim (check_format formats tag) [
    | some e ↦ some e
    | none ↦ check_formats formats tags
  ]

  unfoldable pub validate_tags : Dict String → List String → Tags → Option TagError
  unfolding check_required check_formats
  validate_tags formats required tags = elim (check_required required tags) [
    | some e ↦ some e
    | none ↦ check_formats formats tags
  ]

  unfoldable pub get_kind_config : KindConfigLoader F → ℤ → Option (EventKindConfig F)
  get_kind_config k kind = lookup (itoa kind) k.event_kinds

  unfoldable pub validate_event_kind : KindConfigLoader F → ℤ → String → Tags → Option KindError
  unfolding get_kind_config validate_content validate_tags
  validate_event_kind k kind content tags = elim (get_kind_config k kind) [
    | none ↦ some no_configuration
    | some config ↦ elim (validate_content config.content_validation content) [
      | some e ↦ some (bad_content e)
      | none ↦ elim (validate_tags k.required_tag_formats config.required_tags tags) [
        | some e ↦ some (bad_tags e)
        | none ↦ none
      ]
    ]
  ]
