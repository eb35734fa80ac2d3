-- ===== src/Quality/KindConfig/Validation.antt =====
-- What the validation of internal/quality/kind_config.go accepts, stated without its order of tests.
use mercury_relay.Prelude.{
  Any, String, len, ◌≡◌, refl, ◌≢◌, ◌↔◌, inl, inr, true, none, some, List, [], ◌∷◌, arith, ℤ, pos,
  ◌≤ℤ◌, ◌<ℤ◌, any, All, Dict, lookup, eq_iff, Option-cases,
}
use mercury_relay.Prelude.Json.{Json, Fields, Stdlib, get}
use mercury_relay.Models.Event.{Tags}
use mercury_relay.Quality.KindConfig.{
  ContentValidation, EventKindConfig, KindConfigLoader, is_named, check_fields, check_json,
  validate_content, check_required, check_format, check_formats, validate_tags, get_kind_config,
  validate_event_kind,
}

module _ {F : Type 0} (lib : Stdlib F) where
  abbrev pub HasField : Fields F → String → Type 0
  HasField m field = get field m ≢ none

  -- A JSON text; with required fields, an object that has each of them.
  abbrev pub IsJson : List String → String → Type 0
  IsJson [] content = lib.decode content ≢ none
  IsJson (field ∷ fields) content =
      (m : Fields F) × (lib.decode content ≡ some (Json.obj m)) × All (HasField m) (field ∷ fields)

  pub record ContentIsValid (v : ContentValidation) (content : String) : Type 0 where
    pub not_long : pos 0 <ℤ v.max_length → pos (len content) ≤ℤ v.max_length
    pub not_short : pos 0 <ℤ v.min_length → v.min_length ≤ℤ pos (len content)
    pub json : v.type ≡ "json" → content ≢ "" → IsJson v.required_fields content
    pub encrypted : v.type ≡ "encrypted" → content ≢ ""

  -- A tag whose name has a configured format has a value of that format, if it has a value.
  abbrev pub TagMatches : Dict String → List String → Type 0
  TagMatches formats (name ∷ value ∷ more) =
      (pattern : String)
      → lookup name formats ≡ some pattern
      → lib.match_string pattern value ≡ some true
  TagMatches formats _ = Unit

  abbrev pub IsNamed : String → List String → Type 0
  IsNamed name [] = ⊥
  IsNamed name (t ∷ ts) = t ≡ name

  pub record TagsAreValid (formats : Dict String) (required : List String) (tags : Tags)
      : Type 0 where
    pub present : All (λ name. Any (IsNamed name) tags) required
    pub formatted : All (TagMatches formats) tags

  check_fields_iff :
      (fields : List String) (m : Fields F)
      → (check_fields lib fields m ≡ none) ↔ All (HasField m) fields
  unfolding check_fields
  check_fields_iff [] m = (λ h. tt, λ h. refl)
  check_fields_iff (f ∷ fs) m = ground (arith, check_fields_iff fs m)

  IsJson-only :
      (f : String) (fs : List String) (content : String)
      → check_json lib (f ∷ fs) content ≡ none
      → IsJson (f ∷ fs) content
  unfolding check_json
  IsJson-only f fs content h = elim (Option-cases (lib.decode content)) [
    | inl e ↦ cc
    | inr (j, e) ↦ go j e
  ]
    where
      go : (j : Json F) → lib.decode content ≡ some j → IsJson (f ∷ fs) content
      go (Json.obj m) e = (m, e, ground (arith, check_fields_iff (f ∷ fs) m))
      go j e = ground arith

  check_json_iff :
      (required : List String) (content : String)
      → (check_json lib required content ≡ none) ↔ IsJson required content
  unfolding check_json
  check_json_iff [] content = ground arith
  check_json_iff (f ∷ fs) content =
      (IsJson-only f fs content, λ (m, e, all). ground (arith, check_fields_iff (f ∷ fs) m))

  validated_only :
      (v : ContentValidation) (content : String)
      → validate_content lib v content ≡ none
      → ContentIsValid v content
  unfolding validate_content
  validated_only v content h = record {
    not_long = ground arith;
    not_short = ground arith;
    json = λ t c.
        ground (
          arith,
          check_json_iff v.required_fields content,
          eq_iff v.type "json",
          eq_iff content "",
        );
    encrypted = λ t. ground (
      arith,
      eq_iff v.type "json",
      eq_iff v.type "text",
      eq_iff v.type "encrypted",
      eq_iff "encrypted" "text",
      eq_iff "encrypted" "json",
      eq_iff content "",
    );
  }

  validated_all :
      (v : ContentValidation) (content : String)
      → ContentIsValid v content
      → validate_content lib v content ≡ none
  unfolding validate_content
  validated_all v content h = ground (
    arith,
    check_json_iff v.required_fields content,
    eq_iff v.type "json",
    eq_iff v.type "encrypted",
    eq_iff content "",
  )

  any-is_named :
      (name : String) (tags : Tags) → (any (is_named name) tags ≡ true) ↔ Any (IsNamed name) tags
  any-is_named name [] = ground arith
  any-is_named name ([] ∷ tags) = ground (arith, any-is_named name tags)
  any-is_named name ((t ∷ ts) ∷ tags) = ground (arith, any-is_named name tags, eq_iff t name)

  check_required_iff :
      (names : List String) (tags : Tags)
      → (check_required lib names tags ≡ none) ↔ All (λ name. Any (IsNamed name) tags) names
  unfolding check_required
  check_required_iff [] tags = (λ h. tt, λ h. refl)
  check_required_iff (n ∷ names) tags =
      ground (arith, check_required_iff names tags, any-is_named n tags)

  format_all :
      (formats : Dict String) (n v : String) (more : List String)
      → TagMatches formats (n ∷ v ∷ more)
      → check_format lib formats (n ∷ v ∷ more) ≡ none
  unfolding check_format
  format_all formats n v more h = elim (Option-cases (lookup n formats)) [
    | inl e ↦ ground arith
    | inr (pattern, e) ↦ ground (arith, h pattern e)
  ]

  check_format_iff :
      (formats : Dict String) (tag : List String)
      → (check_format lib formats tag ≡ none) ↔ TagMatches formats tag
  unfolding check_format
  check_format_iff formats [] = (λ h. tt, λ h. refl)
  check_format_iff formats (n ∷ []) = (λ h. tt, λ h. refl)
  check_format_iff formats (n ∷ v ∷ more) =
      (λ h pattern e. ground arith, λ h. format_all formats n v more h)

  check_formats_iff :
      (formats : Dict String) (tags : Tags)
      → (check_formats lib formats tags ≡ none) ↔ All (TagMatches formats) tags
  unfolding check_formats
  check_formats_iff formats [] = (λ h. tt, λ h. refl)
  check_formats_iff formats (tag ∷ tags) =
      ground (arith, check_format_iff formats tag, check_formats_iff formats tags)

  validate_tags_iff :
      (formats : Dict String) (required : List String) (tags : Tags)
      → (validate_tags lib formats required tags ≡ none) ↔ TagsAreValid formats required tags
  unfolding validate_tags
  validate_tags_iff formats required tags =
      ground (arith, check_required_iff required tags, check_formats_iff formats tags)

  pub record AcceptsKind (k : KindConfigLoader F) (kind : ℤ) (content : String) (tags : Tags)
      : Type 0 where
    pub config : EventKindConfig F
    pub found : get_kind_config lib k kind ≡ some config
    pub content_valid : ContentIsValid config.content_validation content
    pub tags_valid : TagsAreValid k.required_tag_formats config.required_tags tags

  accepted_only :
      (k : KindConfigLoader F) (kind : ℤ) (content : String) (tags : Tags)
      → validate_event_kind lib k kind content tags ≡ none
      → AcceptsKind k kind content tags
  unfolding validate_event_kind
  accepted_only k kind content tags h = elim (Option-cases (get_kind_config lib k kind)) [
    | inl e ↦ cc
    | inr (config, e) ↦ record {
      config = config;
      found = e;
      content_valid = validated_only config.content_validation content (ground arith);
      tags_valid =
          (validate_tags_iff k.required_tag_formats config.required_tags tags).0 (ground arith);
    }
  ]

  -- `ValidateEventKind` accepts exactly the events whose kind has a configuration, whose content
  -- keeps those of its bounds that are positive, is JSON with the required fields or nothing at all
  -- where the type is "json", and is not empty where it is "encrypted", and whose tags hold every
  -- required name and match every configured format. Any other type asks for nothing, "empty" too,
  -- so that a kind of this type with a greatest length of 0 takes any content.
  pub validate_event_kind_iff :
      (k : KindConfigLoader F) (kind : ℤ) (content : String) (tags : Tags)
      → (validate_event_kind lib k kind content tags ≡ none) ↔ AcceptsKind k kind content tags
  unfolding validate_event_kind
  validate_event_kind_iff k kind content tags = (
    accepted_only k kind content tags,
    λ a. ground (
      arith,
      a.found,
      validated_all a.config.content_validation content a.content_valid,
      (validate_tags_iff k.required_tag_formats a.config.required_tags tags).1 a.tags_valid,
    ),
  )
