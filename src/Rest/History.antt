-- ===== src/Rest/History.antt =====
-- internal/api/history.go: the versions of a replaceable event. A version is the object that was
-- decoded for it.
use mercury_relay.Prelude.{
  String, ◌<>◌, str_eq, Bool, false, not, ◌&&◌, ◌⊎◌, inl, inr, Option, none, some, List, [], ◌∷◌,
  ◌++◌, ℤ, if◌then◌else◌,
}
use mercury_relay.Prelude.Decimal.{atoi, itoa}
use mercury_relay.Prelude.Float.{Float}
use mercury_relay.Prelude.Json.{Json, Fields, get}
use mercury_relay.Cache.{Cache}

pub data HistoryError (E : Type 0) : Type 0 where
  invalid_kind invalid_from_version invalid_to_version invalid_version : HistoryError E
  version_not_found invalid_event_id not_implemented : HistoryError E
  history_failed : E → HistoryError E

-- `calculateEventDiff`'s result; a value that is missing is `none`, Go's nil.
pub record Diff (F : Type 0) : Type 0 where
  pub added : List String
  pub removed : List String
  pub modified : List String
  pub changes : List (String × (Option (Json F) × Option (Json F)))

module _ {F : Type 0} where
  abbrev pub empty_diff : Diff F
  empty_diff = record { added = []; removed = []; modified = []; changes = [] }

  -- One turn of the loop; `sprint` is `fmt.Sprintf("%v", ...)`.
  unfoldable pub compare_field :
      (Json F → String) → String → Option (Json F) → Option (Json F) → Diff F → Diff F
  compare_field sprint name none none d = d
  compare_field sprint name none (some to) d = record d {
    added = d.added ++ name ∷ [];
    changes = d.changes ++ (name, (none, some to)) ∷ [];
  }
  compare_field sprint name (some from) none d = record d {
    removed = d.removed ++ name ∷ [];
    changes = d.changes ++ (name, (some from, none)) ∷ [];
  }
  compare_field sprint name (some from) (some to) d =
      if str_eq (sprint from) (sprint to) then d else record d {
        modified = d.modified ++ name ∷ [];
        changes = d.changes ++ (name, (some from, some to)) ∷ [];
      }

  unfoldable pub compare_fields :
      (Json F → String) → List String → Fields F → Fields F → Diff F → Diff F
  unfolding compare_field
  compare_fields sprint [] from to d = d
  compare_fields sprint (name ∷ names) from to d =
      compare_fields sprint names from to
        (compare_field sprint name (get name from) (get name to) d)

  unfoldable pub calculate_event_diff : (Json F → String) → Fields F → Fields F → Diff F
  unfolding compare_fields
  calculate_event_diff sprint from to =
      compare_fields sprint ("event_id" ∷ "created_at" ∷ "hash" ∷ []) from to empty_diff

module _ (R : Float) where
  open R use {F, lt, of_int}

  -- `version["version"] == float64(n)`; no decoded number is NaN.
  unfoldable pub has_version : ℤ → Fields F → Bool
  has_version n version = elim (get "version" version) [
    | some (Json.num x) ↦ not (lt x (of_int n)) && not (lt (of_int n) x)
    | _ ↦ false
  ]

  -- The loop of `HandleEventDiff`, which keeps the last that fits.
  unfoldable pub last_version : ℤ → List (Fields F) → Option (Fields F) → Option (Fields F)
  unfolding has_version
  last_version n [] found = found
  last_version n (version ∷ versions) found =
      last_version n versions (if has_version n version then some version else found)

  -- The loop of `HandleEventVersion`, which stops at the first.
  unfoldable pub first_version : ℤ → List (Fields F) → Option (Fields F)
  unfolding has_version
  first_version n [] = none
  first_version n (version ∷ versions) =
      let rest = first_version n versions in if has_version n version then some version else rest

  abbrev pub history_key : ℤ → String → String → String
  history_key kind pubkey d = itoa kind <> ":" <> pubkey <> ":" <> d

  module _ (C : Cache F) where
    unfoldable pub handle_event_history :
        String → String → String → C.State → HistoryError C.Error ⊎ (String × List (Fields F))
    handle_event_history kind_text pubkey d st = elim (atoi kind_text) [
      | none ↦ inl invalid_kind
      | some kind ↦ elim (C.get_replaceable_event_history kind pubkey d st) [
        | inl err ↦ inl (history_failed err)
        | inr history ↦ inr (history_key kind pubkey d, history)
      ]
    ]

    -- The end of `HandleEventDiff`.
    unfoldable pub diff_versions :
        (Json F → String) → ℤ → ℤ → List (Fields F) → HistoryError C.Error ⊎ Diff F
    unfolding last_version calculate_event_diff
    diff_versions sprint from_version to_version history =
        elim (last_version from_version history none) [
          | none ↦ inl version_not_found
          | some from ↦ elim (last_version to_version history none) [
            | none ↦ inl version_not_found
            | some to ↦ inr (calculate_event_diff sprint from to)
          ]
        ]

    unfoldable pub handle_event_diff :
        (Json F → String)
        → String
        → String
        → String
        → String
        → String
        → C.State
        → HistoryError C.Error ⊎ Diff F
    unfolding diff_versions
    handle_event_diff sprint kind_text pubkey d from_text to_text st = elim (atoi kind_text) [
      | none ↦ inl invalid_kind
      | some kind ↦ elim (atoi from_text) [
        | none ↦ inl invalid_from_version
        | some from_version ↦ elim (atoi to_text) [
          | none ↦ inl invalid_to_version
          | some to_version ↦ elim (C.get_replaceable_event_history kind pubkey d st) [
            | inl err ↦ inl (history_failed err)
            | inr history ↦ diff_versions sprint from_version to_version history
          ]
        ]
      ]
    ]

    -- The end of `HandleEventVersion`: the version's own data, not the event.
    unfoldable pub found_version : ℤ → List (Fields F) → HistoryError C.Error ⊎ Fields F
    unfolding first_version
    found_version n history = elim (first_version n history) [
      | none ↦ inl version_not_found
      | some version ↦ elim (get "event_id" version) [
        | some (Json.str id) ↦ inr version
        | _ ↦ inl invalid_event_id
      ]
    ]

    unfoldable pub handle_event_version :
        String → String → String → String → C.State → HistoryError C.Error ⊎ Fields F
    unfolding found_version
    handle_event_version kind_text pubkey d version_text st = elim (atoi kind_text) [
      | none ↦ inl invalid_kind
      | some kind ↦ elim (atoi version_text) [
        | none ↦ inl invalid_version
        | some n ↦ elim (C.get_replaceable_event_history kind pubkey d st) [
          | inl err ↦ inl (history_failed err)
          | inr history ↦ found_version n history
        ]
      ]
    ]

    -- `HandleEventHistoryByID` and `HandleEventDiffByID` answer alike, whatever they are asked.
    unfoldable pub handle_event_history_by_id : String → HistoryError C.Error
    handle_event_history_by_id event_id = not_implemented

    unfoldable pub handle_event_diff_by_id : String → String → HistoryError C.Error
    handle_event_diff_by_id from_event_id to_event_id = not_implemented
