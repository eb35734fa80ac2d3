-- ===== src/Relay/Server/Parse.antt =====
-- internal/relay/relay.go: the filter of a REQ and the event of an EVENT, read from decoded JSON.
use mercury_relay.Prelude.{String, false, Option, none, some, List, [], ◌∷◌, ℤ, pos}
use mercury_relay.Prelude.Float.{Float}
use mercury_relay.Prelude.Json.{Json, Fields, get, as_string, as_number, as_array}
use mercury_relay.Models.Event.{Event}
use mercury_relay.Models.Filter.{Filter}

-- `v, ok := m[name].(string)`, and so on.
abbrev pub field : {F A : Type 0} → (Json F → Option A) → String → Fields F → Option A
field as_type name fs = elim (get name fs) [ none ↦ none | some j ↦ as_type j ]

abbrev pub string_or : {F : Type 0} → String → String → Fields F → String
string_or default name fs = elim (field as_string name fs) [ none ↦ default | some s ↦ s ]

-- The texts of an array; what is no text is passed over.
unfoldable pub strings_of : {F : Type 0} → List (Json F) → List String
strings_of [] = []
strings_of (j ∷ js) =
    let rest = strings_of js in elim (as_string j) [ none ↦ rest | some s ↦ s ∷ rest ]

-- The pubkey that an event claims.
unfoldable pub claimed_pubkey : {F : Type 0} → Fields F → Option String
claimed_pubkey event_data = field as_string "pubkey" event_data

module _ (R : Float) where
  open R use {F, tenths, trunc}

  unfoldable pub ints_of : List (Json F) → List ℤ
  ints_of [] = []
  ints_of (j ∷ js) =
      let rest = ints_of js in elim (as_number j) [ none ↦ rest | some x ↦ trunc x ∷ rest ]

  abbrev pub int_field : String → Fields F → Option ℤ
  int_field name fs = elim (field as_number name fs) [ none ↦ none | some x ↦ some (trunc x) ]

  abbrev pub int_or_zero : String → Fields F → ℤ
  int_or_zero name fs = elim (int_field name fs) [ none ↦ pos 0 | some k ↦ k ]

  -- The filter of `handleREQ`, which reads neither ids nor tags.
  unfoldable pub parse_filter : Fields F → Filter
  unfolding strings_of ints_of
  parse_filter fs = record {
    ids = [];
    authors = elim (field as_array "authors" fs) [ none ↦ [] | some js ↦ strings_of js ];
    kinds = elim (field as_array "kinds" fs) [ none ↦ [] | some js ↦ ints_of js ];
    since = int_field "since" fs;
    until = int_field "until" fs;
    limit = int_or_zero "limit" fs;
  }

  -- The event of `handleEVENT`, which does not read the tags.
  unfoldable pub parse_event : Fields F → Event F
  parse_event fs = record {
    id = string_or "" "id" fs;
    pub_key = string_or "" "pubkey" fs;
    created_at = int_or_zero "created_at" fs;
    kind = int_or_zero "kind" fs;
    tags = [];
    content = string_or "" "content" fs;
    sig = string_or "" "sig" fs;
    quality_score = tenths 0;
    is_quarantined = false;
    quarantine_reason = "";
    created_at_db = none;
  }
