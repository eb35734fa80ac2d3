-- ===== src/Streaming/Messages.antt =====
-- internal/streaming/upstream.go: the messages of an upstream relay.
use mercury_relay.Prelude.{
  ℕ, String, str_eq, false, Option, none, some, List, [], ◌∷◌, if◌then◌else◌,
}
use mercury_relay.Prelude.Float.{Float}
use mercury_relay.Prelude.Json
use mercury_relay.Prelude.Json.{Json, Fields, Stdlib, as_string, as_object, as_array}
use mercury_relay.Models.Event.{Event, Tags, validate}
use mercury_relay.Queue.{Queue}
use mercury_relay.Cache.{Cache}
use mercury_relay.Quality.Controller.{Controller, validate_event}
use mercury_relay.Relay.Server.Parse.{field, string_or, int_or_zero}

pub data UpstreamError : Type 0 where
  invalid_json message_too_short invalid_message_type event_requires_data : UpstreamError
  invalid_subscription_id invalid_event_data eose_requires_id : UpstreamError
  notice_requires_message invalid_notice_message : UpstreamError

module _ {F : Type 0} where
  -- A tag is kept if it begins with two texts, and these are what is kept of it.
  unfoldable pub parse_tag : List (Json F) → Option (List String)
  parse_tag (type ∷ value ∷ rest) = elim (as_string type) [
    | none ↦ none
    | some tag_type ↦ elim (as_string value) [
      | none ↦ none
      | some tag_value ↦ some (tag_type ∷ tag_value ∷ [])
    ]
  ]
  parse_tag _ = none

  unfoldable pub parse_tags : List (Json F) → Tags
  parse_tags [] = []
  parse_tags (tag ∷ tags) =
      let rest = parse_tags tags in
      elim (as_array tag) [
        | none ↦ rest
        | some items ↦ elim (parse_tag items) [ none ↦ rest | some t ↦ t ∷ rest ]
      ]

  unfoldable pub handle_upstream_eose : List (Json F) → Option UpstreamError
  handle_upstream_eose [] = some eose_requires_id
  handle_upstream_eose (id ∷ args) = elim (as_string id) [
    | none ↦ some invalid_subscription_id
    | some _ ↦ none
  ]

  unfoldable pub handle_upstream_notice : List (Json F) → Option UpstreamError
  handle_upstream_notice [] = some notice_requires_message
  handle_upstream_notice (message ∷ args) = elim (as_string message) [
    | none ↦ some invalid_notice_message
    | some _ ↦ none
  ]

module _ (R : Float) where
  open R use {F, tenths}

  -- The event of `handleUpstreamEvent`.
  unfoldable pub parse_upstream_event : Fields F → Event F
  unfolding parse_tags
  parse_upstream_event fs = record {
    id = string_or "" "id" fs;
    pub_key = string_or "" "pubkey" fs;
    created_at = int_or_zero R "created_at" fs;
    kind = int_or_zero R "kind" fs;
    tags = elim (field as_array "tags" fs) [ none ↦ [] | some tags ↦ parse_tags tags ];
    content = string_or "" "content" fs;
    sig = string_or "" "sig" fs;
    quality_score = tenths 0;
    is_quarantined = false;
    quarantine_reason = "";
    created_at_db = none;
  }

  module _ (lib : Stdlib F) (Q : Queue F) (C : Cache F) where
    -- What the manager shares with the other components.
    pub record Shared : Type 0 where
      pub quality_control : Controller F
      pub queue : Q.State
      pub cache : C.State

    -- The end of `handleUpstreamEvent`, for an event that the quality controller lets through.
    unfoldable pub store_and_publish : Event F → Shared → Shared
    store_and_publish e s = record s {
      cache = (C.store_event e s.cache).0;
      queue = (Q.publish_event e s.queue).0;
    }

    -- From the validation on; the clock is read twice by `Validate`, and by the rate limit.
    unfoldable pub accept_upstream_event : ℕ → ℕ → ℕ → Event F → Shared → Shared
    unfolding store_and_publish
    accept_upstream_event since now later e s = elim (validate since now e) [
      | some _ ↦ s
      | none ↦
          let out = validate_event R lib Q later s.quality_control s.queue e in
          let s' : Shared = record s { quality_control = out.controller; queue = out.queue } in
          elim out.error [ some _ ↦ s' | none ↦ store_and_publish out.event s' ]
    ]

    unfoldable pub handle_upstream_event :
        ℕ → ℕ → ℕ → List (Json F) → Shared → Shared × Option UpstreamError
    unfolding accept_upstream_event parse_upstream_event
    handle_upstream_event since now later (id ∷ data_arg ∷ args) s = elim (as_string id) [
      | none ↦ (s, some invalid_subscription_id)
      | some _ ↦ elim (as_object data_arg) [
        | none ↦ (s, some invalid_event_data)
        | some event_data ↦
            (accept_upstream_event since now later (parse_upstream_event event_data) s, none)
      ]
    ]
    handle_upstream_event since now later _ s = (s, some event_requires_data)

    -- The switch of `handleUpstreamMessage`.
    unfoldable pub dispatch_upstream :
        ℕ → ℕ → ℕ → String → List (Json F) → Shared → Shared × Option UpstreamError
    unfolding handle_upstream_event handle_upstream_eose handle_upstream_notice
    dispatch_upstream since now later msg_type args s =
        if str_eq msg_type "EVENT"
        then handle_upstream_event since now later args s
        else if str_eq msg_type "EOSE"
        then (s, handle_upstream_eose args)
        else if str_eq msg_type "NOTICE"
        then (s, handle_upstream_notice args)
        else (s, none)

    unfoldable pub handle_upstream_items :
        ℕ → ℕ → ℕ → List (Json F) → Shared → Shared × Option UpstreamError
    unfolding dispatch_upstream
    handle_upstream_items since now later (item ∷ arg ∷ args) s = elim (as_string item) [
      | none ↦ (s, some invalid_message_type)
      | some msg_type ↦ dispatch_upstream since now later msg_type (arg ∷ args) s
    ]
    handle_upstream_items since now later _ s = (s, some message_too_short)

    unfoldable pub handle_upstream_decoded :
        ℕ → ℕ → ℕ → Option (Json F) → Shared → Shared × Option UpstreamError
    unfolding handle_upstream_items
    handle_upstream_decoded since now later (some Json.null) s =
        handle_upstream_items since now later [] s
    handle_upstream_decoded since now later (some (Json.arr items)) s =
        handle_upstream_items since now later (Json.to_list items) s
    handle_upstream_decoded since now later _ s = (s, some invalid_json)

    -- `handleUpstreamMessage`
    unfoldable pub handle_upstream_message :
        ℕ → ℕ → ℕ → String → Shared → Shared × Option UpstreamError
    unfolding handle_upstream_decoded
    handle_upstream_message since now later message s =
        handle_upstream_decoded since now later (lib.decode message) s
