-- ===== src/Rest/Requests.antt =====
-- internal/api/rest.go: querying and publishing. A request is its method, its query values and its
-- decoded body; a reply is an error with its status, or the data.
use mercury_relay.Prelude.{
  ℕ, String, str_eq, Bool, ◌⊎◌, inl, inr, Option, none, some, List, [], ◌∷◌, map, ℤ, pos, ltb_ℤ,
  if◌then◌else◌,
}
use mercury_relay.Prelude.Decimal.{atoi}
use mercury_relay.Prelude.Float.{Float}
use mercury_relay.Prelude.Json.{Stdlib}
use mercury_relay.Models.Event.{Event, NostrEvent, ValidationError, to_nostr_event, validate}
use mercury_relay.Models.Filter.{Filter, empty_filter}
use mercury_relay.Queue.{Queue}
use mercury_relay.Cache.{Cache}
use mercury_relay.Quality.Controller.{Controller, QualityError, validate_event}

pub record EventRequest : Type 0 where
  pub filter : Filter
  pub limit : ℤ

-- The messages of `sendError`, over the errors of the queue or the cache.
pub data ApiError (E : Type 0) : Type 0 where
  invalid_json invalid_kind only_admin : ApiError E
  book_id_required book_not_found invalid_book_metadata book_identifier_not_found : ApiError E
  event_validation_failed : ValidationError → ApiError E
  quality_control_failed : QualityError E → ApiError E
  publish_failed get_events_failed query_failed stats_failed : E → ApiError E
  get_ebooks_failed get_book_failed get_content_failed : E → ApiError E

unfoldable pub status_code : {E : Type 0} → ApiError E → ℕ
status_code invalid_json = 400
status_code invalid_kind = 400
status_code only_admin = 403
status_code book_id_required = 400
status_code book_not_found = 404
status_code invalid_book_metadata = 400
status_code book_identifier_not_found = 400
status_code (event_validation_failed err) = 400
status_code (quality_control_failed err) = 400
status_code (publish_failed err) = 500
status_code (get_events_failed err) = 500
status_code (query_failed err) = 500
status_code (stats_failed err) = 500
status_code (get_ebooks_failed err) = 500
status_code (get_book_failed err) = 500
status_code (get_content_failed err) = 500

-- `url.Values`
abbrev pub Values : Type 0
Values = String → List String

-- `req.URL.Query().Get(name)`
abbrev pub first_value : Values → String → String
first_value query name = elim (query name) [ [] ↦ "" | value ∷ _ ↦ value ]

-- An integer that stands in the query, if one does.
abbrev pub int_value : Values → String → Option ℤ
int_value query name =
    if str_eq (first_value query name) "" then none else atoi (first_value query name)

unfoldable pub ints_of_texts : List String → List ℤ
ints_of_texts [] = []
ints_of_texts (text ∷ texts) =
    let rest = ints_of_texts texts in elim (atoi text) [ none ↦ rest | some k ↦ k ∷ rest ]

-- The filter that `HandleGetEvents` and `HandleStream` read from the query.
unfoldable pub filter_of_query : Values → Filter
unfolding ints_of_texts
filter_of_query query = record empty_filter {
  authors = query "authors";
  kinds = ints_of_texts (query "kinds");
  since = int_value query "since";
  until = int_value query "until";
  limit = elim (int_value query "limit") [ none ↦ pos 0 | some l ↦ l ];
}

-- The filter of a request: of its query, or of its body, whose own limit counts if positive.
unfoldable pub filter_of_request : String → Values → Option EventRequest → Option Filter
unfolding filter_of_query
filter_of_request method query body =
    if str_eq method "GET" then some (filter_of_query query) else elim body [
      | none ↦ none
      | some request ↦ some (
          if ltb_ℤ (pos 0) request.limit
          then record request.filter { limit = request.limit }
          else request.filter)
    ]

module _ {F : Type 0} (C : Cache F) where
  abbrev pub Reply : Type 0 → Type 0
  Reply A = C.State × (ApiError C.Error ⊎ A)

  -- The events of the cache as Nostr events.
  abbrev pub nostr_events :
      (C.Error → ApiError C.Error) → C.State × (C.Error ⊎ List (Event F)) → Reply (List NostrEvent)
  nostr_events on_failure (st, inl err) = (st, inl (on_failure err))
  nostr_events on_failure (st, inr events) = (st, inr (map (λ e. to_nostr_event e) events))

  unfoldable pub handle_get_events :
      String → Values → Option EventRequest → C.State → Reply (List NostrEvent)
  unfolding filter_of_request
  handle_get_events method query body st = elim (filter_of_request method query body) [
    | none ↦ (st, inl invalid_json)
    | some filter ↦ nostr_events get_events_failed (C.get_events filter st)
  ]

  unfoldable pub handle_query : Option EventRequest → C.State → Reply (List NostrEvent)
  handle_query none st = (st, inl invalid_json)
  handle_query (some request) st = nostr_events query_failed (C.get_events request.filter st)

  -- The events that `HandleStream` writes, up to the first that cannot be written.
  unfoldable pub written : (NostrEvent → Bool) → List NostrEvent → List NostrEvent
  written can_write [] = []
  written can_write (e ∷ events) =
      let rest = written can_write events in if can_write e then e ∷ rest else []

  unfoldable pub handle_stream : (NostrEvent → Bool) → Values → C.State → Reply (List NostrEvent)
  unfolding filter_of_query written
  handle_stream can_write query st =
      let (st, reply) = nostr_events get_events_failed (C.get_events (filter_of_query query) st) in
      (st, elim reply [ inl err ↦ inl err | inr events ↦ inr (written can_write events) ])

module _ (R : Float) (lib : Stdlib R.F) (Q : Queue R.F) where
  open R use {F}

  -- What `HandlePublish` leaves of the quality controller and the queue, and the identifier that it
  -- replies with.
  pub record Published : Type 0 where
    pub controller : Option (Controller F)
    pub queue : Q.State
    pub reply : ApiError Q.Error ⊎ String

  -- Where there is no quality controller, the event goes to the queue as it is.
  unfoldable pub publish_checked : ℕ → Option (Controller F) → Q.State → Event F → Published
  publish_checked later none q e =
      let (q, failure) = Q.publish_event e q in
      record {
        controller = none;
        queue = q;
        reply = elim failure [ none ↦ inr e.id | some err ↦ inl (publish_failed err) ];
      }
  publish_checked later (some c) q e =
      let out = validate_event R lib Q later c q e in
      record {
        controller = some out.controller;
        queue = out.queue;
        reply = elim out.error [
          | none ↦ inr out.event.id
          | some err ↦ inl (quality_control_failed err)
        ];
      }

  unfoldable pub handle_publish :
      ℕ → ℕ → ℕ → Option (Event F) → Option (Controller F) → Q.State → Published
  unfolding publish_checked
  handle_publish since now later none c q = record {
    controller = c;
    queue = q;
    reply = inl invalid_json;
  }
  handle_publish since now later (some e) c q = elim (validate since now e) [
    | some err ↦ record { controller = c; queue = q; reply = inl (event_validation_failed err) }
    | none ↦ publish_checked later c q e
  ]
