-- ===== src/Access.antt =====
-- internal/access/controller.go: who may read and write. The owner's follow list is fetched from a
-- relay over HTTP, whose answer is an argument here.
pub mod Follows
use mercury_relay.Prelude.{
  ℕ, String, str_eq, Bool, true, false, ◌&&◌, ◌||◌, Option, none, some, List, [], ◌∷◌, ◌==◌, Dict,
  insert, keys, has, if◌then◌else◌,
}
use mercury_relay.Prelude.Json
use mercury_relay.Prelude.Json.{Json, Stdlib, get, as_array, as_object, as_string}

-- The fields of `config.AccessConfig` that the controller reads.
pub record AccessConfig : Type 0 where
  pub admin_npubs : List String
  pub allow_public_read : Bool
  pub allow_public_write : Bool

-- `access.Controller`; `none` is the zero `time.Time`.
pub record Controller : Type 0 where
  pub config : AccessConfig
  pub owner_npub : String
  pub allowed_npubs : Dict Bool
  pub last_update : Option ℕ

unfoldable pub new_controller : AccessConfig → Controller
new_controller config = record {
  config = config;
  owner_npub = elim config.admin_npubs [ [] ↦ "" | npub ∷ _ ↦ npub ];
  allowed_npubs = [];
  last_update = none;
}

unfoldable pub can_write : Controller → String → Bool
can_write a npub =
    if str_eq npub a.owner_npub
    then true
    else if a.config.allow_public_write
    then true
    else has npub a.allowed_npubs

unfoldable pub can_read : Controller → String → Bool
can_read a npub =
    if a.config.allow_public_read
    then true
    else if str_eq npub a.owner_npub
    then true
    else has npub a.allowed_npubs

unfoldable pub is_owner : Controller → String → Bool
is_owner a npub = str_eq npub a.owner_npub

unfoldable pub get_allowed_npubs : Controller → List String
get_allowed_npubs a = keys a.allowed_npubs

-- The request of `loadFollowList`, as its three fields.
pub record FollowRequest : Type 0 where
  pub ids : List String
  pub kinds : List ℕ
  pub limit : ℕ

unfoldable pub follow_request : Controller → FollowRequest
follow_request a = record { ids = a.owner_npub ∷ []; kinds = 3 ∷ []; limit = 1 }

-- What `httpClient.Post` brings back: an error, or a status and a body.
pub data Response : Type 0 where
  unreachable : Response
  response : ℕ → String → Response

pub data LoadError : Type 0 where
  query_failed bad_status decode_failed : LoadError

module _ {F : Type 0} where
  -- One tag of an event: `["p", npub, ...]` adds the author.
  unfoldable pub load_tag : Json F → Dict Bool → Dict Bool
  load_tag tag m = elim (as_array tag) [
    | none ↦ m
    | some [] ↦ m
    | some (t ∷ []) ↦ m
    | some (t ∷ v ∷ more) ↦ elim (as_string t) [
      | none ↦ m
      | some tag_type ↦
          if str_eq tag_type "p"
          then elim (as_string v) [ none ↦ m | some npub ↦ insert npub true m ]
          else m
    ]
  ]

  unfoldable pub load_tags : List (Json F) → Dict Bool → Dict Bool
  unfolding load_tag
  load_tags [] m = m
  load_tags (tag ∷ tags) m = load_tags tags (load_tag tag m)

  -- The tags of `["EVENT", subscription, event, ...]`, or none.
  unfoldable pub tags_of_event : Json F → List (Json F)
  tags_of_event event = elim (as_array event) [
    | some (t ∷ sub ∷ e ∷ more) ↦ elim (as_string t) [
      | none ↦ []
      | some event_type ↦
          if str_eq event_type "EVENT"
          then elim (as_object e) [
            | none ↦ []
            | some fs ↦ elim (get "tags" fs) [
              | none ↦ []
              | some tags ↦ elim (as_array tags) [ none ↦ [] | some ts ↦ ts ]
            ]
          ]
          else []
    ]
    | _ ↦ []
  ]

  unfoldable pub load_events : List (Json F) → Dict Bool → Dict Bool
  unfolding load_tags tags_of_event
  load_events [] m = m
  load_events (event ∷ events) m = load_events events (load_tags (tags_of_event event) m)

  -- Decoding into a `[]interface{}`: an array, or `null` for a nil slice.
  unfoldable pub decode_events : Stdlib F → String → Option (List (Json F))
  decode_events lib body = elim (lib.decode body) [
    | some Json.null ↦ some []
    | some (Json.arr js) ↦ some (Json.to_list js)
    | _ ↦ none
  ]

  -- `loadFollowList`, with the relay's answer and the clock.
  unfoldable pub load_follow_list :
      Stdlib F → Response → ℕ → Controller → Controller × Option LoadError
  unfolding load_events
  load_follow_list lib unreachable now a = (a, some query_failed)
  load_follow_list lib (response status body) now a =
      if status == 200
      then elim (decode_events lib body) [
        | none ↦ (a, some decode_failed)
        | some events ↦
            (record a { allowed_npubs = load_events events []; last_update = some now }, none)
      ]
      else (a, some bad_status)
