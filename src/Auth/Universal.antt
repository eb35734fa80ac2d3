-- ===== src/Auth/Universal.antt =====
-- internal/auth/universal.go: which requests are authorised. The header of a request and the
-- readings of the clock are arguments.
pub mod Reach
use mercury_relay.Prelude.{
  ℕ, ◌+◌, String, ◌<>◌, str_eq, Bool, true, false, Option, none, some, List, [], ◌∷◌, ltb, pos, any,
  Dict, lookup, insert, erase, keys, has, if◌then◌else◌,
}
use mercury_relay.Prelude.Json
use mercury_relay.Prelude.Json.{Json, Fields, Stdlib, get, as_object}
use mercury_relay.Models.Event.{Event, Tags, hour}
use mercury_relay.Models.Filter.{Filter}
use mercury_relay.Auth.Nostr.{NostrAuthenticator, new_nostr_authenticator, is_authenticated}

pub record UniversalAuthenticator : Type 0 where
  pub nostr_auth : NostrAuthenticator
  pub admin_npubs : Dict Bool
  pub whitelist : Dict Bool
  pub kind3_cache : Dict Bool
  pub kind3_cache_time : Dict ℕ

-- `for _, npub := range config.Access.AdminNpubs { adminNpubs[npub] = true }`
unfoldable pub admin_map : List String → Dict Bool → Dict Bool
admin_map [] m = m
admin_map (npub ∷ npubs) m = admin_map npubs (insert npub true m)

unfoldable pub new_universal_authenticator : List String → String → UniversalAuthenticator
new_universal_authenticator admin_npubs relay_url = record {
  nostr_auth = new_nostr_authenticator relay_url admin_npubs;
  admin_npubs = admin_map admin_npubs [];
  whitelist = [];
  kind3_cache = [];
  kind3_cache_time = [];
}

unfoldable pub is_admin : UniversalAuthenticator → String → Bool
is_admin ua npub = has npub ua.admin_npubs

unfoldable pub get_admin_npubs : UniversalAuthenticator → List String
get_admin_npubs ua = keys ua.admin_npubs

pub data WhitelistError : Type 0 where
  only_admin : WhitelistError

unfoldable pub add_to_whitelist :
    String → String → UniversalAuthenticator → UniversalAuthenticator × Option WhitelistError
unfolding is_admin
add_to_whitelist admin_npub user_npub ua =
    if is_admin ua admin_npub
    then (record ua { whitelist = insert user_npub true ua.whitelist }, none)
    else (ua, some only_admin)

unfoldable pub remove_from_whitelist :
    String → String → UniversalAuthenticator → UniversalAuthenticator × Option WhitelistError
unfolding is_admin
remove_from_whitelist admin_npub user_npub ua =
    if is_admin ua admin_npub
    then (record ua { whitelist = erase user_npub ua.whitelist }, none)
    else (ua, some only_admin)

-- `none` is the error.
unfoldable pub get_whitelist : String → UniversalAuthenticator → Option (List String)
unfolding is_admin
get_whitelist admin_npub ua = if is_admin ua admin_npub then some (keys ua.whitelist) else none

-- `tag[0] == "p" && tag[1] == userNpub` for some tag.
unfoldable pub has_p_tag : String → Tags → Bool
has_p_tag user_npub [] = false
has_p_tag user_npub ((t ∷ v ∷ more) ∷ tags) =
    if str_eq t "p"
    then if str_eq v user_npub then true else has_p_tag user_npub tags
    else has_p_tag user_npub tags
has_p_tag user_npub (_ ∷ tags) = has_p_tag user_npub tags

abbrev pub contact_filter : String → Filter
contact_filter admin_npub = record {
  ids = [];
  authors = admin_npub ∷ [];
  kinds = pos 3 ∷ [];
  since = none;
  until = none;
  limit = pos 1;
}

-- The answer in the cache, where it is there and less than an hour old.
unfoldable pub cached_follow : ℕ → String → UniversalAuthenticator → Option Bool
cached_follow now cache_key ua = elim (lookup cache_key ua.kind3_cache) [
  | none ↦ none
  | some cached ↦ elim (lookup cache_key ua.kind3_cache_time) [
    | none ↦ none
    | some stored ↦ if ltb now (stored + hour) then some cached else none
  ]
]

unfoldable pub cache_key : String → String
cache_key user_npub = "admin_follows_" <> user_npub

module _ {F : Type 0} where
  -- `contact["pubkey"] == userNpub`, for a contact that is an object.
  unfoldable pub is_contact : String → Json F → Bool
  is_contact user_npub contact = elim (as_object contact) [
    | none ↦ false
    | some contact_map ↦ elim (get "pubkey" contact_map) [
      | some (Json.str pubkey) ↦ str_eq pubkey user_npub
      | _ ↦ false
    ]
  ]

  unfoldable pub any_contact : String → Fields F → Bool
  any_contact user_npub Json.end = false
  any_contact user_npub (Json.entry k contact contacts) =
      if is_contact user_npub contact then true else any_contact user_npub contacts

  -- `containsUserNpub`; `null` decodes into the nil map.
  unfoldable pub contains_user_npub : Stdlib F → Event F → String → Bool
  contains_user_npub lib event user_npub = elim (lib.decode event.content) [
    | some (Json.obj contacts) ↦ any_contact user_npub contacts
    | some Json.null ↦ false
    | _ ↦ has_p_tag user_npub event.tags
  ]

  -- `queryEvents` is a stub, which answers with no events and no error.
  unfoldable pub query_events : Filter → List (Event F)
  query_events filter = []

  -- The two loops of `checkAdminFollowsUser`: some admin's contact list has the user.
  unfoldable pub admins_follow : Stdlib F → List String → String → Bool
  unfolding query_events
  admins_follow lib [] user_npub = false
  admins_follow lib (admin ∷ admins) user_npub =
      let rest = admins_follow lib admins user_npub in
      if any (λ event. contains_user_npub lib event user_npub) (query_events (contact_filter admin))
      then true
      else rest

  unfoldable pub check_admin_follows_user :
      Stdlib F → ℕ → ℕ → String → UniversalAuthenticator → UniversalAuthenticator × Bool
  unfolding cached_follow cache_key
  check_admin_follows_user lib now later user_npub ua =
      let key = cache_key user_npub in
      elim (cached_follow now key ua) [
        | some cached ↦ (ua, cached)
        | none ↦
            let follows = admins_follow lib (keys ua.admin_npubs) user_npub in
            (
              record ua {
                kind3_cache = insert key follows ua.kind3_cache;
                kind3_cache_time = insert key later ua.kind3_cache_time;
              },
              follows,
            )
      ]

  -- What follows a successful NIP-42 test.
  unfoldable pub admit :
      Stdlib F → ℕ → ℕ → String → UniversalAuthenticator → UniversalAuthenticator × Bool
  admit lib now later npub ua =
      if has npub ua.whitelist
      then (ua, true)
      else let (checked, follows) = check_admin_follows_user lib now later npub ua in
        if follows
        then (record checked { whitelist = insert npub true checked.whitelist }, true)
        else (checked, false)

  -- `AuthenticateRequest`, with the header's value and the clock of its three readings.
  unfoldable pub authenticate_request :
      Stdlib F → ℕ → ℕ → ℕ → String → UniversalAuthenticator → UniversalAuthenticator × Bool
  unfolding is_admin admit
  authenticate_request lib since now later npub ua =
      if str_eq npub ""
      then (ua, false)
      else if is_admin ua npub
      then (ua, true)
      else let (na, authenticated) = is_authenticated since npub ua.nostr_auth in
        let asked : UniversalAuthenticator = record ua { nostr_auth = na } in
        if authenticated then admit lib now later npub asked else (asked, false)

-- `RequireAdmin`: whether the handler runs.
unfoldable pub require_admin : UniversalAuthenticator → String → Bool
unfolding is_admin
require_admin ua npub = if str_eq npub "" then false else is_admin ua npub
