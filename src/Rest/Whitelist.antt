-- ===== src/Rest/Whitelist.antt =====
-- internal/api/rest.go: the whitelist behind the admins' endpoints, each with `RequireAdmin` around
-- its handler. The name of the caller is the request's X-Nostr-Pubkey header.
use mercury_relay.Prelude.{
  String, ◌≡◌, refl, ◌∙◌, Bool, true, Option, none, some, List, [], ◌∷◌, str_eq, lookup, Dict,
  lookup-insert, lookup-erase, has, arith, if◌then◌else◌,
}
use mercury_relay.Auth.Universal.{
  UniversalAuthenticator, is_admin, add_to_whitelist, remove_from_whitelist, get_whitelist,
  get_admin_npubs, require_admin,
}

-- A request of `/admin/whitelist` or `/admin/admins`: `none` is a body that does not decode.
pub data AdminRequest : Type 0 where
  get_list get_admins : AdminRequest
  add : Option String → AdminRequest
  remove : String → AdminRequest

pub data AdminReply : Type 0 where
  unauthorized forbidden invalid_json : AdminReply
  whitelisted admin_list : List String → AdminReply
  added removed : String → AdminReply

unfoldable pub handle_get_whitelist : String → UniversalAuthenticator → AdminReply
handle_get_whitelist caller ua = elim (get_whitelist caller ua) [
  | none ↦ forbidden
  | some npubs ↦ whitelisted npubs
]

unfoldable pub handle_add_to_whitelist :
    String → Option String → UniversalAuthenticator → UniversalAuthenticator × AdminReply
handle_add_to_whitelist caller none ua = (ua, invalid_json)
handle_add_to_whitelist caller (some npub) ua =
    let (ua', failure) = add_to_whitelist caller npub ua in
    (ua', elim failure [ none ↦ added npub | some _ ↦ forbidden ])

unfoldable pub handle_remove_from_whitelist :
    String → String → UniversalAuthenticator → UniversalAuthenticator × AdminReply
handle_remove_from_whitelist caller npub ua =
    let (ua', failure) = remove_from_whitelist caller npub ua in
    (ua', elim failure [ none ↦ removed npub | some _ ↦ forbidden ])

unfoldable pub handle_get_admins : UniversalAuthenticator → AdminReply
handle_get_admins ua = admin_list (get_admin_npubs ua)

-- The handler of the request's route.
unfoldable pub handle_admin :
    String → AdminRequest → UniversalAuthenticator → UniversalAuthenticator × AdminReply
unfolding handle_get_whitelist handle_add_to_whitelist handle_remove_from_whitelist
    handle_get_admins
handle_admin caller get_list ua = (ua, handle_get_whitelist caller ua)
handle_admin caller get_admins ua = (ua, handle_get_admins ua)
handle_admin caller (add body) ua = handle_add_to_whitelist caller body ua
handle_admin caller (remove npub) ua = handle_remove_from_whitelist caller npub ua

-- The route with `RequireAdmin`.
unfoldable pub admin_route :
    String → AdminRequest → UniversalAuthenticator → UniversalAuthenticator × AdminReply
unfolding handle_admin
admin_route caller request ua =
    if require_admin ua caller then handle_admin caller request ua else (ua, unauthorized)

-- Requests one after another, each with the caller that it names.
abbrev pub serve : List (String × AdminRequest) → UniversalAuthenticator → UniversalAuthenticator
serve [] ua = ua
serve ((caller, request) ∷ requests) ua = serve requests (admin_route caller request ua).0

-- What a request makes of a user's entry, where its caller is an admin.
abbrev pub decided : String → AdminRequest → Option Bool → Option Bool
decided user (add (some npub)) old = if str_eq npub user then some true else old
decided user (remove npub) old = if str_eq npub user then none else old
decided user _ old = old

-- The entry of a user that the requests of admins alone leave.
abbrev pub verdict : Dict Bool → String → Option Bool → List (String × AdminRequest) → Option Bool
verdict admins user old [] = old
verdict admins user old ((caller, request) ∷ requests) =
    verdict admins user
      (if str_eq caller ""
        then old
        else if has caller admins
        then decided user request old
        else old)
      requests

route-same_admins :
    (caller : String) (request : AdminRequest) (ua : UniversalAuthenticator)
    → (admin_route caller request ua).0.admin_npubs ≡ ua.admin_npubs
unfolding admin_route handle_admin handle_add_to_whitelist handle_remove_from_whitelist
    add_to_whitelist remove_from_whitelist
route-same_admins caller request ua = ground arith

lookup-route :
    (user caller : String) (request : AdminRequest) (ua : UniversalAuthenticator)
    → lookup user (admin_route caller request ua).0.whitelist ≡ (
        if str_eq caller ""
        then lookup user ua.whitelist
        else if has caller ua.admin_npubs
        then decided user request (lookup user ua.whitelist)
        else lookup user ua.whitelist)
unfolding admin_route handle_admin handle_add_to_whitelist handle_remove_from_whitelist
    add_to_whitelist remove_from_whitelist require_admin is_admin
lookup-route user caller (add (some npub)) ua =
    ground (arith, lookup-insert npub user true ua.whitelist)
lookup-route user caller (add none) ua = ground arith
lookup-route user caller (remove npub) ua = ground (arith, lookup-erase npub user ua.whitelist)
lookup-route user caller get_list ua = ground arith
lookup-route user caller get_admins ua = ground arith

-- After any requests to the admins' endpoints, a user is on the whitelist exactly as the last
-- addition or removal of that user by a caller who names an admin has left it; the requests of all
-- others change nothing.
pub lookup-serve :
    (user : String) (requests : List (String × AdminRequest)) (ua : UniversalAuthenticator)
    → lookup user (serve requests ua).whitelist
      ≡ verdict ua.admin_npubs user (lookup user ua.whitelist) requests
lookup-serve user [] ua = refl
lookup-serve user ((caller, request) ∷ requests) ua =
    lookup-serve user requests (admin_route caller request ua).0
    ∙ rw (route-same_admins caller request ua, lookup-route user caller request ua) refl
