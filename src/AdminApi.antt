-- ===== src/AdminApi.antt =====
-- internal/api/admin.go: the admins' endpoints, behind a key.
pub mod Blocks
use mercury_relay.Prelude.{
  ℕ, String, str_eq, Option, none, some, List, [], ◌∷◌, not, ◌⊎◌, inl, inr, if◌then◌else◌,
}
use mercury_relay.Queue.{Queue}
use mercury_relay.Quality.Controller.{Controller, block_npub, unblock_npub, get_blocked_npubs}

-- A request: the key that it carries, its path, its method, and the npub of its body, if that
-- decodes.
pub record Request : Type 0 where
  pub api_key : String
  pub path : String
  pub method : String
  pub npub : Option String

-- The replies; the counts of the cache and of the storage are left out of the statistics.
pub data Reply : Type 0 where
  unauthorized method_not_allowed invalid_json not_found : Reply
  blocked unblocked healthy no_events : Reply
  blocked_list : List String → Reply
  stats : Option ℕ → Reply

module _ {F : Type 0} where
  unfoldable pub handle_block : Request → Controller F → Controller F × Reply
  handle_block req c =
      if not (str_eq req.method "POST")
      then (c, method_not_allowed)
      else elim req.npub [ none ↦ (c, invalid_json) | some npub ↦ (block_npub npub c, blocked) ]

  unfoldable pub handle_unblock : Request → Controller F → Controller F × Reply
  handle_unblock req c =
      if not (str_eq req.method "POST")
      then (c, method_not_allowed)
      else elim req.npub [ none ↦ (c, invalid_json) | some npub ↦ (unblock_npub npub c, unblocked) ]

  unfoldable pub handle_blocked : Controller F → Reply
  handle_blocked c = blocked_list (get_blocked_npubs c)

  module _ (Q : Queue F) where
    unfoldable pub handle_stats : Q.State → Reply
    handle_stats q = elim (Q.get_queue_stats q) [ inl err ↦ stats none | inr n ↦ stats (some n) ]

    -- The routes of `Start`.
    unfoldable pub route : Request → Q.State → Controller F → Controller F × Reply
    unfolding handle_block handle_unblock handle_blocked handle_stats
    route req q c =
        if str_eq req.path "/api/stats"
        then (c, handle_stats q)
        else if str_eq req.path "/api/block"
        then handle_block req c
        else if str_eq req.path "/api/unblock"
        then handle_unblock req c
        else if str_eq req.path "/api/blocked"
        then (c, handle_blocked c)
        else if str_eq req.path "/api/events"
        then (c, no_events)
        else if str_eq req.path "/health"
        then (c, healthy)
        else (c, not_found)

    -- `authenticate`, with the configured key.
    unfoldable pub authenticate : String → Request → Q.State → Controller F → Controller F × Reply
    unfolding route
    authenticate key req q c = if str_eq req.api_key key then route req q c else (c, unauthorized)
