-- ===== src/AdminApi/Blocks.antt =====
-- How requests to block reach the quality controller (internal/api/admin.go).
use mercury_relay.Prelude.{
  ℕ, String, str_eq, eq_iff, ◌≡◌, refl, true, ◌&&◌, Option, none, some, List, [], ◌∷◌, arith,
  Bool-cases, inl, inr, if◌then◌else◌,
}
use mercury_relay.Prelude.Float.{Float}
use mercury_relay.Prelude.Json.{Stdlib}
use mercury_relay.Models.Event.{Event}
use mercury_relay.Queue.{Queue}
use mercury_relay.Quality.Controller.{Controller, npub_is_blocked, refused, validate_event}
use mercury_relay.Quality.Controller.Blocking.{BlockOp, block, unblock, last_on, apply, apply_all}
use mercury_relay.Quality.Controller.Verdict.{validate_event_blocked}
use mercury_relay.AdminApi.{Request, handle_block, handle_unblock, route, authenticate}

-- The operation that a request with the key asks for.
abbrev pub asked : String → Request → Option BlockOp
asked key req =
    if str_eq req.api_key key && str_eq req.method "POST"
    then elim req.npub [
      | none ↦ none
      | some npub ↦
          if str_eq req.path "/api/block"
          then some (block npub)
          else if str_eq req.path "/api/unblock"
          then some (unblock npub)
          else none
    ]
    else none

-- The operations of the requests; the last one stands first.
abbrev pub asked_all : String → List Request → List BlockOp
asked_all key [] = []
asked_all key (req ∷ reqs) =
    let rest = asked_all key reqs in elim (asked key req) [ none ↦ rest | some op ↦ op ∷ rest ]

module _ {F : Type 0} (Q : Queue F) where
  -- The requests one after another; the last one stands first.
  abbrev pub serve : String → List (Request × Q.State) → Controller F → Controller F
  serve key [] c = c
  serve key ((req, q) ∷ reqs) c = (authenticate Q key req q (serve key reqs c)).0

  abbrev pub requests_of : List (Request × Q.State) → List Request
  requests_of [] = []
  requests_of ((req, q) ∷ reqs) = req ∷ requests_of reqs

  -- What the routes make of the controller.
  routed :
      (req : Request) (q : Q.State) (c : Controller F)
      → (route Q req q c).0 ≡ (
          if str_eq req.path "/api/block"
          then (handle_block req c).0
          else if str_eq req.path "/api/unblock"
          then (handle_unblock req c).0
          else c)
  unfolding route
  routed req q c = elim (Bool-cases (str_eq req.path "/api/stats")) [
    | inr e ↦ ground arith
    | inl e ↦ rw (route, (eq_iff req.path "/api/stats").0 e) refl
  ]

  served :
      (key : String) (req : Request) (q : Q.State) (c : Controller F)
      → (authenticate Q key req q c).0 ≡ elim (asked key req) [ none ↦ c | some op ↦ apply op c ]
  unfolding authenticate handle_block handle_unblock
  served key req q c = ground (arith, routed req q c)

  served_all :
      (key : String) (reqs : List (Request × Q.State)) (c : Controller F)
      → serve key reqs c ≡ apply_all (asked_all key (requests_of reqs)) c
  served_all key [] c = refl
  served_all key ((req, q) ∷ reqs) c =
      ground (arith, served key req q (serve key reqs c), served_all key reqs c)

module _ (R : Float) (lib : Stdlib R.F) (Q : Queue R.F) where
  open R use {F}

  -- From a controller that blocks nobody: once an author was blocked by a POST to /api/block that
  -- carries the configured key, and not unblocked since by one to /api/unblock, the quality
  -- controller refuses every event of that author, and nothing changes; requests without the key
  -- count for nothing.
  pub validate_event-serve :
      (key : String) (reqs : List (Request × Q.State)) (c : Controller F) (now : ℕ) (q : Q.State)
      (e : Event F)
      → c.blocked_npubs ≡ []
      → last_on e.pub_key (asked_all key (requests_of Q reqs)) ≡ true
      → validate_event R lib Q now (serve Q key reqs c) q e
        ≡ refused R lib Q (serve Q key reqs c) q e npub_is_blocked
  validate_event-serve key reqs c now q e none_blocked last = rw (served_all Q key reqs c) (
      validate_event_blocked R lib Q now c (asked_all key (requests_of Q reqs)) q e none_blocked
        last)
