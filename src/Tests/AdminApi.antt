-- ===== src/Tests/AdminApi.antt =====
-- Examples for internal/api/admin.go.
use mercury_relay.Prelude.{ℕ, ◌≡◌, refl, some, List, [], ◌∷◌}
use mercury_relay.Models.Event.{Event}
use mercury_relay.Quality.Controller.{npub_is_blocked, refused, validate_event}
use mercury_relay.AdminApi.{Request}
use mercury_relay.AdminApi.Blocks.{serve, validate_event-serve}
use mercury_relay.Tests.Data.{fixed, stdlib, fifo, quality, note, noon}

-- Alice is blocked with the key; the later request, without it, does not unblock her.
abbrev requests : List (Request × List (Event ℕ))
requests =
    (record { api_key = ""; path = "/api/unblock"; method = "POST"; npub = some "alice" }, [])
    ∷ (record { api_key = "key"; path = "/api/block"; method = "POST"; npub = some "alice" }, [])
    ∷ []

validate_event-serve_example :
    validate_event fixed stdlib fifo noon (serve fifo "key" requests quality) [] note
    ≡ refused fixed stdlib fifo (serve fifo "key" requests quality) [] note npub_is_blocked
validate_event-serve_example =
    validate_event-serve fixed stdlib fifo "key" requests quality noon [] note refl refl
