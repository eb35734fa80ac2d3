-- ===== src/Tests/Storage.antt =====
-- Examples for internal/storage/xftp.go.
use mercury_relay.Prelude.{String, ◌≡◌, refl, none, List, [], ◌∷◌, inr, arith}
use mercury_relay.Storage.Xftp.{HttpClient, HttpRequest, store_event}
use mercury_relay.Storage.Uploads.{store_event_alike}
use mercury_relay.Tests.Data.{note}
use mercury_relay.Tests.Cache.{codec}

-- A server that keeps every request.
abbrev server : HttpClient
server = record {
  State = List HttpRequest;
  Error = String;
  parses = λ url. none;
  send = λ req st. (req ∷ st, inr (record { status = 200; body = "" }));
}

store_event_alike_example :
    store_event server "http://localhost:443" codec note []
    ≡ store_event server "http://localhost:443" codec (record note { content = "other" }) []
store_event_alike_example =
    store_event_alike server "http://localhost:443" codec note (record note { content = "other" })
      [] (λ e. ground arith) (λ e. ground arith) refl refl refl
