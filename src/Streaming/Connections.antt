-- ===== src/Streaming/Connections.antt =====
-- internal/streaming/upstream.go: making, storing, keeping and removing the connections. A WebSocket
-- connection is a value of an unknown type, which the dialer gives or not.
use mercury_relay.Prelude.{
  ℕ, ◌/◌, String, ◌<>◌, str_eq, eq_iff, ◌≡◌, ◌≢◌, ◌↔◌, ◌⊎◌, inl, inr, Bool, true, ◌||◌, not, Option,
  none, some, List, [], filter, ℤ, pos, shift, ltb_ℤ, Dict, insert, erase, keys, arith,
  Option-cases, Bool-cases, if◌then◌else◌,
}
use mercury_relay.Prelude.Decimal.{itoa}
use mercury_relay.Models.Event.{second}
use mercury_relay.Models.Filter.{Filter, empty_filter}
use mercury_relay.Config.Settings.{StreamingConfig, UpstreamRelay}

pub record TransportManager : Type 0 where
  pub tor_enabled : Bool
  pub i2p_enabled : Bool
  pub http_streaming : Bool
  pub sse_enabled : Bool

pub record UpstreamSubscription : Type 0 where
  pub id : String
  pub filter : Filter
  pub active : Bool

pub record UpstreamConnection (W : Type 0) : Type 0 where
  pub url : String
  pub conn : W
  pub active : Bool
  pub last_ping : ℕ
  pub subscriptions : Dict UpstreamSubscription

pub data EstablishError : Type 0 where
  invalid_relay_url failed_to_dial : EstablishError
  http_streaming_not_enabled http_streaming_not_implemented : EstablishError
  sse_not_enabled sse_not_implemented : EstablishError
  unsupported_scheme : String → EstablishError

-- The transports of `NewUpstreamManager`.
unfoldable pub new_transport_manager : StreamingConfig → TransportManager
new_transport_manager config = record {
  tor_enabled = config.transport_methods.tor;
  i2p_enabled = config.transport_methods.i2p;
  http_streaming = config.transport_methods.http_streaming;
  sse_enabled = config.transport_methods.sse;
}

-- The relays that `Start` connects to.
unfoldable pub start : StreamingConfig → List UpstreamRelay
start config =
    if not config.enabled then [] else filter (λ relay. relay.enabled) config.upstream_relays

module _ {W : Type 0} where
  -- `removeConnection`; the closed socket is not looked at again.
  unfoldable pub remove_connection :
      String → Dict (UpstreamConnection W) → Dict (UpstreamConnection W)
  remove_connection url conns = erase url conns

  -- `GetActiveConnections`
  unfoldable pub get_active_connections : Dict (UpstreamConnection W) → List String
  get_active_connections conns = keys conns

  -- The test of `monitorConnections`, with its reading of the clock.
  unfoldable pub timed_out : ℤ → ℕ → UpstreamConnection W → Bool
  timed_out timeout now conn = ltb_ℤ (shift conn.last_ping timeout) (pos now)

  -- One turn of `keepAlive`: whether the ping could be written, and the clock after it. The
  -- connection is the one that stands in the map under its URL.
  unfoldable pub ping :
      UpstreamConnection W → Bool → ℕ → Dict (UpstreamConnection W) → Dict (UpstreamConnection W)
  unfolding remove_connection
  ping conn written now conns =
      if written
      then insert conn.url (record conn { last_ping = now }) conns
      else remove_connection conn.url conns

  -- `subscribeToAllEvents`: whether the REQ could be written, and the clock of the name.
  unfoldable pub subscribe_to_all_events : Bool → ℕ → UpstreamConnection W → UpstreamConnection W
  subscribe_to_all_events written now conn =
      let sub_id = "all-events-" <> itoa (pos (now / second)) in
      if written
      then record conn {
        subscriptions =
            insert sub_id
              (record {
                id = sub_id;
                filter = record empty_filter { limit = pos 1000 };
                active = true;
              })
              conn.subscriptions;
      }
      else conn

-- `websocket.Dialer{}`
pub data Dialer : Type 0 where
  zero_dialer : Dialer

abbrev pub get_tor_dialer : Dialer
get_tor_dialer = zero_dialer

abbrev pub get_i2p_dialer : Dialer
get_i2p_dialer = zero_dialer

module _ {W : Type 0} (dial : Dialer → String → Option W) (transports : TransportManager) where
  abbrev pub dialer : Dialer
  dialer =
      if transports.tor_enabled
      then get_tor_dialer
      else if transports.i2p_enabled
      then get_i2p_dialer
      else zero_dialer

  -- `establishWebSocketConnection` as far as `keepAlive`, whose turns are `ping`.
  unfoldable pub establish_web_socket_connection :
      UpstreamRelay
      → ℕ
      → Dict (UpstreamConnection W)
      → Dict (UpstreamConnection W) × Option EstablishError
  establish_web_socket_connection relay now conns = elim (dial dialer relay.url) [
    | none ↦ (conns, some failed_to_dial)
    | some conn ↦
        let upstream_conn : UpstreamConnection W = record {
          url = relay.url;
          conn = conn;
          active = true;
          last_ping = now;
          subscriptions = [];
        } in
        (insert relay.url upstream_conn conns, none)
  ]

  unfoldable pub dispatch_scheme :
      String
      → UpstreamRelay
      → ℕ
      → Dict (UpstreamConnection W)
      → Dict (UpstreamConnection W) × Option EstablishError
  dispatch_scheme scheme relay now conns =
      if str_eq scheme "wss" || str_eq scheme "ws"
      then establish_web_socket_connection relay now conns
      else if str_eq scheme "https" || str_eq scheme "http"
      then if transports.http_streaming
        then (conns, some http_streaming_not_implemented)
        else (conns, some http_streaming_not_enabled)
      else if str_eq scheme "sse"
      then if transports.sse_enabled
        then (conns, some sse_not_implemented)
        else (conns, some sse_not_enabled)
      else (conns, some (unsupported_scheme scheme))

  -- `establishConnection`; `scheme_of` is `url.Parse` and the scheme it finds.
  unfoldable pub establish_connection :
      (String → Option String)
      → UpstreamRelay
      → ℕ
      → Dict (UpstreamConnection W)
      → Dict (UpstreamConnection W) × Option EstablishError
  unfolding dispatch_scheme
  establish_connection scheme_of relay now conns = elim (scheme_of relay.url) [
    | none ↦ (conns, some invalid_relay_url)
    | some scheme ↦ dispatch_scheme scheme relay now conns
  ]

  pub record IsReachable (scheme_of : String → Option String) (relay : UpstreamRelay) : Type 0 where
    pub scheme : (scheme_of relay.url ≡ some "wss") ⊎ (scheme_of relay.url ≡ some "ws")
    pub dialled : dial zero_dialer relay.url ≢ none

  one_dialer : dialer ≡ zero_dialer
  one_dialer = ground arith

  IsReachable-only :
      (scheme_of : String → Option String) (relay : UpstreamRelay) (now : ℕ)
      (conns : Dict (UpstreamConnection W))
      → (establish_connection scheme_of relay now conns).1 ≡ none
      → IsReachable scheme_of relay
  unfolding establish_connection dispatch_scheme establish_web_socket_connection
  IsReachable-only scheme_of relay now conns h = elim (Option-cases (scheme_of relay.url)) [
    | inl e ↦ absurd (ground arith)
    | inr (scheme, e) ↦ record {
      scheme = elim (Bool-cases (str_eq scheme "wss")) [
        | inl f ↦ inl (ground (arith, eq_iff scheme "wss"))
        | inr f ↦ inr (ground (arith, eq_iff scheme "ws"))
      ];
      dialled = ground (arith, one_dialer);
    }
  ]

  -- A relay is connected exactly if its URL has the scheme wss or ws and can be dialled directly:
  -- not over HTTP or SSE, and not through Tor or I2P, whatever transports are enabled.
  pub establish_connection_iff :
      (scheme_of : String → Option String) (relay : UpstreamRelay) (now : ℕ)
      (conns : Dict (UpstreamConnection W))
      → ((establish_connection scheme_of relay now conns).1 ≡ none) ↔ IsReachable scheme_of relay
  unfolding establish_connection dispatch_scheme establish_web_socket_connection
  establish_connection_iff scheme_of relay now conns = (
    IsReachable-only scheme_of relay now conns,
    λ r. ground (arith, one_dialer, r.scheme, r.dialled),
  )
