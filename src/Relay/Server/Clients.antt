-- ===== src/Relay/Server/Clients.antt =====
-- internal/relay/relay.go: the connections, their subscriptions, and what is written to them.
-- A frame that is written to a client is kept in its connection, the newest first; that a write can
-- fail, which is logged only, is not modelled. The text of an error is the error itself here.
use mercury_relay.Prelude.{
  String, Bool, true, false, ◌&&◌, Option, none, some, List, [], ◌∷◌, Dict, erase, if◌then◌else◌,
}
use mercury_relay.Prelude.Json.{Json, as_string}
use mercury_relay.Models.Event.{Event, NostrEvent, ValidationError, to_nostr_event}
use mercury_relay.Models.Filter.{Filter}
use mercury_relay.Relay.Privacy.{PrivacyFilter, new_privacy_filter, can_access_event}
use mercury_relay.Relay.Matching.{event_matches_filter}

pub record Subscription : Type 0 where
  pub id : String
  pub filter : Filter
  pub active : Bool

pub data RelayError (E : Type 0) : Type 0 where
  invalid_json message_too_short invalid_message_type : RelayError E
  unknown_message_type : String → RelayError E
  req_requires_filter invalid_subscription_id invalid_filter : RelayError E
  event_requires_data invalid_event_data write_access_denied : RelayError E
  event_validation_failed : ValidationError → RelayError E
  publish_failed : E → RelayError E
  close_requires_id : RelayError E

-- What is written to a client; `restricted` and `failed` are the two kinds of NOTICE.
pub data Frame (E : Type 0) : Type 0 where
  event : String → NostrEvent → Frame E
  ok : String → Bool → String → Frame E
  restricted : Frame E
  failed : RelayError E → Frame E

pub record Connection (E : Type 0) : Type 0 where
  pub subs : Dict Subscription
  pub pubkey : String
  pub sent : List (Frame E)

-- The connection that `handleWebSocket` makes.
unfoldable pub new_connection : {E : Type 0} → Connection E
new_connection = record { subs = []; pubkey = ""; sent = [] }

module _ {E : Type 0} where
  abbrev pub send : Frame E → Connection E → Connection E
  send frame conn = record conn { sent = frame ∷ conn.sent }

  -- `handleCLOSE`
  unfoldable pub handle_close :
      {F : Type 0} → Connection E → List (Json F) → Connection E × Option (RelayError E)
  handle_close conn [] = (conn, some close_requires_id)
  handle_close conn (id ∷ args) = elim (as_string id) [
    | none ↦ (conn, some invalid_subscription_id)
    | some sub_id ↦ (record conn { subs = erase sub_id conn.subs }, none)
  ]

  module _ {F : Type 0} where
    abbrev pub event_frame : String → Event F → Frame E
    event_frame sub_id e = event sub_id (to_nostr_event e)

    -- The loop of `sendMatchingEvents`, each event with whether the subscription is still active
    -- when the loop comes to it.
    unfoldable pub send_events :
        PrivacyFilter → Subscription → List (Event F × Bool) → Connection E → Connection E
    send_events privacy sub [] conn = conn
    send_events privacy sub ((e, false) ∷ events) conn = conn
    send_events privacy sub ((e, true) ∷ events) conn = send_events privacy sub events (
        if event_matches_filter e sub.filter && can_access_event privacy e
        then send (event_frame sub.id e) conn
        else conn)

    -- `sendMatchingEvents`, with what the cache has answered; an error leaves no events.
    unfoldable pub send_matching_events :
        Subscription → List (Event F × Bool) → Connection E → Connection E
    unfolding send_events
    send_matching_events sub events conn =
        send_events (new_privacy_filter conn.pubkey) sub events conn

    -- `broadcastEvent`: the loop over the subscriptions of a client, and that over the clients.
    unfoldable pub broadcast_to_subs : Event F → Dict Subscription → Connection E → Connection E
    broadcast_to_subs e [] conn = conn
    broadcast_to_subs e ((key, sub) ∷ subs) conn = broadcast_to_subs e subs (
        if sub.active && event_matches_filter e sub.filter
        then send (event_frame sub.id e) conn
        else conn)

    unfoldable pub broadcast_event : Event F → List (Connection E) → List (Connection E)
    unfolding broadcast_to_subs
    broadcast_event e [] = []
    broadcast_event e (conn ∷ conns) = broadcast_to_subs e conn.subs conn ∷ broadcast_event e conns
