-- ===== src/Relay/Server.antt =====
-- internal/relay/relay.go: the messages of the clients and the queue's loop, on the connections of
-- the child Clients, whose names are passed on.
mod Clients
pub mod Parse
pub mod Events
pub mod Sending
pub mod Session
unfoldable pub use Clients.*
use mercury_relay.Prelude.{
  ℕ, String, str_eq, true, not, Option, none, some, List, [], ◌∷◌, insert, if◌then◌else◌, inl, inr,
}
use mercury_relay.Prelude.Float.{Float}
use mercury_relay.Prelude.Json
use mercury_relay.Prelude.Json.{Json, Fields, Stdlib, as_string, as_object}
use mercury_relay.Models.Event.{Event, validate, calculate_quality_score, is_spam}
use mercury_relay.Access.{Controller, can_write}
use mercury_relay.Queue.{Queue}
use mercury_relay.Cache.{Cache}
use mercury_relay.Relay.Server.Parse.{parse_filter, parse_event, claimed_pubkey}

module _ (R : Float) where
  open R use {F, tenths}

  -- `handleREQ`; the events are sent by another goroutine.
  unfoldable pub handle_req :
      {E : Type 0} → Connection E → List (Json F) → Connection E × Option (RelayError E)
  handle_req conn (id ∷ arg ∷ args) = elim (as_string id) [
    | none ↦ (conn, some invalid_subscription_id)
    | some sub_id ↦ elim (as_object arg) [
      | none ↦ (conn, some invalid_filter)
      | some filter_data ↦
          let sub : Subscription = record {
            id = sub_id;
            filter = parse_filter R filter_data;
            active = true;
          } in
          (record conn { subs = insert sub_id sub conn.subs }, none)
    ]
  ]
  handle_req conn _ = (conn, some req_requires_filter)

  -- The score and the quarantine of `handleEVENT`.
  unfoldable pub graded_event : Event F → Event F
  graded_event e =
      let scored : Event F = record e { quality_score = calculate_quality_score R e } in
      if is_spam R scored (tenths 7)
      then record scored { is_quarantined = true; quarantine_reason = "Low quality score" }
      else scored

  -- The pubkey of the first event that names one stays the connection's.
  unfoldable pub claim : {E : Type 0} → Fields F → Connection E → Connection E
  claim event_data conn = elim (claimed_pubkey event_data) [
    | none ↦ conn
    | some pubkey ↦ if str_eq conn.pubkey "" then record conn { pubkey = pubkey } else conn
  ]

  module _ (Q : Queue F) where
    abbrev with_queue :
        Q.State
        → Connection Q.Error × Option (RelayError Q.Error)
        → Connection Q.Error × Q.State × Option (RelayError Q.Error)
    with_queue q (conn, failure) = (conn, q, failure)

    -- `handleEVENT` on the decoded event; the clock is read twice by `Validate`.
    unfoldable pub accept_event :
        Controller
        → ℕ
        → ℕ
        → Event F
        → Connection Q.Error
        → Q.State
        → Connection Q.Error × Q.State × Option (RelayError Q.Error)
    unfolding graded_event
    accept_event access since now e conn q =
        if not (can_write access e.pub_key)
        then (send restricted conn, q, some write_access_denied)
        else elim (validate since now e) [
          | some err ↦ (conn, q, some (event_validation_failed err))
          | none ↦
              let (q, failure) = Q.publish_event (graded_event e) q in
              elim failure [
                | some err ↦ (conn, q, some (publish_failed err))
                | none ↦ (send (ok e.id true "") conn, q, none)
              ]
        ]

    unfoldable pub handle_event :
        Controller
        → ℕ
        → ℕ
        → Connection Q.Error
        → Q.State
        → List (Json F)
        → Connection Q.Error × Q.State × Option (RelayError Q.Error)
    unfolding accept_event claim
    handle_event access since now conn q [] = (conn, q, some event_requires_data)
    handle_event access since now conn q (arg ∷ args) = elim (as_object arg) [
      | none ↦ (conn, q, some invalid_event_data)
      | some event_data ↦
          accept_event access since now (parse_event R event_data) (claim event_data conn) q
    ]

    -- The switch of `handleMessage`, where REQ and CLOSE leave the queue.
    unfoldable pub dispatch :
        Controller
        → ℕ
        → ℕ
        → String
        → List (Json F)
        → Connection Q.Error
        → Q.State
        → Connection Q.Error × Q.State × Option (RelayError Q.Error)
    dispatch access since now msg_type args conn q =
        if str_eq msg_type "REQ"
        then with_queue q (handle_req conn args)
        else if str_eq msg_type "EVENT"
        then handle_event access since now conn q args
        else if str_eq msg_type "CLOSE"
        then with_queue q (handle_close conn args)
        else (conn, q, some (unknown_message_type msg_type))

    -- The tests before it, on the items of the message and on what the decoder gives.
    unfoldable pub handle_items :
        Controller
        → ℕ
        → ℕ
        → List (Json F)
        → Connection Q.Error
        → Q.State
        → Connection Q.Error × Q.State × Option (RelayError Q.Error)
    handle_items access since now (item ∷ arg ∷ args) conn q = elim (as_string item) [
      | none ↦ (conn, q, some invalid_message_type)
      | some msg_type ↦ dispatch access since now msg_type (arg ∷ args) conn q
    ]
    handle_items access since now _ conn q = (conn, q, some message_too_short)

    unfoldable pub handle_decoded :
        Controller
        → ℕ
        → ℕ
        → Option (Json F)
        → Connection Q.Error
        → Q.State
        → Connection Q.Error × Q.State × Option (RelayError Q.Error)
    handle_decoded access since now (some Json.null) conn q =
        handle_items access since now [] conn q
    handle_decoded access since now (some (Json.arr items)) conn q =
        handle_items access since now (Json.to_list items) conn q
    handle_decoded access since now _ conn q = (conn, q, some invalid_json)

    -- `handleMessage`
    unfoldable pub handle_message :
        Stdlib F
        → Controller
        → ℕ
        → ℕ
        → Connection Q.Error
        → Q.State
        → String
        → Connection Q.Error × Q.State × Option (RelayError Q.Error)
    unfolding handle_decoded
    handle_message lib access since now conn q message =
        handle_decoded access since now (lib.decode message) conn q

    -- One turn of the loop of `handleWebSocket`: an error is sent back.
    unfoldable pub receive :
        Stdlib F
        → Controller
        → ℕ
        → ℕ
        → String
        → Connection Q.Error
        → Q.State
        → Connection Q.Error × Q.State
    unfolding handle_message
    receive lib access since now message conn q =
        let (conn, q, failure) = handle_message lib access since now conn q message in
        elim failure [ none ↦ (conn, q) | some err ↦ (send (failed err) conn, q) ]

    module _ (C : Cache F) where
      -- One event of the loop of `processEvents`: whether storing fails or not, it is broadcast.
      unfoldable pub process_each :
          List (Event F) → C.State → List (Connection Q.Error) → C.State × List (Connection Q.Error)
      process_each [] c conns = (c, conns)
      process_each (e ∷ events) c conns =
          process_each events (C.store_event e c).0 (broadcast_event e conns)

      -- One turn of `processEvents`, without the storage, which keeps no state of the relay.
      unfoldable pub process_events :
          Q.State
          → C.State
          → List (Connection Q.Error)
          → Q.State × C.State × List (Connection Q.Error)
      unfolding process_each
      process_events q c conns =
          let (q, consumed) = Q.consume_events q in
          elim consumed [
            | inl err ↦ (q, c, conns)
            | inr events ↦ let (c, conns) = process_each events c conns in (q, c, conns)
          ]
