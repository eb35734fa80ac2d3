-- ===== src/Relay/Server/Sending.antt =====
-- What is sent to the clients (internal/relay/relay.go): the stored events of a subscription, and
-- the broadcast of a new one.
use mercury_relay.Prelude.{
  String, eq_iff, ◌≡◌, ◌≢◌, inl, inr, refl, Bool, true, false, ◌&&◌, List, [], ◌∷◌, map, filter,
  All, Dict, insert, erase, NodupKeys, insert-NodupKeys, erase-NodupKeys, arith, Bool-cases,
  Option-cases, if◌then◌else◌,
}
use mercury_relay.Prelude.Float.{Float}
use mercury_relay.Prelude.Json.{Json, str, as_string, as_object}
use mercury_relay.Models.Event.{Event}
use mercury_relay.Relay.Privacy.{PrivacyFilter, new_privacy_filter, can_access_event}
use mercury_relay.Relay.Matching.{event_matches_filter}
use mercury_relay.Relay.Server.{
  Subscription, Frame, event, Connection, new_connection, send, event_frame, send_events,
  send_matching_events, broadcast_to_subs, handle_close, handle_req,
}
use mercury_relay.Relay.Server.Parse.{parse_filter}

-- Frames in the order of their sending, put before those that were sent earlier.
abbrev pub onto : {E : Type 0} → List (Frame E) → List (Frame E) → List (Frame E)
onto [] sent = sent
onto (f ∷ frames) sent = onto frames (f ∷ sent)

-- The events before the subscription is seen closed.
abbrev pub while_active : {F : Type 0} → List (Event F × Bool) → List (Event F)
while_active [] = []
while_active ((e, true) ∷ events) = e ∷ while_active events
while_active ((e, false) ∷ events) = []

abbrev pub wanted : {F : Type 0} → PrivacyFilter → Subscription → Event F → Bool
wanted privacy sub e = event_matches_filter e sub.filter && can_access_event privacy e

-- Every subscription stands under its own name.
abbrev pub IsNamed : String × Subscription → Type 0
IsNamed (key, sub) = sub.id ≡ key

pub record IsWellFormed {E : Type 0} (conn : Connection E) : Type 0 where
  pub named : All IsNamed conn.subs
  pub is_map : NodupKeys conn.subs

-- A frame of another subscription.
abbrev pub NotFor : {E : Type 0} → String → Frame E → Type 0
NotFor id (event sub_id ne) = sub_id ≢ id
NotFor id _ = Unit

erase-IsNamed :
    (id : String) (subs : Dict Subscription) → All IsNamed subs → All IsNamed (erase id subs)
unfolding erase
erase-IsNamed id [] h = tt
erase-IsNamed id ((key, sub) ∷ subs) h = ground (arith, erase-IsNamed id subs h.1)

insert-IsNamed :
    (id : String) (sub : Subscription) (subs : Dict Subscription)
    → sub.id ≡ id
    → All IsNamed subs
    → All IsNamed (insert id sub subs)
unfolding insert
insert-IsNamed id sub [] e h = (e, tt)
insert-IsNamed id sub ((key, s) ∷ subs) e h = ground (arith, insert-IsNamed id sub subs e h.1)

module _ {E F : Type 0} where
  send_events-sent :
      (privacy : PrivacyFilter) (sub : Subscription) (events : List (Event F × Bool))
      (conn : Connection E)
      → (send_events privacy sub events conn).sent
        ≡ onto
            (map (event_frame sub.id) (filter (wanted privacy sub) (while_active events)))
            conn.sent
  unfolding send_events
  send_events-sent privacy sub [] conn = refl
  send_events-sent privacy sub ((e, false) ∷ events) conn = refl
  send_events-sent privacy sub ((e, true) ∷ events) conn =
      elim (Bool-cases (wanted privacy sub e)) [
        | inl w ↦
            rw (send_events, w)
              (send_events-sent privacy sub events (send (event_frame sub.id e) conn))
        | inr w ↦ rw (send_events, w) (send_events-sent privacy sub events conn)
      ]

  -- A subscription is sent, in the order of the cache's answer, those of the events that match its
  -- filter and that the connection's pubkey may see, up to the moment at which the loop finds the
  -- subscription closed; nothing else is sent.
  pub send_matching_events-sent :
      (sub : Subscription) (events : List (Event F × Bool)) (conn : Connection E)
      → (send_matching_events sub events conn).sent
        ≡ onto
            (map
              (event_frame sub.id)
              (filter (wanted (new_privacy_filter conn.pubkey) sub) (while_active events)))
            conn.sent
  unfolding send_matching_events
  send_matching_events-sent sub events conn =
      send_events-sent (new_privacy_filter conn.pubkey) sub events conn

  -- The frames of a broadcast: one for every active subscription that the event matches.
  abbrev pub broadcast_frames : Event F → Dict Subscription → List (Frame E)
  broadcast_frames e [] = []
  broadcast_frames e ((key, sub) ∷ subs) =
      let rest = broadcast_frames e subs in
      if sub.active && event_matches_filter e sub.filter then event_frame sub.id e ∷ rest else rest

  broadcast_to_subs-sent :
      (e : Event F) (subs : Dict Subscription) (conn : Connection E)
      → (broadcast_to_subs e subs conn).sent ≡ onto (broadcast_frames e subs) conn.sent
  unfolding broadcast_to_subs
  broadcast_to_subs-sent e [] conn = refl
  broadcast_to_subs-sent e ((key, sub) ∷ subs) conn =
      elim (Bool-cases (sub.active && event_matches_filter e sub.filter)) [
        | inl w ↦
            rw (broadcast_to_subs, w)
              (broadcast_to_subs-sent e subs (send (event_frame sub.id e) conn))
        | inr w ↦ rw (broadcast_to_subs, w) (broadcast_to_subs-sent e subs conn)
      ]

module _ (E : Type 0) {F : Type 0} where
  others_only :
      (id : String) (e : Event F) (subs : Dict Subscription)
      → All IsNamed subs
      → All {A = Frame E} (NotFor id) (broadcast_frames e (erase id subs))
  unfolding erase
  others_only id e [] h = tt
  others_only id e ((key, sub) ∷ subs) h = ground (arith, others_only id e subs h.1, eq_iff key id)

module _ {E F : Type 0} where
  pub broadcast-handle_close :
      (id : String) (args : List (Json F)) (e : Event F) (conn : Connection E)
      → IsWellFormed conn
      → let closed = (handle_close conn (str id ∷ args)).0 in
        (frames : List (Frame E)) × (((broadcast_to_subs e closed.subs closed).sent
            ≡ onto frames conn.sent)
          × All (NotFor id) frames)
  unfolding handle_close
  broadcast-handle_close id args e conn h = (
    broadcast_frames e (erase id conn.subs),
    (
      broadcast_to_subs-sent e (erase id conn.subs) (record conn { subs = erase id conn.subs }),
      others_only E id e conn.subs h.named,
    ),
  )

  pub handle_close-IsWellFormed :
      (conn : Connection E) (args : List (Json F))
      → IsWellFormed conn
      → IsWellFormed (handle_close conn args).0
  unfolding handle_close
  handle_close-IsWellFormed conn [] h = h
  handle_close-IsWellFormed conn (arg ∷ args) h = elim (Option-cases (as_string arg)) [
    | inl e ↦ rw (handle_close, e) h
    | inr (id, e) ↦
        rw (handle_close, e)
          (record {
            named = erase-IsNamed id conn.subs h.named;
            is_map = erase-NodupKeys id conn.subs h.is_map;
          })
  ]

-- The connection's invariant: it holds at the start, and every request keeps it.
pub new_connection-IsWellFormed : {E : Type 0} → IsWellFormed {E = E} new_connection
unfolding new_connection
new_connection-IsWellFormed = record { named = tt; is_map = tt }

module _ (R : Float) {E : Type 0} where
  pub handle_req-IsWellFormed :
      (conn : Connection E) (args : List (Json R.F))
      → IsWellFormed conn
      → IsWellFormed (handle_req R conn args).0
  unfolding handle_req
  handle_req-IsWellFormed conn [] h = h
  handle_req-IsWellFormed conn (id ∷ []) h = h
  handle_req-IsWellFormed conn (id ∷ arg ∷ args) h = elim (Option-cases (as_string id)) [
    | inl e ↦ rw (handle_req, e) h
    | inr (sub_id, e) ↦ elim (Option-cases (as_object arg)) [
      | inl f ↦ rw (handle_req, e, f) h
      | inr (fs, f) ↦
          let sub : Subscription = record {
            id = sub_id;
            filter = parse_filter R fs;
            active = true;
          } in
          rw (handle_req, e, f)
            (record {
              named = insert-IsNamed sub_id sub conn.subs refl h.named;
              is_map = insert-NodupKeys sub_id sub conn.subs h.is_map;
            })
    ]
  ]
