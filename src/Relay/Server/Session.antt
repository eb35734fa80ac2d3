-- ===== src/Relay/Server/Session.antt =====
-- A whole connection (internal/relay/relay.go): whatever messages a client sends, its subscriptions
-- stay in order.
use mercury_relay.Prelude.{
  ℕ, String, ◌≡◌, refl, ◌∙◌, inl, inr, Option, none, some, List, [], ◌∷◌, All, arith, Option-cases,
}
use mercury_relay.Prelude.Float.{Float}
use mercury_relay.Prelude.Json
use mercury_relay.Prelude.Json.{Json, Fields, Stdlib, as_string, as_object, str}
use mercury_relay.Models.Event.{Event}
use mercury_relay.Access.{Controller}
use mercury_relay.Queue.{Queue}
use mercury_relay.Relay.Server.{
  Frame, Connection, new_connection, claim, accept_event, handle_event, dispatch, handle_items,
  handle_decoded, handle_message, handle_close, receive, broadcast_to_subs,
}
use mercury_relay.Relay.Server.Parse.{parse_event}
use mercury_relay.Relay.Server.Sending.{
  onto, IsWellFormed, NotFor, broadcast-handle_close, handle_close-IsWellFormed,
  handle_req-IsWellFormed, new_connection-IsWellFormed,
}

module _ (R : Float) (Q : Queue R.F) (lib : Stdlib R.F) (access : Controller) where
  accept_event_subs :
      (since now : ℕ) (e : Event R.F) (conn : Connection Q.Error) (q : Q.State)
      → (accept_event R Q access since now e conn q).0.subs ≡ conn.subs
  unfolding accept_event
  accept_event_subs since now e conn q = ground arith

  claim_subs : (fs : Fields R.F) (conn : Connection Q.Error) → (claim R fs conn).subs ≡ conn.subs
  unfolding claim
  claim_subs fs conn = ground arith

  handle_event_subs :
      (since now : ℕ) (conn : Connection Q.Error) (q : Q.State) (args : List (Json R.F))
      → (handle_event R Q access since now conn q args).0.subs ≡ conn.subs
  unfolding handle_event
  handle_event_subs since now conn q [] = refl
  handle_event_subs since now conn q (arg ∷ args) = elim (Option-cases (as_object arg)) [
    | inl e ↦ rw (handle_event, e) refl
    | inr (fs, e) ↦
        rw (handle_event, e)
          (accept_event_subs since now (parse_event R fs) (claim R fs conn) q ∙ claim_subs fs conn)
  ]

  IsWellFormed-of_subs :
      (conn conn' : Connection Q.Error)
      → conn'.subs ≡ conn.subs
      → IsWellFormed conn
      → IsWellFormed conn'
  IsWellFormed-of_subs conn conn' e h = record { named = rw e h.named; is_map = rw e h.is_map }

  event-IsWellFormed :
      (since now : ℕ) (conn : Connection Q.Error) (q : Q.State) (args : List (Json R.F))
      → IsWellFormed conn
      → IsWellFormed (handle_event R Q access since now conn q args).0
  event-IsWellFormed since now conn q args h =
      IsWellFormed-of_subs conn (handle_event R Q access since now conn q args).0
        (handle_event_subs since now conn q args) h

  dispatch-IsWellFormed :
      (since now : ℕ) (msg_type : String) (args : List (Json R.F)) (conn : Connection Q.Error)
      (q : Q.State)
      → IsWellFormed conn
      → IsWellFormed (dispatch R Q access since now msg_type args conn q).0
  unfolding dispatch
  dispatch-IsWellFormed since now msg_type args conn q h = ground (
    arith,
    handle_req-IsWellFormed R conn args h,
    event-IsWellFormed since now conn q args h,
    handle_close-IsWellFormed conn args h,
  )

  items-IsWellFormed :
      (since now : ℕ) (items : List (Json R.F)) (conn : Connection Q.Error) (q : Q.State)
      → IsWellFormed conn
      → IsWellFormed (handle_items R Q access since now items conn q).0
  unfolding handle_items
  items-IsWellFormed since now [] conn q h = h
  items-IsWellFormed since now (item ∷ []) conn q h = h
  items-IsWellFormed since now (item ∷ arg ∷ args) conn q h = elim (Option-cases (as_string item)) [
    | inl e ↦ rw (handle_items, e) h
    | inr (t, e) ↦ rw (handle_items, e) (dispatch-IsWellFormed since now t (arg ∷ args) conn q h)
  ]

  decoded-IsWellFormed :
      (since now : ℕ) (decoded : Option (Json R.F)) (conn : Connection Q.Error) (q : Q.State)
      → IsWellFormed conn
      → IsWellFormed (handle_decoded R Q access since now decoded conn q).0
  unfolding handle_decoded
  decoded-IsWellFormed since now none conn q h = h
  decoded-IsWellFormed since now (some Json.null) conn q h =
      items-IsWellFormed since now [] conn q h
  decoded-IsWellFormed since now (some (Json.boolean b)) conn q h = h
  decoded-IsWellFormed since now (some (Json.num x)) conn q h = h
  decoded-IsWellFormed since now (some (Json.str s)) conn q h = h
  decoded-IsWellFormed since now (some (Json.obj fs)) conn q h = h
  decoded-IsWellFormed since now (some (Json.arr items)) conn q h =
      items-IsWellFormed since now (Json.to_list items) conn q h

  receive-IsWellFormed :
      (since now : ℕ) (message : String) (conn : Connection Q.Error) (q : Q.State)
      → IsWellFormed conn
      → IsWellFormed (receive R Q lib access since now message conn q).0
  unfolding receive handle_message
  receive-IsWellFormed since now message conn q h =
      let decoded = lib.decode message in
      IsWellFormed-of_subs (handle_decoded R Q access since now decoded conn q).0
        (receive R Q lib access since now message conn q).0 (ground arith)
        (decoded-IsWellFormed since now decoded conn q h)

  -- The messages of a client in order, the last one first, each with its two readings of the clock.
  abbrev pub receive_all : List (ℕ × ℕ × String) → Q.State → Connection Q.Error × Q.State
  receive_all [] q = (new_connection, q)
  receive_all ((since, now, message) ∷ messages) q =
      let (conn, q) = receive_all messages q in receive R Q lib access since now message conn q

  session-IsWellFormed :
      (messages : List (ℕ × ℕ × String)) (q : Q.State) → IsWellFormed (receive_all messages q).0
  session-IsWellFormed [] q = new_connection-IsWellFormed
  session-IsWellFormed ((since, now, message) ∷ messages) q =
      receive-IsWellFormed since now message (receive_all messages q).0 (receive_all messages q).1
        (session-IsWellFormed messages q)

  -- On a connection after any messages: a broadcast that follows a CLOSE sends nothing for the closed
  -- subscription.
  pub broadcast-close :
      (messages : List (ℕ × ℕ × String)) (q : Q.State) (id : String) (args : List (Json R.F))
      (e : Event R.F)
      → let conn = (receive_all messages q).0 in
        let closed = (handle_close conn (str id ∷ args)).0 in
        (frames : List (Frame Q.Error)) × (((broadcast_to_subs e closed.subs closed).sent
            ≡ onto frames conn.sent)
          × All (NotFor id) frames)
  broadcast-close messages q id args e =
      broadcast-handle_close id args e (receive_all messages q).0 (session-IsWellFormed messages q)
