-- ===== src/Tests/Relay.antt =====
-- Examples for internal/relay.
use mercury_relay.Prelude.{
  ℕ, String, ◌≡◌, ◌↔◌, refl, Bool, true, false, none, some, List, [], ◌∷◌, pos, All, map, filter,
}
use mercury_relay.Prelude.Json
use mercury_relay.Prelude.Json.{Json, Fields, get}
use mercury_relay.Models.Event.{Event}
use mercury_relay.Models.Filter.{Filter}
use mercury_relay.Access.{Controller, new_controller}
use mercury_relay.Relay.Privacy.{new_privacy_filter, can_access_event}
use mercury_relay.Relay.Privacy.Recipients.{MayAccess, can_access_event_iff}
use mercury_relay.Relay.Matching.{event_matches_filter}
use mercury_relay.Relay.Matching.Criteria.{IsMatch, event_matches_filter_iff}
use mercury_relay.Relay.Server.{
  Subscription, Frame, Connection, new_connection, event_frame, send_matching_events,
  broadcast_to_subs, graded_event, handle_event, handle_close,
}
use mercury_relay.Relay.Server.Parse.{parse_event, claimed_pubkey}
use mercury_relay.Relay.Server.Events.{
  IsAcceptedFrom, object_of, handle_event_iff, handle_event-claim, graded_event-parse_event,
}
use mercury_relay.Relay.Server.Sending.{
  onto, wanted, while_active, NotFor, send_matching_events-sent,
}
use mercury_relay.Relay.Server.Session.{receive_all, broadcast-close}
use mercury_relay.Tests.Data.{fixed, fixed-IsIeee, fifo, stdlib, note, dm, noon}

can_access_event_iff_example :
    (can_access_event (new_privacy_filter "bob") dm ≡ true)
    ↔ MayAccess (new_privacy_filter "bob") dm
can_access_event_iff_example = can_access_event_iff (new_privacy_filter "bob") dm

-- Notes since a time.
abbrev notes : Filter
notes = record {
  ids = [];
  authors = [];
  kinds = pos 1 ∷ [];
  since = some (pos 900);
  until = none;
  limit = pos 10;
}

event_matches_filter_iff_example : (event_matches_filter note notes ≡ true) ↔ IsMatch note notes
event_matches_filter_iff_example = event_matches_filter_iff note notes

abbrev sub : Subscription
sub = record { id = "sub"; filter = notes; active = true }

abbrev conn : Connection String
conn = record { subs = []; pubkey = "carol"; sent = [] }

abbrev stored : List (Event ℕ × Bool)
stored = (note, true) ∷ (dm, true) ∷ (note, false) ∷ []

send_matching_events-sent_example :
    (send_matching_events sub stored conn).sent
    ≡ onto
        (map
          (event_frame "sub")
          (filter (wanted (new_privacy_filter "carol") sub) (while_active stored)))
        []
send_matching_events-sent_example = send_matching_events-sent sub stored conn

abbrev access : Controller
access =
    new_controller
      (record { admin_npubs = "alice" ∷ []; allow_public_read = true; allow_public_write = false })

abbrev event_data : String → Fields ℕ
event_data pubkey = Json.entry "pubkey" (Json.str pubkey) (
    Json.entry "id" (Json.str "id")
      (Json.entry "sig" (Json.str "good") (Json.entry "created_at" (Json.num 10000) Json.end)))

handle_event_iff_example :
    ((handle_event fixed fifo access noon noon conn [] (Json.obj (event_data "alice") ∷ [])).2
      ≡ none)
    ↔ IsAcceptedFrom fixed fifo access noon noon (object_of (Json.obj (event_data "alice") ∷ [])) []
handle_event_iff_example =
    handle_event_iff fixed fifo access noon noon (Json.obj (event_data "alice") ∷ []) conn []

claimed : claimed_pubkey (event_data "bob") ≡ some "bob"
unfolding claimed_pubkey get
claimed = refl

fresh : (new_connection {E = String}).pubkey ≡ ""
unfolding new_connection
fresh = refl

-- The denied event makes the connection bob's.
handle_event-claim_example :
    (handle_event fixed fifo access noon noon new_connection []
      (Json.obj (event_data "bob") ∷ [])).0.pubkey
    ≡ "bob"
handle_event-claim_example =
    handle_event-claim fixed fifo access noon noon (event_data "bob") [] "bob" new_connection []
      fresh claimed

graded_event-parse_event_example :
    (graded_event fixed (parse_event fixed (event_data "alice"))).is_quarantined ≡ false
graded_event-parse_event_example = graded_event-parse_event fixed fixed-IsIeee (event_data "alice")

abbrev session : Connection String
session = (receive_all fixed fifo stdlib access ((noon, noon, "request") ∷ []) []).0

broadcast-close_example :
    let closed = (handle_close {F = ℕ} session (Json.str "sub" ∷ [])).0 in
    (frames : List (Frame String)) × (((broadcast_to_subs note closed.subs closed).sent
        ≡ onto frames session.sent)
      × All (NotFor "sub") frames)
broadcast-close_example =
    broadcast-close fixed fifo stdlib access ((noon, noon, "request") ∷ []) [] "sub" [] note
