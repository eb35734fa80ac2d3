-- ===== src/Models/Event/Validity.antt =====
-- What `Validate` accepts (internal/models/event.go), and what the conversions keep.
use mercury_relay.Prelude.{
  ℕ, ◌+◌, ◌*◌, ◌≤◌, len, eq_iff, ◌≡◌, refl, ◌≢◌, ◌↔◌, none, arith, pos, ◌≤ℤ◌, shift,
}
use mercury_relay.Prelude.Float.{Float}
use mercury_relay.Models.Event.{
  Event, NostrEvent, minute, hour, unix_time, validate, to_nostr_event, from_nostr_event,
}

-- What an accepted event satisfies.
pub record IsAcceptable {F : Type 0} (since now : ℕ) (e : Event F) : Type 0 where
  pub recent : pos since ≤ℤ shift hour (unix_time e.created_at)
  pub not_future : unix_time e.created_at ≤ℤ pos (now + 5 * minute)
  pub short : len e.content ≤ 10000
  pub has_id : e.id ≢ ""
  pub has_pub_key : e.pub_key ≢ ""
  pub has_sig : e.sig ≢ ""

module _ {F : Type 0} (since now : ℕ) (e : Event F) where
  accepted_only : validate since now e ≡ none → IsAcceptable since now e
  unfolding validate
  accepted_only h = record {
    recent = ground arith;
    not_future = ground arith;
    short = ground arith;
    has_id = ground (arith, eq_iff e.id "");
    has_pub_key = ground (arith, eq_iff e.pub_key "");
    has_sig = ground (arith, eq_iff e.sig "");
  }

  accepted_all : IsAcceptable since now e → validate since now e ≡ none
  unfolding validate
  accepted_all h = ground (arith, eq_iff e.id "", eq_iff e.pub_key "", eq_iff e.sig "")

  -- `Validate` returns no error exactly when the event is at most an hour old by the first clock
  -- reading and at most five minutes ahead of the second, its content has at most 10000 bytes,
  -- and its id, public key and signature are not empty.
  pub validate_iff : (validate since now e ≡ none) ↔ IsAcceptable since now e
  validate_iff = (accepted_only, accepted_all)

-- An event made from a Nostr event converts back to it, whatever the clock.
pub to_nostr_event-from_nostr_event :
    (R : Float) (ne : NostrEvent) (now : ℕ) → to_nostr_event (from_nostr_event R ne now) ≡ ne
unfolding to_nostr_event from_nostr_event
to_nostr_event-from_nostr_event R ne now = refl
