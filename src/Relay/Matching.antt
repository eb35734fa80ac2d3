-- ===== src/Relay/Matching.antt =====
-- internal/relay/relay.go, `eventMatchesFilter`: whether an event is what a subscription asks for.
pub mod Criteria
use mercury_relay.Prelude.{
  ℕ, String, str_eq, Bool, true, false, not, ◌&&◌, ◌||◌, Option, none, some, List, [], ◌∷◌, ℤ, pos,
  eq_ℤ, ltb_ℤ, elem, elem_ℤ, if◌then◌else◌,
}
use mercury_relay.Models.Event.{Event}
use mercury_relay.Models.Filter.{Filter}

-- No authors, or the author among them; and the same for kinds.
unfoldable pub author_matches : List String → String → Bool
author_matches [] pubkey = true
author_matches (a ∷ authors) pubkey = elem pubkey (a ∷ authors)

unfoldable pub kind_matches : List ℤ → ℤ → Bool
kind_matches [] kind = true
kind_matches (k ∷ kinds) kind = elem_ℤ kind (k ∷ kinds)

-- The bound is there, is positive, and is passed.
unfoldable pub before_since : Option ℤ → ℤ → Bool
before_since none created_at = false
before_since (some since) created_at = ltb_ℤ (pos 0) since && ltb_ℤ created_at since

unfoldable pub after_until : Option ℤ → ℤ → Bool
after_until none created_at = false
after_until (some until) created_at = ltb_ℤ (pos 0) until && ltb_ℤ until created_at

unfoldable pub event_matches_filter : {F : Type 0} → Event F → Filter → Bool
unfolding author_matches kind_matches before_since after_until
event_matches_filter event filter =
    if not (author_matches filter.authors event.pub_key)
    then false
    else if not (kind_matches filter.kinds event.kind)
    then false
    else if before_since filter.since event.created_at
    then false
    else if after_until filter.until event.created_at
    then false
    else true
