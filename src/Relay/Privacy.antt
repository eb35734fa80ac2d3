-- ===== src/Relay/Privacy.antt =====
-- internal/relay/privacy.go: which events a requester may see.
pub mod Recipients
use mercury_relay.Prelude.{
  String, ◌<>◌, str_eq, Bool, true, false, ◌&&◌, List, [], ◌∷◌, ℤ, pos, eq_ℤ, ltb_ℤ, not, elem_ℤ,
  if◌then◌else◌,
}
use mercury_relay.Prelude.Decimal.{itoa}
use mercury_relay.Models.Event.{Event, Tags}

pub record PrivacyFilter : Type 0 where
  pub requester_pubkey : String

unfoldable pub new_privacy_filter : String → PrivacyFilter
new_privacy_filter requester_pubkey = record { requester_pubkey = requester_pubkey }

-- The loop over the "p" tags of `canAccessDM`.
unfoldable pub is_recipient : String → Tags → Bool
is_recipient requester [] = false
is_recipient requester ((t ∷ v ∷ more) ∷ tags) =
    let rest = is_recipient requester tags in
    if str_eq t "p" then if str_eq v requester then true else rest else rest
is_recipient requester (_ ∷ tags) = is_recipient requester tags

-- The value of the first "d" tag, or the empty text.
unfoldable pub d_tag : Tags → String
d_tag [] = ""
d_tag ((t ∷ v ∷ more) ∷ tags) = let rest = d_tag tags in if str_eq t "d" then v else rest
d_tag (_ ∷ tags) = d_tag tags

abbrev pub replaceable_kinds : List ℤ
replaceable_kinds =
    pos 0
    ∷ pos 3
    ∷ pos 5
    ∷ pos 6
    ∷ pos 7
    ∷ pos 8
    ∷ pos 40
    ∷ pos 41
    ∷ pos 42
    ∷ pos 43
    ∷ pos 44
    ∷ pos 10002
    ∷ pos 30000
    ∷ pos 30001
    ∷ pos 30008
    ∷ pos 30009
    ∷ pos 30078
    ∷ []

unfoldable pub is_replaceable_event : ℤ → Bool
is_replaceable_event kind = elem_ℤ kind replaceable_kinds

module _ {F : Type 0} where
  unfoldable pub can_access_dm : PrivacyFilter → Event F → Bool
  unfolding is_recipient
  can_access_dm pf event =
      if is_recipient pf.requester_pubkey event.tags
      then true
      else str_eq event.pub_key pf.requester_pubkey

  unfoldable pub can_access_event : PrivacyFilter → Event F → Bool
  unfolding can_access_dm
  can_access_event pf event =
      if str_eq event.pub_key pf.requester_pubkey
      then true
      else if eq_ℤ event.kind (pos 4)
      then can_access_dm pf event
      else if eq_ℤ event.kind (pos 1059)
      then str_eq event.pub_key pf.requester_pubkey
      else if not (ltb_ℤ event.kind (pos 1059)) && not (ltb_ℤ (pos 1999) event.kind)
      then str_eq event.pub_key pf.requester_pubkey
      else true

  unfoldable pub get_replaceable_event_key : Event F → String
  unfolding is_replaceable_event d_tag
  get_replaceable_event_key event =
      if is_replaceable_event event.kind
      then itoa event.kind <> ":" <> event.pub_key <> ":" <> d_tag event.tags
      else ""
