-- ===== src/Relay/Privacy/Recipients.antt =====
-- What internal/relay/privacy.go keeps private, and from whom.
use mercury_relay.Prelude.{
  String, eq_iff, ◌≡◌, ◌≢◌, ◌↔◌, ◌⊎◌, true, List, [], ◌∷◌, ℤ, pos, ◌<ℤ◌, arith, Any, eq_ℤ_iff,
}
use mercury_relay.Models.Event.{Event, Tags}
use mercury_relay.Relay.Privacy.{PrivacyFilter, is_recipient, can_access_dm, can_access_event}

-- A tag that starts with "p" and the requester.
abbrev pub NamesRecipient : String → List String → Type 0
NamesRecipient requester [] = ⊥
NamesRecipient requester (t ∷ []) = ⊥
NamesRecipient requester (t ∷ v ∷ more) = (t ≡ "p") × (v ≡ requester)

is_recipient_iff :
    (requester : String) (tags : Tags)
    → (is_recipient requester tags ≡ true) ↔ Any (NamesRecipient requester) tags
unfolding is_recipient
is_recipient_iff requester [] = ground arith
is_recipient_iff requester ([] ∷ tags) = ground (arith, is_recipient_iff requester tags)
is_recipient_iff requester ((t ∷ []) ∷ tags) = ground (arith, is_recipient_iff requester tags)
is_recipient_iff requester ((t ∷ v ∷ more) ∷ tags) =
    ground (arith, is_recipient_iff requester tags, eq_iff t "p", eq_iff v requester)

-- The kinds that are kept from others than the author, direct messages apart.
abbrev pub IsEncryptedKind : ℤ → Type 0
IsEncryptedKind kind = (pos 1058 <ℤ kind) × (kind <ℤ pos 2000)

abbrev pub MayAccess : {F : Type 0} → PrivacyFilter → Event F → Type 0
MayAccess pf e =
    (e.pub_key ≡ pf.requester_pubkey)
    ⊎ ((e.kind ≡ pos 4) × Any (NamesRecipient pf.requester_pubkey) e.tags)
    ⊎ ((e.kind ≢ pos 4) × (IsEncryptedKind e.kind → ⊥))

-- A requester may see an event exactly when it is their own, or a direct message (kind 4) with a "p"
-- tag that names them, or of a kind that is neither 4 nor between 1059 and 1999.
pub can_access_event_iff :
    {F : Type 0} (pf : PrivacyFilter) (e : Event F)
    → (can_access_event pf e ≡ true) ↔ MayAccess pf e
unfolding can_access_event can_access_dm
can_access_event_iff pf e = ground (
  arith,
  is_recipient_iff pf.requester_pubkey e.tags,
  eq_iff e.pub_key pf.requester_pubkey,
  eq_ℤ_iff e.kind (pos 4),
  eq_ℤ_iff e.kind (pos 1059),
)
