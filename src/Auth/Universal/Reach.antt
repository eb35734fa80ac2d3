-- ===== src/Auth/Universal/Reach.antt =====
-- Who is let in (internal/auth/universal.go) after any operations, on top of what
-- internal/auth/nostr.go promises of its logins.
use mercury_relay.Prelude.{
  ℕ, String, str_eq, eq_iff, ◌≡◌, refl, sym, ◌⊎◌, ◌∙◌, Bool, true, not, ◌&&◌, Option, List, [], ◌∷◌,
  arith, Dict, insert, has, elem, lookup-insert, lookup-nil, Any, if◌then◌else◌, Bool-cases, inl,
  inr,
}
use mercury_relay.Prelude.Json.{Stdlib}
use mercury_relay.Models.Event.{NostrEvent}
use mercury_relay.Auth.Nostr.{is_authenticated, is_authorized}
use mercury_relay.Auth.Nostr.Reach.{
  AuthOp, apply, recorded, IsAccounted, IsAccounted-apply, IsAccounted-ask, IsAccounted-new,
  Vouches, is_authenticated-lookup,
}
use mercury_relay.Auth.Universal.{
  UniversalAuthenticator, new_universal_authenticator, admin_map, is_admin,
  check_admin_follows_user, admit, authenticate_request, add_to_whitelist, remove_from_whitelist,
}

-- The operations of the authenticator: those of its inner one, requests, and the whitelist's.
pub data UniversalOp : Type 0 where
  nostr : AuthOp → UniversalOp
  request : ℕ → ℕ → ℕ → String → UniversalOp
  add : String → String → UniversalOp
  remove : String → String → UniversalOp

pub has-admin_map :
    (k : String) (npubs : List String) (m : Dict Bool)
    → has k (admin_map npubs m) ≡ (if elem k npubs then true else has k m)
unfolding admin_map
has-admin_map k [] m = refl
has-admin_map k (n ∷ npubs) m = ground (
  arith,
  has-admin_map k npubs (insert n true m),
  lookup-insert n k true m,
  eq_iff k n,
  eq_iff n k,
)

authorized_elem :
    (k : String) (ks : List String) (npub : String)
    → is_authorized (k ∷ ks) npub ≡ elem npub (k ∷ ks)
unfolding is_authorized
authorized_elem k ks npub = refl

Any-Vouches_authorized :
    (check_signature : NostrEvent → Option Bool) (keys : List String) (pubkey : String) (t : ℕ)
    (log : List (NostrEvent × ℕ))
    → Any (Vouches check_signature keys pubkey t) log
    → is_authorized keys pubkey ≡ true
Any-Vouches_authorized check_signature keys pubkey t [] v = elim v [ ]
Any-Vouches_authorized check_signature keys pubkey t (x ∷ log) (inl v) = v.3
Any-Vouches_authorized check_signature keys pubkey t (x ∷ log) (inr v) =
    Any-Vouches_authorized check_signature keys pubkey t log v

module _ {F : Type 0} (lib : Stdlib F) (check_signature : NostrEvent → Option Bool) where
  abbrev pub apply_op : UniversalOp → UniversalAuthenticator → UniversalAuthenticator
  apply_op (nostr op) ua = record ua { nostr_auth = apply check_signature op ua.nostr_auth }
  apply_op (request since now later npub) ua = (authenticate_request lib since now later npub ua).0
  apply_op (add admin_npub user_npub) ua = (add_to_whitelist admin_npub user_npub ua).0
  apply_op (remove admin_npub user_npub) ua = (remove_from_whitelist admin_npub user_npub ua).0

  -- The operations in order, the last one first.
  abbrev pub apply_ops : List UniversalOp → UniversalAuthenticator → UniversalAuthenticator
  apply_ops [] ua = ua
  apply_ops (op ∷ ops) ua = apply_op op (apply_ops ops ua)

  record IsSound (admins : List String) (log : List (NostrEvent × ℕ)) (ua : UniversalAuthenticator)
      : Type 0 where
    accounted : IsAccounted check_signature admins ua.nostr_auth log
    admins_kept : ua.admin_npubs ≡ admin_map admins []

  -- An operation, and the logins after it.
  after_op : UniversalOp → UniversalAuthenticator → List (NostrEvent × ℕ) → List (NostrEvent × ℕ)
  after_op (nostr op) ua log = recorded check_signature op ua.nostr_auth log
  after_op (request since now later npub) ua log = log
  after_op (add admin_npub user_npub) ua log = log
  after_op (remove admin_npub user_npub) ua log = log

  same_checked :
      (now later : ℕ) (npub : String) (ua : UniversalAuthenticator)
      → let checked = (check_admin_follows_user lib now later npub ua).0 in
        (checked.nostr_auth ≡ ua.nostr_auth) × (checked.admin_npubs ≡ ua.admin_npubs)
  unfolding check_admin_follows_user
  same_checked now later npub ua = ground arith

  same_admitted :
      (now later : ℕ) (npub : String) (ua : UniversalAuthenticator)
      → let admitted = (admit lib now later npub ua).0 in
        (admitted.nostr_auth ≡ ua.nostr_auth) × (admitted.admin_npubs ≡ ua.admin_npubs)
  unfolding admit
  same_admitted now later npub ua = ground (arith, same_checked now later npub ua)

  -- A request leaves the admins, and asks the inner authenticator at most once.
  requested :
      (since now later : ℕ) (npub : String) (ua : UniversalAuthenticator)
      → let after = (authenticate_request lib since now later npub ua).0 in
        ((after.nostr_auth ≡ ua.nostr_auth)
          ⊎ (after.nostr_auth ≡ (is_authenticated since npub ua.nostr_auth).0))
        × (after.admin_npubs ≡ ua.admin_npubs)
  unfolding authenticate_request
  requested since now later npub ua =
      let na = (is_authenticated since npub ua.nostr_auth).0 in
      ground (arith, same_admitted now later npub (record ua { nostr_auth = na }))

  IsSound-request :
      (admins : List String) (since now later : ℕ) (npub : String) (log : List (NostrEvent × ℕ))
      (ua : UniversalAuthenticator)
      → IsSound admins log ua
      → IsSound admins log (authenticate_request lib since now later npub ua).0
  IsSound-request admins since now later npub log ua h =
      let r = requested since now later npub ua in
      record {
        accounted = elim r.0 [
          | inl e ↦ rw e h.accounted
          | inr e ↦
              rw e (IsAccounted-ask check_signature since npub admins ua.nostr_auth log h.accounted)
        ];
        admins_kept = r.1 ∙ h.admins_kept;
      }

  IsSound-add :
      (admins : List String) (admin_npub user_npub : String) (log : List (NostrEvent × ℕ))
      (ua : UniversalAuthenticator)
      → IsSound admins log ua
      → IsSound admins log (add_to_whitelist admin_npub user_npub ua).0
  unfolding add_to_whitelist
  IsSound-add admins admin_npub user_npub log ua h = ground arith

  IsSound-remove :
      (admins : List String) (admin_npub user_npub : String) (log : List (NostrEvent × ℕ))
      (ua : UniversalAuthenticator)
      → IsSound admins log ua
      → IsSound admins log (remove_from_whitelist admin_npub user_npub ua).0
  unfolding remove_from_whitelist
  IsSound-remove admins admin_npub user_npub log ua h = ground arith

  -- The logins of a whole history.
  abbrev history : List UniversalOp → UniversalAuthenticator → List (NostrEvent × ℕ)
  history [] ua = []
  history (op ∷ ops) ua = after_op op (apply_ops ops ua) (history ops ua)

  IsSound-ops :
      (admins : List String) (start : UniversalAuthenticator)
      → IsSound admins [] start
      → (ops : List UniversalOp) → IsSound admins (history ops start) (apply_ops ops start)
  unfolding after_op
  IsSound-ops admins start h [] = h
  IsSound-ops admins start h (nostr op ∷ ops) =
      let ih = IsSound-ops admins start h ops in
      record {
        accounted =
            IsAccounted-apply check_signature op admins (apply_ops ops start).nostr_auth
              (history ops start) ih.accounted;
        admins_kept = ih.admins_kept;
      }
  IsSound-ops admins start h (request since now later npub ∷ ops) =
      IsSound-request admins since now later npub (history ops start) (apply_ops ops start)
        (IsSound-ops admins start h ops)
  IsSound-ops admins start h (add admin_npub user_npub ∷ ops) =
      IsSound-add admins admin_npub user_npub (history ops start) (apply_ops ops start)
        (IsSound-ops admins start h ops)
  IsSound-ops admins start h (remove admin_npub user_npub ∷ ops) =
      IsSound-remove admins admin_npub user_npub (history ops start) (apply_ops ops start)
        (IsSound-ops admins start h ops)

  IsSound-new :
      (admins : List String) (relay_url : String)
      → IsSound admins [] (new_universal_authenticator admins relay_url)
  unfolding new_universal_authenticator
  IsSound-new admins relay_url = record {
    accounted = IsAccounted-new check_signature relay_url admins;
    admins_kept = refl;
  }

  authenticated_elem :
      (k : String) (ks : List String) (since : ℕ) (npub : String) (log : List (NostrEvent × ℕ))
      (ua : UniversalAuthenticator)
      → IsSound (k ∷ ks) log ua
      → (is_authenticated since npub ua.nostr_auth).1 ≡ true
      → elem npub (k ∷ ks) ≡ true
  authenticated_elem k ks since npub log ua h asked =
      let found = is_authenticated-lookup since npub ua.nostr_auth asked in
      sym (authorized_elem k ks npub)
      ∙ Any-Vouches_authorized check_signature (k ∷ ks) npub found.0.expires_at log
          (h.accounted.vouched npub found.0 found.1.0)

  has-admins :
      (admins : List String) (npub : String) (log : List (NostrEvent × ℕ))
      (ua : UniversalAuthenticator)
      → IsSound admins log ua
      → has npub ua.admin_npubs ≡ elem npub admins
  has-admins admins npub log ua h =
      rw h.admins_kept
        (rw (has-admin_map npub admins []) (ground (arith, lookup-nil {V = Bool} npub)))

  sound_answer :
      (k : String) (ks : List String) (since now later : ℕ) (npub : String)
      (log : List (NostrEvent × ℕ)) (ua : UniversalAuthenticator)
      → IsSound (k ∷ ks) log ua
      → (authenticate_request lib since now later npub ua).1
        ≡ (not (str_eq npub "") && elem npub (k ∷ ks))
  unfolding authenticate_request is_admin
  sound_answer k ks since now later npub log ua h =
      elim (Bool-cases (is_authenticated since npub ua.nostr_auth).1) [
        | inl asked ↦ ground (
          arith,
          authenticated_elem k ks since npub log ua h asked,
          has-admins (k ∷ ks) npub log ua h,
        )
        | inr refused ↦ ground (arith, has-admins (k ∷ ks) npub log ua h)
      ]

  -- Where admins are configured, after any operations on a new authenticator: a request is
  -- authorised exactly when its header names one of them. Nobody else is let in, whether they are
  -- on the whitelist or followed, and whatever they sign, since the inner authenticator
  -- accepts the admins' keys alone.
  pub authenticate_request_iff_admin :
      (k : String) (ks : List String) (relay_url : String) (ops : List UniversalOp)
      (since now later : ℕ) (npub : String)
      → let ua = apply_ops ops (new_universal_authenticator (k ∷ ks) relay_url) in
        (authenticate_request lib since now later npub ua).1
        ≡ (not (str_eq npub "") && elem npub (k ∷ ks))
  authenticate_request_iff_admin k ks relay_url ops since now later npub =
      let start = new_universal_authenticator (k ∷ ks) relay_url in
      sound_answer k ks since now later npub (history ops start) (apply_ops ops start)
        (IsSound-ops (k ∷ ks) start (IsSound-new (k ∷ ks) relay_url) ops)
