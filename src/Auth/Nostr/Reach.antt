-- ===== src/Auth/Nostr/Reach.antt =====
-- Whoever is authenticated has logged in (internal/auth/nostr.go), after any operations.
use mercury_relay.Prelude.{
  ℕ, ◌+◌, ◌*◌, ◌≤◌, String, eq_iff, ◌≡◌, refl, ◌∙◌, Bool, true, Option, none, some, List, [], ◌∷◌,
  arith, Any, NodupKeys, lookup, lookup-insert, lookup-erase, lookup-retain, insert-NodupKeys,
  erase-NodupKeys, retain-NodupKeys, Option-cases, inl, inr,
}
use mercury_relay.Models.Event.{NostrEvent, hour}
use mercury_relay.Auth.Nostr.{
  AuthenticatedUser, NostrAuthenticator, AuthError, new_nostr_authenticator, user_alive,
  challenge_of, is_authorized, user_at, Finding, unknown, expired, valid, find_user, answer_found,
  login, generate_challenge, verify_authentication, is_authenticated, cleanup, drop_user,
}
use mercury_relay.Auth.Nostr.Login.{
  good_only, good_all, verify_authentication_refused, keys-verify_authentication,
}

-- The operations of an authenticator, each with its readings of the clock.
pub data AuthOp : Type 0 where
  generate : Option String → ℕ → ℕ → AuthOp
  verify : ℕ → ℕ → NostrEvent → AuthOp
  ask : ℕ → String → AuthOp
  clean : ℕ → ℕ → AuthOp

abbrev pub logged :
    Option AuthError → NostrEvent × ℕ → List (NostrEvent × ℕ) → List (NostrEvent × ℕ)
logged none login log = login ∷ log
logged (some err) login log = log

module _ (check_signature : NostrEvent → Option Bool) where
  abbrev pub apply : AuthOp → NostrAuthenticator → NostrAuthenticator
  apply (generate random now later) na = (generate_challenge random now later na).0
  apply (verify now later e) na = (verify_authentication check_signature now later e na).0
  apply (ask now pubkey) na = (is_authenticated now pubkey na).0
  apply (clean now later) na = cleanup now later na

  -- The operations in order, the last one first.
  abbrev pub apply_all : List AuthOp → NostrAuthenticator → NostrAuthenticator
  apply_all [] na = na
  apply_all (op ∷ ops) na = apply op (apply_all ops na)

  -- A login that accounts for an entry of the table.
  abbrev pub Vouches : List String → String → ℕ → NostrEvent × ℕ → Type 0
  Vouches keys pubkey expires_at (e, now) =
      (e.pub_key ≡ pubkey)
      × (expires_at ≡ now + 24 * hour)
      × (check_signature e ≡ some true)
      × (is_authorized keys pubkey ≡ true)

  abbrev pub HasLoggedIn : List String → ℕ → String → NostrEvent × ℕ → Type 0
  HasLoggedIn keys t pubkey (e, now) =
      (e.pub_key ≡ pubkey)
      × (t ≤ now + 24 * hour)
      × (check_signature e ≡ some true)
      × (is_authorized keys pubkey ≡ true)

  pub record IsAccounted (keys : List String) (na : NostrAuthenticator)
      (log : List (NostrEvent × ℕ)) : Type 0 where
    pub keys_kept : na.authorized_pubkeys ≡ keys
    pub is_map : NodupKeys na.authenticated
    pub vouched :
        (pubkey : String) (u : AuthenticatedUser)
        → lookup pubkey na.authenticated ≡ some u
        → Any (Vouches keys pubkey u.expires_at) log

  IsAccounted-generate :
      (random : Option String) (now later : ℕ) (keys : List String) (na : NostrAuthenticator)
      (log : List (NostrEvent × ℕ))
      → IsAccounted keys na log
      → IsAccounted keys (generate_challenge random now later na).0 log
  unfolding generate_challenge
  IsAccounted-generate none now later keys na log h = h
  IsAccounted-generate (some c) now later keys na log h = record {
    keys_kept = h.keys_kept;
    is_map = h.is_map;
    vouched = h.vouched;
  }

  IsAccounted-drop :
      (pubkey : String) (keys : List String) (na : NostrAuthenticator) (log : List (NostrEvent × ℕ))
      → IsAccounted keys na log
      → IsAccounted keys (drop_user pubkey na) log
  unfolding drop_user
  IsAccounted-drop pubkey keys na log h = record {
    keys_kept = h.keys_kept;
    is_map = erase-NodupKeys pubkey na.authenticated h.is_map;
    vouched = λ k u e. ground (arith, lookup-erase pubkey k na.authenticated, h.vouched k u);
  }

  IsAccounted-found :
      (f : Finding) (pubkey : String) (keys : List String) (na : NostrAuthenticator)
      (log : List (NostrEvent × ℕ))
      → IsAccounted keys na log
      → IsAccounted keys (answer_found f pubkey na).0 log
  unfolding answer_found
  IsAccounted-found unknown pubkey keys na log h = h
  IsAccounted-found expired pubkey keys na log h = IsAccounted-drop pubkey keys na log h
  IsAccounted-found (valid u) pubkey keys na log h = h

  pub IsAccounted-ask :
      (now : ℕ) (pubkey : String) (keys : List String) (na : NostrAuthenticator)
      (log : List (NostrEvent × ℕ))
      → IsAccounted keys na log
      → IsAccounted keys (is_authenticated now pubkey na).0 log
  unfolding is_authenticated
  IsAccounted-ask now pubkey keys na log h =
      IsAccounted-found (find_user now pubkey na) pubkey keys na log h

  IsAccounted-clean :
      (now later : ℕ) (keys : List String) (na : NostrAuthenticator) (log : List (NostrEvent × ℕ))
      → IsAccounted keys na log
      → IsAccounted keys (cleanup now later na) log
  unfolding cleanup
  IsAccounted-clean now later keys na log h = record {
    keys_kept = h.keys_kept;
    is_map = retain-NodupKeys (user_alive later) na.authenticated h.is_map;
    vouched = λ k u e.
        ground (arith, lookup-retain (user_alive later) k na.authenticated h.is_map, h.vouched k u);
  }

  IsAccounted-login :
      (now : ℕ) (challenge : String) (e : NostrEvent) (keys : List String) (na : NostrAuthenticator)
      (log : List (NostrEvent × ℕ))
      → check_signature e ≡ some true
      → is_authorized na.authorized_pubkeys e.pub_key ≡ true
      → IsAccounted keys na log
      → IsAccounted keys (login now challenge e na) ((e, now) ∷ log)
  IsAccounted-login now challenge e keys na log signed authorized h = record {
    keys_kept = h.keys_kept;
    is_map = insert-NodupKeys e.pub_key (user_at now e.pub_key) na.authenticated h.is_map;
    vouched = λ k u found. ground (
      arith,
      lookup-insert e.pub_key k (user_at now e.pub_key) na.authenticated,
      eq_iff e.pub_key k,
      h.vouched k u,
    );
  }

  IsAccounted-of_same :
      (keys : List String) (na na' : NostrAuthenticator) (log : List (NostrEvent × ℕ))
      → na'.authenticated ≡ na.authenticated
      → na'.authorized_pubkeys ≡ na.authorized_pubkeys
      → IsAccounted keys na log
      → IsAccounted keys na' log
  IsAccounted-of_same keys na na' log same_users same_keys h = record {
    keys_kept = same_keys ∙ h.keys_kept;
    is_map = rw same_users h.is_map;
    vouched = λ k u found. h.vouched k u (rw same_users at found);
  }

  IsAccounted-verify :
      (now later : ℕ) (e : NostrEvent) (keys : List String) (na : NostrAuthenticator)
      (log : List (NostrEvent × ℕ))
      → IsAccounted keys na log
      → IsAccounted keys
          (verify_authentication check_signature now later e na).0
          (logged (verify_authentication check_signature now later e na).1 (e, now) log)
  IsAccounted-verify now later e keys na log h =
      elim (Option-cases (verify_authentication check_signature now later e na).1) [
        | inl f ↦
            let g = good_only check_signature now later e na f in
            rw (good_all check_signature now later e na g)
              (IsAccounted-login now (challenge_of e) e keys na log g.signed g.authorized h)
        | inr (err, f) ↦ rw f (
            IsAccounted-of_same keys na (verify_authentication check_signature now later e na).0 log
              (verify_authentication_refused check_signature now later e na f)
              (keys-verify_authentication check_signature now later e na) h)
      ]

  -- The log after one more operation.
  abbrev pub recorded : AuthOp → NostrAuthenticator → List (NostrEvent × ℕ) → List (NostrEvent × ℕ)
  recorded (verify now later e) na log =
      logged (verify_authentication check_signature now later e na).1 (e, now) log
  recorded (generate random now later) na log = log
  recorded (ask now pubkey) na log = log
  recorded (clean now later) na log = log

  pub IsAccounted-apply :
      (op : AuthOp) (keys : List String) (na : NostrAuthenticator) (log : List (NostrEvent × ℕ))
      → IsAccounted keys na log
      → IsAccounted keys (apply op na) (recorded op na log)
  IsAccounted-apply (generate random now later) keys na log h =
      IsAccounted-generate random now later keys na log h
  IsAccounted-apply (ask now pubkey) keys na log h = IsAccounted-ask now pubkey keys na log h
  IsAccounted-apply (clean now later) keys na log h = IsAccounted-clean now later keys na log h
  IsAccounted-apply (verify now later e) keys na log h =
      IsAccounted-verify now later e keys na log h

  -- The answers that were accepted, each with the time of its login.
  abbrev pub logins : List AuthOp → NostrAuthenticator → List (NostrEvent × ℕ)
  logins [] na = []
  logins (op ∷ ops) na = recorded op (apply_all ops na) (logins ops na)

  accounted :
      (keys : List String) (start : NostrAuthenticator)
      → IsAccounted keys start []
      → (ops : List AuthOp) → IsAccounted keys (apply_all ops start) (logins ops start)
  accounted keys start init [] = init
  accounted keys start init (op ∷ ops) =
      IsAccounted-apply op keys (apply_all ops start) (logins ops start)
        (accounted keys start init ops)

  pub Any-Vouches :
      (keys : List String) (t : ℕ) (pubkey : String) (expires_at : ℕ) (log : List (NostrEvent × ℕ))
      → t ≤ expires_at
      → Any (Vouches keys pubkey expires_at) log
      → Any (HasLoggedIn keys t pubkey) log
  Any-Vouches keys t pubkey expires_at [] alive v = elim v [ ]
  Any-Vouches keys t pubkey expires_at (x ∷ log) alive (inl v) =
      inl (v.0, omega (arith, v.1), v.2, v.3)
  Any-Vouches keys t pubkey expires_at (x ∷ log) alive (inr v) =
      inr (Any-Vouches keys t pubkey expires_at log alive v)

pub is_authenticated-lookup :
    (t : ℕ) (pubkey : String) (na : NostrAuthenticator)
    → (is_authenticated t pubkey na).1 ≡ true
    → (u : AuthenticatedUser) × ((lookup pubkey na.authenticated ≡ some u) × (t ≤ u.expires_at))
unfolding is_authenticated find_user answer_found
is_authenticated-lookup t pubkey na h = elim (Option-cases (lookup pubkey na.authenticated)) [
  | inl e ↦ ground arith
  | inr (u, e) ↦ (u, (e, ground arith))
]

pub IsAccounted-new :
    (check_signature : NostrEvent → Option Bool) (relay_url : String) (keys : List String)
    → IsAccounted check_signature keys (new_nostr_authenticator relay_url keys) []
unfolding new_nostr_authenticator lookup
IsAccounted-new check_signature relay_url keys = record {
  keys_kept = refl;
  is_map = tt;
  vouched = λ k u e. ground arith;
}

-- Starting from a new authenticator, after any operations at any times: whoever is found
-- authenticated is the author of an accepted login at most a day old, which was signed and, where
-- keys are listed, comes from a listed key.
pub is_authenticated-login :
    (check_signature : NostrEvent → Option Bool) (relay_url : String) (keys : List String)
    (ops : List AuthOp) (t : ℕ) (pubkey : String)
    → let na = new_nostr_authenticator relay_url keys in
      (is_authenticated t pubkey (apply_all check_signature ops na)).1 ≡ true
      → Any (HasLoggedIn check_signature keys t pubkey) (logins check_signature ops na)
is_authenticated-login check_signature relay_url keys ops t pubkey h =
    let na = new_nostr_authenticator relay_url keys in
    let init = IsAccounted-new check_signature relay_url keys in
    let found = is_authenticated-lookup t pubkey (apply_all check_signature ops na) h in
    Any-Vouches check_signature keys t pubkey found.0.expires_at (logins check_signature ops na)
      found.1.1 ((accounted check_signature keys na init ops).vouched pubkey found.0 found.1.0)
