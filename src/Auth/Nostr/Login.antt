-- ===== src/Auth/Nostr/Login.antt =====
-- When a NIP-42 answer is accepted (internal/auth/nostr.go), and what it leaves.
use mercury_relay.Prelude.{
  ℕ, ◌+◌, ◌*◌, ◌≤◌, String, eq_iff, eq_refl, ◌≡◌, ap, ◌≢◌, ◌↔◌, Bool, true, Option, none, some,
  arith, leb, pos, shift, ◌≤ℤ◌, lookup, lookup-insert, lookup-erase, Option-cases, inl, inr,
}
use mercury_relay.Models.Event.{NostrEvent, unix_time, minute, hour}
use mercury_relay.Auth.Nostr.{
  Challenge, NostrAuthenticator, AuthError, challenge_of, relay_of, is_authorized, user_at, login,
  verify_authentication, is_authenticated,
}

module _ (check_signature : NostrEvent → Option Bool) (now later : ℕ) (e : NostrEvent)
    (na : NostrAuthenticator) where
  -- Every condition on an answer.
  pub record IsGoodAnswer : Type 0 where
    pub kind : e.kind ≡ pos 22242
    pub recent : pos now ≤ℤ shift (10 * minute) (unix_time e.created_at)
    pub has_challenge : challenge_of e ≢ ""
    pub has_relay : relay_of e ≢ ""
    pub challenge : Challenge
    pub issued : lookup (challenge_of e) na.challenges ≡ some challenge
    pub alive : later ≤ challenge.expires_at
    pub relay : relay_of e ≡ na.relay_url
    pub signed : check_signature e ≡ some true
    pub authorized : is_authorized na.authorized_pubkeys e.pub_key ≡ true

  pub good_only : (verify_authentication check_signature now later e na).1 ≡ none → IsGoodAnswer
  unfolding verify_authentication
  good_only h = elim (Option-cases (lookup (challenge_of e) na.challenges)) [
    | inl f ↦ ground arith
    | inr (c, f) ↦ record {
      kind = ground arith;
      recent = ground arith;
      has_challenge = ground (arith, eq_iff (challenge_of e) "");
      has_relay = ground (arith, eq_iff (relay_of e) "");
      challenge = c;
      issued = f;
      alive = ground arith;
      relay = ground (arith, eq_iff (relay_of e) na.relay_url);
      signed = ground arith;
      authorized = ground arith;
    }
  ]

  -- A good answer is accepted, logs its author in for a day and uses its challenge up.
  pub good_all :
      IsGoodAnswer
      → verify_authentication check_signature now later e na
        ≡ (login now (challenge_of e) e na, none)
  unfolding verify_authentication
  good_all g =
      ground (
        arith,
        eq_iff (challenge_of e) "",
        eq_iff (relay_of e) "",
        eq_iff (relay_of e) na.relay_url,
      )

  -- An answer is accepted exactly if it is of kind 22242, at most ten minutes old, names a
  -- challenge that was issued and is alive, names this relay, is signed, and comes from an
  -- authorised key.
  pub verify_authentication_iff :
      ((verify_authentication check_signature now later e na).1 ≡ none) ↔ IsGoodAnswer
  verify_authentication_iff = (good_only, λ g. ap (λ r. r.1) (good_all g))

  -- An accepted answer authenticates its author until a day after, and not longer.
  pub is_authenticated-verify_authentication :
      (verify_authentication check_signature now later e na).1 ≡ none
      → (t : ℕ)
      → (is_authenticated t e.pub_key (verify_authentication check_signature now later e na).0).1
        ≡ leb t (now + 24 * hour)
  unfolding is_authenticated
  is_authenticated-verify_authentication h t = rw (good_all (good_only h)) (
      ground (
        arith,
        lookup-insert e.pub_key e.pub_key (user_at now e.pub_key) na.authenticated,
        eq_refl e.pub_key,
      ))

  pub keys-verify_authentication :
      (verify_authentication check_signature now later e na).0.authorized_pubkeys
      ≡ na.authorized_pubkeys
  unfolding verify_authentication
  keys-verify_authentication = ground arith

  -- A refused answer changes nobody's authentication.
  pub verify_authentication_refused :
      {err : AuthError}
      → (verify_authentication check_signature now later e na).1 ≡ some err
      → (verify_authentication check_signature now later e na).0.authenticated ≡ na.authenticated
  unfolding verify_authentication
  verify_authentication_refused h = ground arith

erased :
    (now : ℕ) (challenge : String) (e : NostrEvent) (na : NostrAuthenticator) (c : Challenge)
    → lookup challenge (login now challenge e na).challenges ≢ some c
erased now challenge e na c h =
    ground (arith, lookup-erase challenge challenge na.challenges, eq_refl challenge)

-- A challenge is good for one login: after an answer to it was accepted, no answer to it is, the
-- same one or another, at whatever time.
pub verify_authentication_once :
    (check_signature : NostrEvent → Option Bool) (now later now' later' : ℕ) (e e' : NostrEvent)
    (na : NostrAuthenticator)
    → (verify_authentication check_signature now later e na).1 ≡ none
    → challenge_of e' ≡ challenge_of e
    → (verify_authentication check_signature now' later' e'
        (verify_authentication check_signature now later e na).0).1
      ≢ none
verify_authentication_once check_signature now later now' later' e e' na h same accepted =
    let after = login now (challenge_of e) e na in
    let g = good_only check_signature now' later' e' after (
      rw (good_all check_signature now later e na (good_only check_signature now later e na h)) at
        accepted) in
    erased now (challenge_of e) e na g.challenge (rw same at g.issued)
