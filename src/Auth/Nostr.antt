-- ===== src/Auth/Nostr.antt =====
-- internal/auth/nostr.go: challenges, and who has answered one. Every reading of the clock is an
-- argument; the random bytes and the check of a signature are the libraries'.
pub mod Login
pub mod Reach
pub mod Race
use mercury_relay.Prelude.{
  ℕ, ◌+◌, ◌*◌, String, str_eq, Bool, true, false, not, ◌&&◌, ◌||◌, Option, none, some, List, [],
  ◌∷◌, ltb, leb, ltb_ℤ, eq_ℤ, shift, pos, elem, Dict, lookup, insert, erase, retain, if◌then◌else◌,
}
use mercury_relay.Models.Event.{Tags, NostrEvent, unix_time, minute, hour}

pub record Challenge : Type 0 where
  pub challenge : String
  pub created_at : ℕ
  pub expires_at : ℕ

pub record AuthenticatedUser : Type 0 where
  pub pubkey : String
  pub authenticated_at : ℕ
  pub expires_at : ℕ

pub record NostrAuthenticator : Type 0 where
  pub challenges : Dict Challenge
  pub authenticated : Dict AuthenticatedUser
  pub relay_url : String
  pub authorized_pubkeys : List String

pub data AuthError : Type 0 where
  random_failed invalid_kind event_too_old missing_challenge missing_relay : AuthError
  invalid_challenge challenge_expired relay_mismatch invalid_signature not_authorized : AuthError

unfoldable pub new_nostr_authenticator : String → List String → NostrAuthenticator
new_nostr_authenticator relay_url authorized_pubkeys = record {
  challenges = [];
  authenticated = [];
  relay_url = relay_url;
  authorized_pubkeys = authorized_pubkeys;
}

-- `now.After(expiresAt)` is false.
abbrev pub challenge_alive : ℕ → Challenge → Bool
challenge_alive now c = leb now c.expires_at

abbrev pub user_alive : ℕ → AuthenticatedUser → Bool
user_alive now u = leb now u.expires_at

unfoldable pub cleanup_expired_challenges : ℕ → NostrAuthenticator → NostrAuthenticator
cleanup_expired_challenges now na = record na {
  challenges = retain (challenge_alive now) na.challenges;
}

unfoldable pub cleanup_expired_authentications : ℕ → NostrAuthenticator → NostrAuthenticator
cleanup_expired_authentications now na = record na {
  authenticated = retain (user_alive now) na.authenticated;
}

unfoldable pub cleanup : ℕ → ℕ → NostrAuthenticator → NostrAuthenticator
unfolding cleanup_expired_challenges cleanup_expired_authentications
cleanup now later na = cleanup_expired_authentications later (cleanup_expired_challenges now na)

-- `GenerateChallenge`, with the hexadecimal of the random bytes, or none where `rand.Read` fails.
unfoldable pub generate_challenge :
    Option String → ℕ → ℕ → NostrAuthenticator → NostrAuthenticator × Option String
unfolding cleanup_expired_challenges
generate_challenge none now later na = (na, none)
generate_challenge (some challenge) now later na =
    let c : Challenge = record {
      challenge = challenge;
      created_at = now;
      expires_at = now + 10 * minute;
    } in
    let stored : NostrAuthenticator = record na { challenges = insert challenge c na.challenges } in
    (cleanup_expired_challenges later stored, some challenge)

-- The loop over the tags: the last "challenge" and the last "relay" with a value count.
unfoldable pub find_tag : String → Tags → String → String
find_tag name [] found = found
find_tag name ((t ∷ v ∷ more) ∷ tags) found =
    find_tag name tags (if str_eq t name then v else found)
find_tag name (_ ∷ tags) found = find_tag name tags found

abbrev pub challenge_of : NostrEvent → String
challenge_of e = find_tag "challenge" e.tags ""

abbrev pub relay_of : NostrEvent → String
relay_of e = find_tag "relay" e.tags ""

-- An empty list of authorised keys lets everybody in.
unfoldable pub is_authorized : List String → String → Bool
is_authorized [] pubkey = true
is_authorized (k ∷ ks) pubkey = elem pubkey (k ∷ ks)

abbrev pub user_at : ℕ → String → AuthenticatedUser
user_at now pubkey = record {
  pubkey = pubkey;
  authenticated_at = now;
  expires_at = now + 24 * hour;
}

abbrev pub login : ℕ → String → NostrEvent → NostrAuthenticator → NostrAuthenticator
login now challenge e na = record na {
  authenticated = insert e.pub_key (user_at now e.pub_key) na.authenticated;
  challenges = erase challenge na.challenges;
}

-- `event.CheckSignature` of go-nostr: none is an error.
module _ (check_signature : NostrEvent → Option Bool) where
  -- The tests after the challenge was found.
  unfoldable pub verify_answer :
      ℕ → ℕ → NostrEvent → Challenge → NostrAuthenticator → NostrAuthenticator × Option AuthError
  unfolding is_authorized
  verify_answer now later e c na =
      let challenge = challenge_of e in
      if not (challenge_alive later c)
      then (record na { challenges = erase challenge na.challenges }, some challenge_expired)
      else if not (str_eq (relay_of e) na.relay_url)
      then (na, some relay_mismatch)
      else elim (check_signature e) [
        | none ↦ (na, some invalid_signature)
        | some false ↦ (na, some invalid_signature)
        | some true ↦
            if is_authorized na.authorized_pubkeys e.pub_key
            then (login now challenge e na, none)
            else (na, some not_authorized)
      ]

  -- `VerifyAuthentication`; the clock is read first, and again for the challenge.
  unfoldable pub verify_authentication :
      ℕ → ℕ → NostrEvent → NostrAuthenticator → NostrAuthenticator × Option AuthError
  unfolding verify_answer
  verify_authentication now later e na =
      if not (eq_ℤ e.kind (pos 22242))
      then (na, some invalid_kind)
      else if ltb_ℤ (shift (10 * minute) (unix_time e.created_at)) (pos now)
      then (na, some event_too_old)
      else if str_eq (challenge_of e) ""
      then (na, some missing_challenge)
      else if str_eq (relay_of e) ""
      then (na, some missing_relay)
      else elim (lookup (challenge_of e) na.challenges) [
        | none ↦ (na, some invalid_challenge)
        | some c ↦ verify_answer now later e c na
      ]

-- What `IsAuthenticated` finds under the read lock.
pub data Finding : Type 0 where
  unknown expired : Finding
  valid : AuthenticatedUser → Finding

unfoldable pub find_user : ℕ → String → NostrAuthenticator → Finding
find_user now pubkey na = elim (lookup pubkey na.authenticated) [
  | none ↦ unknown
  | some user ↦ if user_alive now user then valid user else expired
]

-- What it does under the write lock that it takes afterwards, where the entry has expired.
unfoldable pub drop_user : String → NostrAuthenticator → NostrAuthenticator
drop_user pubkey na = record na { authenticated = erase pubkey na.authenticated }

-- `GetAuthenticatedUser`, with nobody between its two locks.
unfoldable pub get_authenticated_user :
    ℕ → String → NostrAuthenticator → NostrAuthenticator × Option AuthenticatedUser
unfolding find_user drop_user
get_authenticated_user now pubkey na = elim (find_user now pubkey na) [
  | unknown ↦ (na, none)
  | expired ↦ (drop_user pubkey na, none)
  | valid user ↦ (na, some user)
]

-- `IsAuthenticated`, likewise.
unfoldable pub answer_found : Finding → String → NostrAuthenticator → NostrAuthenticator × Bool
unfolding drop_user
answer_found unknown pubkey na = (na, false)
answer_found expired pubkey na = (drop_user pubkey na, false)
answer_found (valid user) pubkey na = (na, true)

unfoldable pub is_authenticated : ℕ → String → NostrAuthenticator → NostrAuthenticator × Bool
unfolding find_user answer_found
is_authenticated now pubkey na = answer_found (find_user now pubkey na) pubkey na
