-- ===== src/Tests/Auth.antt =====
-- Examples for internal/auth.
use mercury_relay.Prelude.{
  ◌≡◌, ◌≢◌, ◌↔◌, refl, true, false, not, ◌&&◌, str_eq, elem, none, some, List, [], ◌∷◌, Any, lookup,
  insert, erase, retain,
}
use mercury_relay.Models.Event.{NostrEvent}
use mercury_relay.Auth.Nostr.{
  NostrAuthenticator, invalid_signature, new_nostr_authenticator, generate_challenge,
  verify_authentication, is_authenticated, find_tag, find_user, answer_found, expired,
}
use mercury_relay.Auth.Nostr.Login.{
  IsGoodAnswer, verify_authentication_iff, verify_authentication_once,
}
use mercury_relay.Auth.Nostr.Reach.{
  AuthOp, generate, verify, apply_all, logins, HasLoggedIn, is_authenticated-login,
}
use mercury_relay.Auth.Nostr.Race.{is_authenticated-answer_found}
use mercury_relay.Auth.Universal.{new_universal_authenticator, authenticate_request}
use mercury_relay.Auth.Universal.Reach.{UniversalOp, add, apply_ops, authenticate_request_iff_admin}
use mercury_relay.Tests.Data.{auth_answer, check_signature, noon, stdlib}

-- An authenticator that has issued the challenge "c".
abbrev challenged : NostrAuthenticator
challenged = (generate_challenge (some "c") noon noon (new_nostr_authenticator "wss://relay" [])).0

accepted : (verify_authentication check_signature noon noon auth_answer challenged).1 ≡ none
unfolding verify_authentication generate_challenge new_nostr_authenticator find_tag lookup insert
    retain
accepted = refl

verify_authentication_iff_example :
    ((verify_authentication check_signature noon noon auth_answer challenged).1 ≡ none)
    ↔ IsGoodAnswer check_signature noon noon auth_answer challenged
verify_authentication_iff_example =
    verify_authentication_iff check_signature noon noon auth_answer challenged

verify_authentication_once_example :
    (verify_authentication check_signature noon noon auth_answer
      (verify_authentication check_signature noon noon auth_answer challenged).0).1
    ≢ none
verify_authentication_once_example =
    verify_authentication_once check_signature noon noon noon noon auth_answer auth_answer
      challenged accepted refl

abbrev forged : NostrEvent
forged = record auth_answer { sig = "bad" }

rejected :
    (verify_authentication check_signature noon noon forged challenged).1 ≡ some invalid_signature
unfolding verify_authentication generate_challenge new_nostr_authenticator find_tag lookup insert
    retain
rejected = refl

-- A challenge and its answer.
abbrev login_ops : List AuthOp
login_ops = verify noon noon auth_answer ∷ generate (some "c") noon noon ∷ []

logged_in :
    (is_authenticated noon "alice"
      (apply_all check_signature login_ops (new_nostr_authenticator "wss://relay" []))).1
    ≡ true
unfolding is_authenticated verify_authentication generate_challenge new_nostr_authenticator find_tag
    lookup insert retain erase
logged_in = refl

is_authenticated-login_example :
    Any
      (HasLoggedIn check_signature [] noon "alice")
      (logins check_signature login_ops (new_nostr_authenticator "wss://relay" []))
is_authenticated-login_example =
    is_authenticated-login check_signature "wss://relay" [] login_ops noon "alice" logged_in

-- Alice's entry has expired; between the two locks she logs in again.
abbrev stale : NostrAuthenticator
stale = record challenged {
  authenticated = ("alice", record { pubkey = "alice"; authenticated_at = 0; expires_at = 1 }) ∷ [];
}

abbrev again : List AuthOp
again = verify noon noon auth_answer ∷ []

seen_expired : find_user noon "alice" stale ≡ expired
unfolding find_user lookup
seen_expired = refl

logged_in_again : (is_authenticated noon "alice" (apply_all check_signature again stale)).1 ≡ true
unfolding is_authenticated verify_authentication generate_challenge new_nostr_authenticator find_tag
    lookup insert retain erase
logged_in_again = refl

is_authenticated-answer_found_example :
    ((answer_found (find_user noon "alice" stale) "alice" (apply_all check_signature again stale)).1
      ≡ false)
    × ((is_authenticated noon "alice"
          (answer_found
            (find_user noon "alice" stale)
            "alice"
            (apply_all check_signature again stale)).0).1
        ≡ false)
is_authenticated-answer_found_example =
    is_authenticated-answer_found check_signature noon noon "alice" again stale seen_expired

-- The admin puts bob on the whitelist.
abbrev whitelist_ops : List UniversalOp
whitelist_ops = add "alice" "bob" ∷ []

authenticate_request_iff_admin_example :
    (authenticate_request stdlib noon noon noon "bob" (
      apply_ops stdlib check_signature whitelist_ops
        (new_universal_authenticator ("alice" ∷ []) "wss://relay"))).1
    ≡ (not (str_eq "bob" "") && elem "bob" ("alice" ∷ []))
authenticate_request_iff_admin_example =
    authenticate_request_iff_admin stdlib check_signature "alice" [] "wss://relay" whitelist_ops
      noon noon noon "bob"
