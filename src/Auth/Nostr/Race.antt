-- ===== src/Auth/Nostr/Race.antt =====
-- What runs between the two locks of `IsAuthenticated` (internal/auth/nostr.go).
use mercury_relay.Prelude.{ℕ, String, eq_refl, ◌≡◌, Bool, false, Option, List, arith, lookup-erase}
use mercury_relay.Models.Event.{NostrEvent}
use mercury_relay.Auth.Nostr.{
  NostrAuthenticator, expired, find_user, answer_found, drop_user, is_authenticated,
}
use mercury_relay.Auth.Nostr.Reach.{AuthOp, apply_all}

module _ (check_signature : NostrEvent → Option Bool) where
  -- A call of `IsAuthenticated` that has found an expired entry and released the read lock logs its
  -- user out: whatever runs before it takes the write lock, a new login of that user included, the
  -- user is not authenticated afterwards, and the call answers no.
  pub is_authenticated-answer_found :
      (t u : ℕ) (pubkey : String) (between : List AuthOp) (na : NostrAuthenticator)
      → find_user t pubkey na ≡ expired
      → ((answer_found (find_user t pubkey na) pubkey (apply_all check_signature between na)).1
          ≡ false)
        × ((is_authenticated u pubkey
              (answer_found
                (find_user t pubkey na)
                pubkey
                (apply_all check_signature between na)).0).1
            ≡ false)
  unfolding is_authenticated answer_found drop_user
  is_authenticated-answer_found t u pubkey between na seen = rw seen (
      ground (
        arith,
        lookup-erase pubkey pubkey (apply_all check_signature between na).authenticated,
        eq_refl pubkey,
      ))
