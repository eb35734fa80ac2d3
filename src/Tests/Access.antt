-- ===== src/Tests/Access.antt =====
-- Examples for internal/access.
use mercury_relay.Prelude.{◌≡◌, ◌↔◌, ◌⊎◌, refl, true, false, some, [], ◌∷◌, Any}
use mercury_relay.Access.{
  AccessConfig, new_controller, response, unreachable, query_failed, can_write, decode_events,
  load_follow_list,
}
use mercury_relay.Access.Follows.{EventNames, can_write-load_follow_list}
use mercury_relay.Tests.Data.{stdlib, contact_list, noon}

abbrev config : AccessConfig
config = record { admin_npubs = "alice" ∷ []; allow_public_read = true; allow_public_write = false }

decoded : decode_events stdlib "contacts" ≡ some (contact_list ∷ [])
unfolding decode_events
decoded = refl

can_write-load_follow_list_example :
    (can_write
        (load_follow_list stdlib (response 200 "contacts") noon (new_controller config)).0
        "bob"
      ≡ true)
    ↔ (("bob" ≡ (new_controller config).owner_npub)
        ⊎ ((new_controller config).config.allow_public_write ≡ true)
        ⊎ Any (EventNames "bob") (contact_list ∷ []))
can_write-load_follow_list_example =
    can_write-load_follow_list stdlib "contacts" noon (new_controller config) "bob"
      (contact_list ∷ []) decoded

failed : (load_follow_list stdlib unreachable noon (new_controller config)).1 ≡ some query_failed
unfolding load_follow_list
failed = refl
