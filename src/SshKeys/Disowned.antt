-- ===== src/SshKeys/Disowned.antt =====
-- What listing keys does to their owners (internal/api/ssh_keys.go, internal/transport/ssh.go).
use mercury_relay.Prelude.{ℕ, String, ◌≡◌, ◌≢◌, inl, Bool, true, false, some, List, Any, arith}
use mercury_relay.SshKeys.Manager.{FileSystem, Keyring, is_owner, initialize}
use mercury_relay.SshKeys.Ownership.{IsFileOf, IsLoadable, is_owner-initialize}
use mercury_relay.SshKeys.Requests.{
  Server, authenticate_request, get_authenticated_npub, initialized, handle_list_ssh_keys,
  handle_delete_ssh_key,
}
use mercury_relay.SshKeys.Guards.{IsUntouched, handle_delete_ssh_key-IsUntouched}

module _ (K : Keyring) (S : FileSystem) where
  listed_manager :
      (since now later : ℕ) (caller : String) (s : Server K S)
      → (authenticate_request K S since caller s).1 ≡ true
      → (handle_list_ssh_keys K S since now later "GET" caller s).0.key_manager
        ≡ (initialize K S now s.files s.key_manager).1
  unfolding handle_list_ssh_keys authenticate_request initialized get_authenticated_npub
  listed_manager since now later caller s ok = ground arith

  -- After any authenticated user has asked for a list of keys, a key whose file the manager can read
  -- belongs to nobody: whoever had uploaded it is no longer its owner, and a DELETE of theirs leaves
  -- the keys and the files as they are.
  pub is_owner-handle_list_ssh_keys :
      (since now later : ℕ) (caller name npub : String) (s : Server K S)
      (entries : List (String × Bool))
      → (authenticate_request K S since caller s).1 ≡ true
      → (S.mkdir_all s.key_manager.config.key_dir s.files).1 ≡ true
      → S.read_dir s.key_manager.config.key_dir (S.mkdir_all s.key_manager.config.key_dir s.files).0
        ≡ some entries
      → Any (IsFileOf K S s.key_manager.config name) entries
      → IsLoadable K S s.key_manager.config
          (S.mkdir_all s.key_manager.config.key_dir s.files).0
          name
      → npub ≢ ""
      → let after = (handle_list_ssh_keys K S since now later "GET" caller s).0 in
        (is_owner K name npub after.key_manager ≡ false)
        × ((t u v : ℕ)
            → IsUntouched K S after (handle_delete_ssh_key K S t u v "DELETE" npub name after).0)
  is_owner-handle_list_ssh_keys since now later caller name npub s entries ok made read file l
        named =
      let after = (handle_list_ssh_keys K S since now later "GET" caller s).0 in
      let lost : is_owner K name npub after.key_manager ≡ false =
        rw (listed_manager since now later caller s ok) (
          is_owner-initialize K S now name npub s.files s.key_manager entries made read file l
            named) in
      (
        lost,
        λ t u v. handle_delete_ssh_key-IsUntouched K S t u v "DELETE" npub name after (inl lost),
      )
