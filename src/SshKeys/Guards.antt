-- ===== src/SshKeys/Guards.antt =====
-- Who can change the keys (internal/api/ssh_keys.go).
use mercury_relay.Prelude.{
  ℕ, String, str_eq, eq_iff, ◌≡◌, ◌⊎◌, inl, inr, refl, ◌∙◌, Bool, true, false, Option, none, some,
  arith, Bool-cases, not, ◌&&◌,
}
use mercury_relay.Auth.Nostr.{is_authenticated}
use mercury_relay.SshKeys.Manager.{FileSystem, Keyring, is_owner}
use mercury_relay.SshKeys.Requests.{
  Server, SshKeyRequest, authenticate_request, get_authenticated_npub, delete_request,
  handle_delete_ssh_key, handle_upload_ssh_key, upload_request, is_incomplete, is_valid_key_name,
}

-- What an upload must be.
abbrev pub is_acceptable : String → Option SshKeyRequest → Bool
is_acceptable method none = false
is_acceptable method (some req) =
    str_eq method "POST" && not (is_incomplete req) && is_valid_key_name req.name

module _ (K : Keyring) (S : FileSystem) where
  -- The keys and the files are what they were.
  pub record IsUntouched (before after : Server K S) : Type 0 where
    pub same_keys : after.key_manager ≡ before.key_manager
    pub same_files : after.files ≡ before.files

  asked-IsUntouched :
      (now : ℕ) (npub : String) (s : Server K S)
      → IsUntouched s (authenticate_request K S now npub s).0
  unfolding authenticate_request
  asked-IsUntouched now npub s = record { same_keys = ground arith; same_files = ground arith }

  owner_is_caller :
      (now : ℕ) (npub : String) (s : Server K S)
      → let (asked, owner) = get_authenticated_npub K S now npub s in
        IsUntouched s asked × ((owner ≡ "") ⊎ (owner ≡ npub))
  unfolding get_authenticated_npub
  owner_is_caller now npub s =
      (record { same_keys = ground arith; same_files = ground arith }, ground arith)

  not_owner :
      (since : ℕ) (npub key_name : String) (s : Server K S)
      → (is_owner K key_name npub s.key_manager ≡ false)
        ⊎ ((is_authenticated since npub s.nostr_auth).1 ≡ false)
      → (authenticate_request K S since npub s).1 ≡ true
      → is_owner K key_name npub (authenticate_request K S since npub s).0.key_manager ≡ false
  unfolding authenticate_request
  not_owner since npub key_name s h ok = ground arith

  delete_request-IsUntouched :
      (now later : ℕ) (npub key_name : String) (s : Server K S)
      → is_owner K key_name npub s.key_manager ≡ false
      → IsUntouched s (delete_request K S now later npub key_name s).0
  unfolding delete_request
  delete_request-IsUntouched now later npub key_name s h =
      let (untouched, caller) = owner_is_caller now npub s in
      record {
        same_keys =
            ground
              (arith, untouched.same_keys, eq_iff (get_authenticated_npub K S now npub s).1 "");
        same_files = ground (
          arith,
          untouched.same_keys,
          untouched.same_files,
          eq_iff (get_authenticated_npub K S now npub s).1 "",
        );
      }

  -- A request to delete a key changes neither the keys nor the files unless its caller is
  -- authenticated and owns the key.
  pub handle_delete_ssh_key-IsUntouched :
      (since now later : ℕ) (method npub key_name : String) (s : Server K S)
      → (is_owner K key_name npub s.key_manager ≡ false)
        ⊎ ((is_authenticated since npub s.nostr_auth).1 ≡ false)
      → IsUntouched s (handle_delete_ssh_key K S since now later method npub key_name s).0
  unfolding handle_delete_ssh_key
  handle_delete_ssh_key-IsUntouched since now later method npub key_name s h =
      let asked = authenticate_request K S since npub s in
      let same = asked-IsUntouched since npub s in
      elim (Bool-cases (str_eq method "DELETE")) [
        | inr e ↦ rw (handle_delete_ssh_key, e) (record { same_keys = refl; same_files = refl })
        | inl e ↦ elim (Bool-cases asked.1) [
          | inr f ↦ rw (handle_delete_ssh_key, e, f) same
          | inl f ↦
              let rest =
                delete_request-IsUntouched now later npub key_name asked.0
                  (not_owner since npub key_name s h f) in
              rw (handle_delete_ssh_key, e, f)
                (record {
                  same_keys = rest.same_keys ∙ same.same_keys;
                  same_files = rest.same_files ∙ same.same_files;
                })
        ]
      ]

  -- An upload changes neither the keys nor the files unless its caller is authenticated, the request
  -- is a POST whose body decodes, and it has a key and a valid name.
  pub handle_upload_ssh_key-IsUntouched :
      (since now later : ℕ) (method npub : String) (body : Option SshKeyRequest) (s : Server K S)
      → (is_acceptable method body ≡ false) ⊎ ((is_authenticated since npub s.nostr_auth).1 ≡ false)
      → IsUntouched s (handle_upload_ssh_key K S since now later method npub body s).0
  unfolding handle_upload_ssh_key authenticate_request upload_request
  handle_upload_ssh_key-IsUntouched since now later method npub body s h = record {
    same_keys = ground arith;
    same_files = ground arith;
  }
