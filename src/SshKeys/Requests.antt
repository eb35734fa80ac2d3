-- ===== src/SshKeys/Requests.antt =====
-- internal/api/ssh_keys.go: the endpoints of the keys. A request is its method, its X-Nostr-Pubkey
-- header and its decoded body; a reply is an error, or what is sent back.
use Prim.Native.Char.{code}
use mercury_relay.Prelude.{
  ℕ, String, len, str_eq, Bool, true, false, not, ◌&&◌, ◌||◌, ◌⊎◌, inl, inr, Option, none, some,
  List, ltb, leb, ◌==◌, if◌then◌else◌,
}
use mercury_relay.Models.Event.{NostrEvent}
use mercury_relay.Config.Settings.{SshConfig}
use mercury_relay.Auth.Nostr.{
  NostrAuthenticator, AuthError, new_nostr_authenticator, is_authenticated, generate_challenge,
  verify_authentication,
}
use mercury_relay.SshKeys.Manager.{
  FileSystem, Keyring, SshKeyManager, SshKeyInfo, new_ssh_key_manager, list_keys_by_owner, is_owner,
  initialize, save_key, remove_key,
}

pub record SshKeyRequest : Type 0 where
  pub name : String
  pub private_key : String
  pub public_key : String

abbrev pub is_incomplete : SshKeyRequest → Bool
is_incomplete req = str_eq req.name "" || str_eq req.private_key ""

pub data KeysError : Type 0 where
  method_not_allowed unauthorized invalid_json name_and_key_required : KeysError
  invalid_key_name initialize_failed authentication_required save_failed : KeysError
  key_name_required not_your_key remove_failed parse_form_failed : KeysError
  challenge_failed invalid_event : KeysError

pub data FormReply : Type 0 where
  login_page form_page nothing : FormReply
  uploaded : KeysError ⊎ String → FormReply

is_name_char : ℕ → Bool
is_name_char c =
    leb 97 c && leb c 122 || leb 65 c && leb c 90 || leb 48 c && leb c 57 || c == 45 || c == 95

-- Every character is a letter, a digit, a hyphen or an underscore.
unfoldable pub all_name_chars : String → Bool
unfolding is_name_char
all_name_chars String.[] = true
all_name_chars (String.◌∷◌ c s) =
    let rest = all_name_chars s in if is_name_char (code c) then rest else false

-- `isValidKeyName`; a name of such characters has as many bytes as characters.
unfoldable pub is_valid_key_name : String → Bool
unfolding all_name_chars
is_valid_key_name name = if str_eq name "" || ltb 50 (len name) then false else all_name_chars name

module _ (K : Keyring) (S : FileSystem) where
  -- The `SSHKeyManager` of the interface, with the files.
  pub record Server : Type 0 where
    pub config : SshConfig
    pub key_manager : SshKeyManager K
    pub nostr_auth : NostrAuthenticator
    pub files : S.State

  unfoldable pub new_server : SshConfig → String → S.State → Server
  new_server config relay_url files = record {
    config = config;
    key_manager = new_ssh_key_manager K config.key_storage;
    nostr_auth = new_nostr_authenticator relay_url config.authentication.authorized_pubkeys;
    files = files;
  }

  unfoldable pub authenticate_request : ℕ → String → Server → Server × Bool
  authenticate_request now npub s =
      if not s.config.enabled
      then (s, false)
      else if str_eq npub ""
      then (s, false)
      else (let (na, authenticated) = is_authenticated now npub s.nostr_auth in
          (record s { nostr_auth = na }, authenticated))

  unfoldable pub get_authenticated_npub : ℕ → String → Server → Server × String
  get_authenticated_npub now npub s =
      if str_eq npub ""
      then (s, "")
      else (let (na, authenticated) = is_authenticated now npub s.nostr_auth in
          (record s { nostr_auth = na }, if authenticated then npub else ""))

  -- The directory is read again, which may fail half-way.
  unfoldable pub initialized : ℕ → Server → Server × Bool
  initialized now s =
      let (files, km, failure) = initialize K S now s.files s.key_manager in
      (
        record s { files = files; key_manager = km },
        elim failure [ none ↦ true | some err ↦ false ],
      )

  -- `SaveKey` for the owner, at the end of both uploads.
  unfoldable pub save_for : ℕ → SshKeyRequest → String → Server → Server × (KeysError ⊎ String)
  save_for now req owner s =
      let (files, km, failure) =
        save_key K S now req.name req.private_key req.public_key owner s.files s.key_manager in
      (
        record s { files = files; key_manager = km },
        elim failure [ none ↦ inr req.name | some err ↦ inl save_failed ],
      )

  -- The steps of both uploads from `Initialize` on: the clock of the keys and of the second look at
  -- the caller.
  unfoldable pub upload_valid :
      ℕ → ℕ → String → SshKeyRequest → Server → Server × (KeysError ⊎ String)
  unfolding initialized get_authenticated_npub save_for
  upload_valid now later npub req s =
      let (ready, ok) = initialized now s in
      if ok
      then (let (asked, owner) = get_authenticated_npub later npub ready in
          if str_eq owner ""
          then (asked, inl authentication_required)
          else save_for now req owner asked)
      else (ready, inl initialize_failed)

  unfoldable pub upload_request :
      ℕ → ℕ → String → Option SshKeyRequest → Server → Server × (KeysError ⊎ String)
  unfolding upload_valid is_valid_key_name
  upload_request now later npub none s = (s, inl invalid_json)
  upload_request now later npub (some req) s =
      if is_incomplete req
      then (s, inl name_and_key_required)
      else if not (is_valid_key_name req.name)
      then (s, inl invalid_key_name)
      else upload_valid now later npub req s

  -- `HandleUploadSSHKey`
  unfoldable pub handle_upload_ssh_key :
      ℕ → ℕ → ℕ → String → String → Option SshKeyRequest → Server → Server × (KeysError ⊎ String)
  unfolding authenticate_request upload_request
  handle_upload_ssh_key since now later method npub body s =
      if not (str_eq method "POST")
      then (s, inl method_not_allowed)
      else (let (asked, ok) = authenticate_request since npub s in
          if ok then upload_request now later npub body asked else (asked, inl unauthorized))

  -- The POST of `HandleSSHKeyForm`, which does not look at the characters of the name.
  unfoldable pub upload_form :
      ℕ → ℕ → String → Option SshKeyRequest → Server → Server × (KeysError ⊎ String)
  unfolding upload_valid
  upload_form now later npub none s = (s, inl parse_form_failed)
  upload_form now later npub (some req) s =
      if is_incomplete req
      then (s, inl name_and_key_required)
      else upload_valid now later npub req s

  -- `HandleSSHKeyForm`: a page, an upload's reply, or nothing at all.
  unfoldable pub handle_ssh_key_form :
      ℕ → ℕ → ℕ → String → String → Option SshKeyRequest → Server → Server × FormReply
  unfolding authenticate_request upload_form
  handle_ssh_key_form since now later method npub body s =
      let (asked, ok) = authenticate_request since npub s in
      if not ok
      then (asked, login_page)
      else if str_eq method "GET"
      then (asked, form_page)
      else if str_eq method "POST"
      then (let (after, reply) = upload_form now later npub body asked in (after, uploaded reply))
      else (asked, nothing)

  unfoldable pub handle_list_ssh_keys :
      ℕ → ℕ → ℕ → String → String → Server → Server × (KeysError ⊎ List (SshKeyInfo K))
  unfolding authenticate_request initialized get_authenticated_npub
  handle_list_ssh_keys since now later method npub s =
      if not (str_eq method "GET")
      then (s, inl method_not_allowed)
      else (let (asked, ok) = authenticate_request since npub s in
          if not ok
          then (asked, inl unauthorized)
          else let (ready, ok) = initialized now asked in
            if not ok
            then (ready, inl initialize_failed)
            else let (seen, owner) = get_authenticated_npub later npub ready in
              if str_eq owner ""
              then (seen, inl authentication_required)
              else (seen, inr (list_keys_by_owner K owner seen.key_manager)))

  -- The end of `HandleDeleteSSHKey`, for the owner of the key.
  unfoldable pub delete_owned : ℕ → String → Server → Server × (KeysError ⊎ String)
  unfolding initialized
  delete_owned now key_name s =
      let (ready, ok) = initialized now s in
      if ok
      then (let (files, km, failure) = remove_key K S key_name ready.files ready.key_manager in
          (
            record ready { files = files; key_manager = km },
            elim failure [ none ↦ inr key_name | some err ↦ inl remove_failed ],
          ))
      else (ready, inl initialize_failed)

  unfoldable pub delete_request : ℕ → ℕ → String → String → Server → Server × (KeysError ⊎ String)
  unfolding get_authenticated_npub delete_owned
  delete_request now later npub key_name s =
      if str_eq key_name ""
      then (s, inl key_name_required)
      else (let (asked, owner) = get_authenticated_npub now npub s in
          if str_eq owner ""
          then (asked, inl authentication_required)
          else if not (is_owner K key_name owner asked.key_manager)
          then (asked, inl not_your_key)
          else delete_owned later key_name asked)

  unfoldable pub handle_delete_ssh_key :
      ℕ → ℕ → ℕ → String → String → String → Server → Server × (KeysError ⊎ String)
  unfolding authenticate_request delete_request
  handle_delete_ssh_key since now later method npub key_name s =
      if not (str_eq method "DELETE")
      then (s, inl method_not_allowed)
      else (let (asked, ok) = authenticate_request since npub s in
          if ok then delete_request now later npub key_name asked else (asked, inl unauthorized))

  -- `HandleNostrChallenge`, with the random challenge.
  unfoldable pub handle_nostr_challenge :
      Option String → ℕ → ℕ → String → Server → Server × (KeysError ⊎ String)
  handle_nostr_challenge random now later method s =
      if not (str_eq method "GET")
      then (s, inl method_not_allowed)
      else (let (na, challenge) = generate_challenge random now later s.nostr_auth in
          (
            record s { nostr_auth = na },
            elim challenge [ none ↦ inl challenge_failed | some text ↦ inr text ],
          ))

  -- `HandleNostrAuth`, with the event of the body, or the error of its decoding; a refused answer is
  -- a reply.
  unfoldable pub handle_nostr_auth :
      (NostrEvent → Option Bool)
      → ℕ
      → ℕ
      → String
      → KeysError ⊎ NostrEvent
      → Server
      → Server × (KeysError ⊎ Option AuthError)
  handle_nostr_auth check now later method body s =
      if not (str_eq method "POST") then (s, inl method_not_allowed) else elim body [
        | inl err ↦ (s, inl err)
        | inr e ↦
            let (na, failure) = verify_authentication check now later e s.nostr_auth in
            (record s { nostr_auth = na }, inr failure)
      ]
