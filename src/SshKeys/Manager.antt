-- ===== src/SshKeys/Manager.antt =====
-- The key manager of internal/transport/ssh.go, over the file system and the libraries for keys.
use mercury_relay.Prelude.{
  ℕ, String, ◌<>◌, str_eq, Bool, true, false, ◌⊎◌, inl, inr, Option, none, some, List, [], ◌∷◌,
  Dict, lookup, insert, erase, if◌then◌else◌,
}
use mercury_relay.Config.Settings.{SshKeyStorage}

-- The calls of os and path/filepath. A failure is `false` or `none`.
pub record FileSystem : Type 1 where
  pub State : Type 0
  pub mkdir_all : String → State → State × Bool
  -- The names of a directory, and whether they are directories.
  pub read_dir : String → State → Option (List (String × Bool))
  pub read_file : String → State → Option String
  pub write_file : String → String → State → State × Bool
  -- `os.Remove`, where a file that does not exist counts as removed.
  pub remove : String → State → State × Bool
  pub join : String → String → String
  pub ext : String → String
  -- `filename[:len(filename)-len(ext)]`
  pub drop_end : String → String → String

-- crypto/rsa, crypto/x509, encoding/pem and golang.org/x/crypto/ssh; `none` is an error.
pub record Keyring : Type 1 where
  pub Private : Type 0
  pub Public : Type 0
  pub decode_pkcs1 : String → Option Private  -- pem.Decode, x509.ParsePKCS1PrivateKey
  pub decode_pkcs8 : String → Option Private  -- pem.Decode, x509.ParsePKCS8PrivateKey, RSA only
  pub encode_pkcs1 : Private → String
  pub public_of : Private → Option Public
  pub parse_public : String → Option Public
  pub marshal_public : Public → String

module _ (K : Keyring) where
  open K use {Private, Public}

  pub record SshKey : Type 0 where
    pub name : String
    pub private_key : Private
    pub public_key : Public
    pub created_at : ℕ
    pub comment : String
    pub owner_npub : String

  pub record SshKeyManager : Type 0 where
    pub config : SshKeyStorage
    pub keys : Dict SshKey

  -- `SSHKeyInfo`, without the type, which is always "rsa", and with the time as it is.
  pub record SshKeyInfo : Type 0 where
    pub name : String
    pub created_at : ℕ
    pub comment : String
    pub owner_npub : String

  unfoldable pub new_ssh_key_manager : SshKeyStorage → SshKeyManager
  new_ssh_key_manager config = record { config = config; keys = [] }

  -- `parsePrivateKey`
  unfoldable pub parse_private_key : String → Option Private
  parse_private_key text = elim (K.decode_pkcs1 text) [
    | some key ↦ some key
    | none ↦ K.decode_pkcs8 text
  ]

  abbrev pub info_of : SshKey → SshKeyInfo
  info_of key = record {
    name = key.name;
    created_at = key.created_at;
    comment = key.comment;
    owner_npub = key.owner_npub;
  }

  unfoldable pub get_key : String → SshKeyManager → Option SshKey
  get_key name km = lookup name km.keys

  unfoldable pub infos : Dict SshKey → List SshKeyInfo
  infos [] = []
  infos ((_, key) ∷ keys) = info_of key ∷ infos keys

  unfoldable pub list_keys : SshKeyManager → List SshKeyInfo
  unfolding infos
  list_keys km = infos km.keys

  unfoldable pub infos_of_owner : String → Dict SshKey → List SshKeyInfo
  infos_of_owner owner_npub [] = []
  infos_of_owner owner_npub ((_, key) ∷ keys) =
      let rest = infos_of_owner owner_npub keys in
      if str_eq key.owner_npub owner_npub then info_of key ∷ rest else rest

  unfoldable pub list_keys_by_owner : String → SshKeyManager → List SshKeyInfo
  unfolding infos_of_owner
  list_keys_by_owner owner_npub km = infos_of_owner owner_npub km.keys

  unfoldable pub is_owner : String → String → SshKeyManager → Bool
  is_owner key_name owner_npub km = elim (lookup key_name km.keys) [
    | none ↦ false
    | some key ↦ str_eq key.owner_npub owner_npub
  ]

  pub data KeyError : Type 0 where
    mkdir_failed read_dir_failed generate_failed : KeyError
    parse_private_failed parse_public_failed create_public_failed : KeyError
    write_private_failed write_public_failed key_not_found : KeyError
    remove_private_failed remove_public_failed : KeyError

  module _ (S : FileSystem) where
    abbrev pub private_path : SshKeyStorage → String → String
    private_path config name = S.join config.key_dir (name <> config.private_key_ext)

    abbrev pub public_path : SshKeyStorage → String → String
    public_path config name = S.join config.key_dir (name <> config.public_key_ext)

    -- `loadKey`, at a reading of the clock; an error is logged and leaves the keys.
    unfoldable pub load_key : ℕ → String → S.State → SshKeyManager → SshKeyManager
    load_key now name files km = elim (S.read_file (private_path km.config name) files) [
      | none ↦ km
      | some text ↦ elim (K.decode_pkcs1 text) [
        | none ↦ km
        | some private_key ↦ elim (K.public_of private_key) [
          | none ↦ km
          | some public_key ↦ record km {
            keys =
                insert name
                  (record {
                    name = name;
                    private_key = private_key;
                    public_key = public_key;
                    created_at = now;
                    comment = name <> "@mercury-relay";
                    owner_npub = "";
                  })
                  km.keys;
          }
        ]
      ]
    ]

    -- The loop of `loadExistingKeys`.
    unfoldable pub load_entries : ℕ → List (String × Bool) → S.State → SshKeyManager → SshKeyManager
    unfolding load_key
    load_entries now [] files km = km
    load_entries now ((filename, true) ∷ entries) files km = load_entries now entries files km
    load_entries now ((filename, false) ∷ entries) files km = load_entries now entries files (
        if str_eq (S.ext filename) km.config.private_key_ext
        then load_key now (S.drop_end filename km.config.private_key_ext) files km
        else km)

    unfoldable pub load_existing_keys :
        ℕ → S.State → SshKeyManager → SshKeyManager × Option KeyError
    unfolding load_entries
    load_existing_keys now files km = elim (S.read_dir km.config.key_dir files) [
      | none ↦ (km, some read_dir_failed)
      | some entries ↦ (load_entries now entries files km, none)
    ]

    -- `Initialize`
    unfoldable pub initialize :
        ℕ → S.State → SshKeyManager → S.State × SshKeyManager × Option KeyError
    unfolding load_existing_keys
    initialize now files km =
        let (files', made) = S.mkdir_all km.config.key_dir files in
        if made
        then (let (km', failure) = load_existing_keys now files' km in (files', km', failure))
        else (files', km, some mkdir_failed)

    -- The two files of a key, as `SaveKey` writes them from the uploaded text, and `saveKey` from
    -- the key.
    unfoldable pub write_files :
        SshKeyStorage → String → String → Public → S.State → S.State × Option KeyError
    write_files config name private_text public_key files =
        let (files', written) = S.write_file (private_path config name) private_text files in
        if written
        then (let (files'', done) =
              S.write_file (public_path config name) (K.marshal_public public_key) files' in
            (files'', if done then none else some write_public_failed))
        else (files', some write_private_failed)

    -- A key with its files, which replaces the one of its name.
    unfoldable pub store_key :
        String → SshKey → S.State → SshKeyManager → S.State × SshKeyManager × Option KeyError
    unfolding write_files
    store_key private_text key files km =
        let (files', failure) = write_files km.config key.name private_text key.public_key files in
        elim failure [
          | some err ↦ (files', km, some err)
          | none ↦ (files', record km { keys = insert key.name key km.keys }, none)
        ]

    -- `GenerateKey`, with the key that `rsa.GenerateKey` gives.
    unfoldable pub generate_key :
        ℕ
        → Option Private
        → String
        → String
        → S.State
        → SshKeyManager
        → S.State × SshKeyManager × Option KeyError
    unfolding store_key
    generate_key now none name comment files km = (files, km, some generate_failed)
    generate_key now (some private_key) name comment files km = elim (K.public_of private_key) [
      | none ↦ (files, km, some create_public_failed)
      | some public_key ↦
          store_key (K.encode_pkcs1 private_key)
            (record {
              name = name;
              private_key = private_key;
              public_key = public_key;
              created_at = now;
              comment = comment;
              owner_npub = "";
            })
            files km
    ]

    -- The public key of `SaveKey`: the one uploaded, or the private key's own.
    unfoldable pub uploaded_public : Private → String → KeyError ⊎ Public
    uploaded_public private_key text =
        if str_eq text ""
        then elim (K.public_of private_key) [ none ↦ inl create_public_failed | some key ↦ inr key ]
        else elim (K.parse_public text) [ none ↦ inl parse_public_failed | some key ↦ inr key ]

    unfoldable pub save_key :
        ℕ
        → String
        → String
        → String
        → String
        → S.State
        → SshKeyManager
        → S.State × SshKeyManager × Option KeyError
    unfolding parse_private_key uploaded_public store_key
    save_key now name private_text public_text owner_npub files km =
        elim (parse_private_key private_text) [
          | none ↦ (files, km, some parse_private_failed)
          | some private_key ↦ elim (uploaded_public private_key public_text) [
            | inl err ↦ (files, km, some err)
            | inr public_key ↦
                store_key private_text
                  (record {
                    name = name;
                    private_key = private_key;
                    public_key = public_key;
                    created_at = now;
                    comment = "Uploaded key " <> name;
                    owner_npub = owner_npub;
                  })
                  files km
          ]
        ]

    -- The files of a key go, the private one first.
    unfoldable pub remove_files : SshKeyStorage → String → S.State → S.State × Option KeyError
    remove_files config name files =
        let (files', removed) = S.remove (private_path config name) files in
        if removed
        then (let (files'', done) = S.remove (public_path config name) files' in
            (files'', if done then none else some remove_public_failed))
        else (files', some remove_private_failed)

    unfoldable pub remove_key :
        String → S.State → SshKeyManager → S.State × SshKeyManager × Option KeyError
    unfolding remove_files
    remove_key name files km = elim (lookup name km.keys) [
      | none ↦ (files, km, some key_not_found)
      | some _ ↦
          let (files', failure) = remove_files km.config name files in
          elim failure [
            | some err ↦ (files', km, some err)
            | none ↦ (files', record km { keys = erase name km.keys }, none)
          ]
    ]
