-- ===== src/SshKeys/Ownership.antt =====
-- Whose a key is after it is saved, and after the directory is read again
-- (internal/transport/ssh.go).
use mercury_relay.Prelude.{
  ℕ, String, ◌<>◌, str_eq, eq_iff, ◌≡◌, ◌≢◌, inl, inr, refl, Bool, true, false, Option, none, some,
  List, [], ◌∷◌, Any, sym, insert, lookup, lookup-insert, arith, Option-cases, Sum-cases,
  Bool-cases, if◌then◌else◌,
}
use mathlib.Core.Path.{subst}
use mercury_relay.Config.Settings.{SshKeyStorage}
use mercury_relay.SshKeys.Manager.{
  FileSystem, Keyring, SshKey, SshKeyManager, get_key, is_owner, parse_private_key, uploaded_public,
  store_key, save_key, private_path, load_key, load_entries, load_existing_keys, initialize,
}

module _ (K : Keyring) (S : FileSystem) where
  -- What `SaveKey` makes of an upload.
  abbrev pub uploaded : ℕ → String → String → K.Private → K.Public → SshKey K
  uploaded now name owner private_key public_key = record {
    name = name;
    private_key = private_key;
    public_key = public_key;
    created_at = now;
    comment = "Uploaded key " <> name;
    owner_npub = owner;
  }

  pub record IsSaved (now : ℕ) (name private_text public_text owner : String)
      (before after : SshKeyManager K) (other : String) : Type 0 where
    pub private_key : K.Private
    pub public_key : K.Public
    pub read : parse_private_key K private_text ≡ some private_key
    pub matched : uploaded_public K S private_key public_text ≡ inr public_key
    pub found : get_key K other after ≡ (
        if str_eq name other
        then some (uploaded now name owner private_key public_key)
        else get_key K other before)

  -- After a `SaveKey` that succeeds, `GetKey` finds under the name the keys that were uploaded, owned
  -- by the uploader, whoever owned the key of this name before; under other names, it finds what it
  -- found.
  pub get_key-save_key :
      (now : ℕ) (name private_text public_text owner other : String) (files : S.State)
      (km : SshKeyManager K)
      → (save_key K S now name private_text public_text owner files km).2 ≡ none
      → IsSaved now name private_text public_text owner km
          (save_key K S now name private_text public_text owner files km).1
          other
  unfolding save_key store_key get_key
  get_key-save_key now name private_text public_text owner other files km h =
      elim (Option-cases (parse_private_key K private_text)) [
        | inl e ↦ absurd (ground arith)
        | inr (private_key, e) ↦ elim (Sum-cases (uploaded_public K S private_key public_text)) [
          | inl (err, f) ↦ absurd (ground arith)
          | inr (public_key, f) ↦ record {
            private_key = private_key;
            public_key = public_key;
            read = e;
            matched = f;
            found = ground (
              arith,
              lookup-insert name other (uploaded now name owner private_key public_key) km.keys,
            );
          }
        ]
      ]

  -- A key that nobody owns stands under the name.
  abbrev pub unowned : Option (SshKey K) → Bool
  unowned none = false
  unowned (some key) = str_eq key.owner_npub ""

  abbrev pub IsDisowned : String → SshKeyManager K → Type 0
  IsDisowned name km = unowned (lookup name km.keys) ≡ true

  -- The private key of the name can be read.
  pub record IsLoadable (config : SshKeyStorage) (files : S.State) (name : String) : Type 0 where
    pub text : String
    pub private_key : K.Private
    pub public_key : K.Public
    pub read : S.read_file (private_path K S config name) files ≡ some text
    pub decoded : K.decode_pkcs1 text ≡ some private_key
    pub completed : K.public_of private_key ≡ some public_key

  same_config :
      (now : ℕ) (name : String) (files : S.State) (km : SshKeyManager K)
      → (load_key K S now name files km).config ≡ km.config
  unfolding load_key
  same_config now name files km = ground arith

  -- What `loadKey` makes of a key that can be read.
  abbrev loaded : ℕ → String → K.Private → K.Public → SshKey K
  loaded now name private_key public_key = record {
    name = name;
    private_key = private_key;
    public_key = public_key;
    created_at = now;
    comment = name <> "@mercury-relay";
    owner_npub = "";
  }

  loads :
      (now : ℕ) (name : String) (files : S.State) (km : SshKeyManager K)
      → IsLoadable km.config files name
      → (key : SshKey K) × ((load_key K S now name files km
            ≡ record km { keys = insert name key km.keys })
          × (key.owner_npub ≡ ""))
  unfolding load_key
  loads now name files km l = (
    loaded now name l.private_key l.public_key,
    (rw (load_key, l.read, l.decoded, l.completed) refl, refl),
  )

  loads-IsDisowned :
      (now : ℕ) (name : String) (files : S.State) (km : SshKeyManager K)
      → IsLoadable km.config files name
      → IsDisowned name (load_key K S now name files km)
  loads-IsDisowned now name files km l =
      let (key, (e, owner)) = loads now name files km l in
      rw e (
        ground
          (arith, lookup-insert name name key km.keys, eq_iff name name, eq_iff key.owner_npub ""))

  keeps-IsDisowned :
      (now : ℕ) (name other : String) (files : S.State) (km : SshKeyManager K)
      → IsDisowned name km
      → IsDisowned name (load_key K S now other files km)
  unfolding load_key
  keeps-IsDisowned now name other files km d =
      elim (Option-cases (S.read_file (private_path K S km.config other) files)) [
        | inl e ↦ rw (load_key, e) d
        | inr (text, e) ↦ elim (Option-cases (K.decode_pkcs1 text)) [
          | inl f ↦ rw (load_key, e, f) d
          | inr (private_key, f) ↦ elim (Option-cases (K.public_of private_key)) [
            | inl g ↦ rw (load_key, e, f, g) d
            | inr (public_key, g) ↦
                rw (load_key, e, f, g)
                  (ground (
                    arith,
                    lookup-insert other name (loaded now other private_key public_key) km.keys,
                  ))
          ]
        ]
      ]

  -- The file of the name's private key.
  abbrev pub IsFileOf : SshKeyStorage → String → String × Bool → Type 0
  IsFileOf config name (filename, is_dir) =
      (is_dir ≡ false)
      × (str_eq (S.ext filename) config.private_key_ext ≡ true)
      × (S.drop_end filename config.private_key_ext ≡ name)

  keeps_all :
      (now : ℕ) (entries : List (String × Bool)) (name : String) (files : S.State)
      (km : SshKeyManager K)
      → IsDisowned name km
      → IsDisowned name (load_entries K S now entries files km)
  unfolding load_entries
  keeps_all now [] name files km d = d
  keeps_all now ((filename, true) ∷ entries) name files km d = keeps_all now entries name files km d
  keeps_all now ((filename, false) ∷ entries) name files km d =
      keeps_all now entries name files
        (if str_eq (S.ext filename) km.config.private_key_ext
          then load_key K S now (S.drop_end filename km.config.private_key_ext) files km
          else km)
        (elim (Bool-cases (str_eq (S.ext filename) km.config.private_key_ext)) [
          | inl e ↦
              rw e (
                keeps-IsDisowned now name (S.drop_end filename km.config.private_key_ext) files km
                  d)
          | inr e ↦ rw e d
        ])

  loads_all :
      (now : ℕ) (entries : List (String × Bool)) (name : String) (files : S.State)
      (config : SshKeyStorage) (km : SshKeyManager K)
      → km.config ≡ config
      → IsLoadable config files name
      → Any (IsFileOf config name) entries
      → IsDisowned name (load_entries K S now entries files km)
  unfolding load_entries
  loads_all now [] name files config km c l any = elim any [ ]
  loads_all now ((filename, true) ∷ entries) name files config km c l (inl (file, fits, named)) =
      absurd (ground arith)
  loads_all now ((filename, false) ∷ entries) name files config km c l (inl (file, fits, named)) =
      keeps_all now entries name files
        (if str_eq (S.ext filename) km.config.private_key_ext
          then load_key K S now (S.drop_end filename km.config.private_key_ext) files km
          else km)
        (rw
          (
            subst (λ k. str_eq (S.ext filename) k.private_key_ext ≡ true) (sym c) fits,
            subst (λ k. S.drop_end filename k.private_key_ext ≡ name) (sym c) named,
          )
          (loads-IsDisowned now name files km (subst (λ k. IsLoadable k files name) (sym c) l)))
  loads_all now ((filename, true) ∷ entries) name files config km c l (inr rest) =
      loads_all now entries name files config km c l rest
  loads_all now ((filename, false) ∷ entries) name files config km c l (inr rest) =
      loads_all now entries name files config
        (if str_eq (S.ext filename) km.config.private_key_ext
          then load_key K S now (S.drop_end filename km.config.private_key_ext) files km
          else km)
        (ground
          (arith, c, same_config now (S.drop_end filename km.config.private_key_ext) files km))
        l rest

  not_owner :
      (npub : String) (o : Option (SshKey K))
      → unowned o ≡ true
      → npub ≢ ""
      → (elim o [ none ↦ false | some key ↦ str_eq key.owner_npub npub ]) ≡ false
  not_owner npub none d named = refl
  not_owner npub (some key) d named =
      ground (arith, eq_iff key.owner_npub "", eq_iff key.owner_npub npub)

  -- After the directory was read, a key whose file could be read belongs to nobody, whoever owned it.
  pub is_owner-initialize :
      (now : ℕ) (name npub : String) (files : S.State) (km : SshKeyManager K)
      (entries : List (String × Bool))
      → (S.mkdir_all km.config.key_dir files).1 ≡ true
      → S.read_dir km.config.key_dir (S.mkdir_all km.config.key_dir files).0 ≡ some entries
      → Any (IsFileOf km.config name) entries
      → IsLoadable km.config (S.mkdir_all km.config.key_dir files).0 name
      → npub ≢ ""
      → is_owner K name npub (initialize K S now files km).1 ≡ false
  unfolding initialize load_existing_keys is_owner
  is_owner-initialize now name npub files km entries made listed file l named =
      let d =
        loads_all now entries name (S.mkdir_all km.config.key_dir files).0 km.config km refl l
          file in
      rw (initialize, made, load_existing_keys, listed)
        (not_owner npub
          (lookup name
            (load_entries K S now entries (S.mkdir_all km.config.key_dir files).0 km).keys)
          d named)
