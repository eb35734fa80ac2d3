-- ===== src/Tests/SshKeys.antt =====
-- Examples for the SSH keys.
use mercury_relay.Prelude.{
  ℕ, String, eq_iff, ◌≡◌, ◌≢◌, inl, refl, true, false, none, some, [], ◌∷◌, Dict, lookup, insert,
  erase, pos, arith,
}
use mercury_relay.Config.Settings.{SshKeyStorage, SshConfig}
use mercury_relay.SshKeys.Manager.{
  FileSystem, Keyring, SshKeyManager, is_owner, save_key, store_key, write_files, parse_private_key,
  uploaded_public,
}
use mercury_relay.SshKeys.Ownership.{IsSaved, get_key-save_key}
use mercury_relay.SshKeys.Disowned.{is_owner-handle_list_ssh_keys}
use mercury_relay.Auth.Nostr.{is_authenticated}
use mercury_relay.SshKeys.Requests.{
  Server, authenticate_request, handle_list_ssh_keys, handle_delete_ssh_key,
}
use mercury_relay.SshKeys.Guards.{IsUntouched, handle_delete_ssh_key-IsUntouched}

-- A directory of one file, and files by their names.
abbrev file_system : FileSystem
file_system = record {
  State = Dict String;
  mkdir_all = λ path st. (st, true);
  read_dir = λ path st. some (("laptop.pem", false) ∷ []);
  read_file = λ path st. lookup path st;
  write_file = λ path text st. (insert path text st, true);
  remove = λ path st. (erase path st, true);
  join = λ dir name. name;
  ext = λ name. ".pem";
  drop_end = λ name ext. "laptop";
}

-- Keys that are their texts.
abbrev keyring : Keyring
keyring = record {
  Private = String;
  Public = String;
  decode_pkcs1 = λ text. some text;
  decode_pkcs8 = λ text. none;
  encode_pkcs1 = λ key. key;
  public_of = λ key. some key;
  parse_public = λ text. some text;
  marshal_public = λ key. key;
}

abbrev storage : SshKeyStorage
storage = record {
  key_dir = "keys";
  private_key_ext = ".pem";
  public_key_ext = ".pub";
  key_size = pos 2048;
  key_type = "rsa";
}

abbrev manager : SshKeyManager keyring
manager = record { config = storage; keys = [] }

saved : (save_key keyring file_system 5 "laptop" "secret" "" "alice" [] manager).2 ≡ none
unfolding save_key store_key write_files parse_private_key uploaded_public
saved = refl

get_key-save_key_example :
    IsSaved keyring file_system 5 "laptop" "secret" "" "alice" manager
      (save_key keyring file_system 5 "laptop" "secret" "" "alice" [] manager).1
      "laptop"
get_key-save_key_example =
    get_key-save_key keyring file_system 5 "laptop" "secret" "" "alice" "laptop" [] manager saved

abbrev owned : SshKeyManager keyring
owned = record manager {
  keys =
      (
        "laptop",
        record {
          name = "laptop";
          private_key = "secret";
          public_key = "secret";
          created_at = 5;
          comment = "";
          owner_npub = "alice";
        },
      )
      ∷ [];
}

abbrev files : Dict String
files = ("laptop.pem", "secret") ∷ []

abbrev owner : String
owner = "alice"

alice_named : owner ≢ ""
alice_named = ground (arith, eq_iff owner "")

stored : lookup "laptop.pem" files ≡ some "secret"
unfolding lookup
stored = refl

abbrev ssh_config : SshConfig
ssh_config = record {
  enabled = true;
  key_storage = record {
    key_dir = "";
    private_key_ext = "";
    public_key_ext = "";
    key_size = pos 0;
    key_type = "";
  };
  connection = record {
    host = "";
    port = pos 0;
    username = "";
    timeout = pos 0;
    keep_alive = pos 0;
    max_retries = pos 0;
    retry_delay = pos 0;
    compression = true;
    banner = "";
  };
  terminal_interface = record {
    enabled = true;
    port = pos 0;
    host = "";
    interactive = true;
    log_level = "";
  };
  authentication = record {
    require_auth = true;
    api_key = "";
    basic_auth_user = "";
    basic_auth_pass = "";
    authorized_pubkeys = [];
    allow_localhost = true;
  };
}

abbrev server : Server keyring file_system
server = record {
  config = ssh_config;
  key_manager = owned;
  nostr_auth = record {
    challenges = [];
    authenticated =
        ("bob", record { pubkey = "bob"; authenticated_at = 1; expires_at = 99 })
        ∷ ("alice", record { pubkey = "alice"; authenticated_at = 1; expires_at = 99 })
        ∷ [];
    relay_url = "";
    authorized_pubkeys = [];
  };
  files = files;
}

not_bobs : is_owner keyring "laptop" "bob" owned ≡ false
unfolding is_owner lookup
not_bobs = refl

-- Bob is authenticated, and asks for alice's key to be deleted.
handle_delete_ssh_key-IsUntouched_example :
    IsUntouched keyring file_system server
      (handle_delete_ssh_key keyring file_system 5 6 7 "DELETE" "bob" "laptop" server).0
handle_delete_ssh_key-IsUntouched_example =
    handle_delete_ssh_key-IsUntouched keyring file_system 5 6 7 "DELETE" "bob" "laptop" server
      (inl not_bobs)

-- Bob asks for his keys; alice's key is no longer hers.
bob_enters : (authenticate_request keyring file_system 5 "bob" server).1 ≡ true
unfolding authenticate_request is_authenticated lookup
bob_enters = refl

abbrev listed : Server keyring file_system
listed = (handle_list_ssh_keys keyring file_system 5 6 7 "GET" "bob" server).0

is_owner-handle_list_ssh_keys_example :
    (is_owner keyring "laptop" owner listed.key_manager ≡ false)
    × ((t u v : ℕ)
        → IsUntouched keyring file_system listed
            (handle_delete_ssh_key keyring file_system t u v "DELETE" owner "laptop" listed).0)
is_owner-handle_list_ssh_keys_example =
    is_owner-handle_list_ssh_keys keyring file_system 5 6 7 "bob" "laptop" owner server
      (("laptop.pem", false) ∷ []) bob_enters refl refl (inl (refl, refl, refl))
      (record {
        text = "secret";
        private_key = "secret";
        public_key = "secret";
        read = stored;
        decoded = refl;
        completed = refl;
      })
      alice_named
