-- ===== src/Config/Defaults.antt =====
-- `setDefaults` of internal/config/config.go, section by section.
use mercury_relay.Prelude.{
  ℕ, ◌*◌, String, str_eq, Bool, true, false, not, ◌&&◌, List, [], ◌∷◌, ℤ, pos, eq_ℤ, ltb_ℤ,
  if◌then◌else◌,
}
use mercury_relay.Prelude.Float.{Float}
use mercury_relay.Models.Event.{second, hour}
use mercury_relay.Config.Settings.{
  ServerConfig, AccessConfig, QualityConfig, RabbitMqConfig, SshKeyStorage, SshConnection,
  TerminalInterface, SshAuthentication, SshConfig, Config,
}

-- `if s == "" { s = default }`, and so on.
abbrev pub or_text : String → String → String
or_text default s = if str_eq s "" then default else s

abbrev pub or_int : ℤ → ℤ → ℤ
or_int default n = if eq_ℤ n (pos 0) then default else n

abbrev pub or_true : Bool → Bool
or_true b = if not b then true else b

abbrev pub or_port : ℤ → ℤ → ℤ
or_port default port = if not (ltb_ℤ (pos 0) port) then default else port

abbrev pub or_public_read : Bool → Bool → Bool
or_public_read read write = if not read && not write then true else read

abbrev pub or_private_write : Bool → Bool → Bool
or_private_write read write = if not read && not write then false else write

abbrev pub seconds : ℕ → ℤ
seconds n = pos (n * second)

abbrev pub default_admins : List String
default_admins =
    "npub1flnpz46qtu3jwpsglzacmjrglnssyaxdvcfe5yf0hg3g4qad9xds2g784j"
    ∷ "npub1v30tsz9vw6ylpz63g0a702nj3xa26t3m7p5us8f2y2sd8v6cnsvq465zjx"
    ∷ "npub1l5sga6xg72phsz5422ykujprejwud075ggrr3z2hwyrfgr7eylqstegx9z"
    ∷ "npub1m4ny6hjqzepn4rxknuq94c2gpqzr29ufkkw7ttcxyak7v43n6vvsajc2jl" ∷ []

abbrev pub or_admins : List String → List String
or_admins [] = default_admins
or_admins (npub ∷ npubs) = npub ∷ npubs

unfoldable pub default_server : ServerConfig → ServerConfig
default_server s = record {
  host = or_text "localhost" s.host;
  port = or_port (pos 8080) s.port;
  read_timeout = or_int (seconds 30) s.read_timeout;
  write_timeout = or_int (seconds 30) s.write_timeout;
}

unfoldable pub default_access : AccessConfig → AccessConfig
default_access a = record a {
  admin_npubs = or_admins a.admin_npubs;
  allow_public_read = or_public_read a.allow_public_read a.allow_public_write;
  allow_public_write = or_private_write a.allow_public_read a.allow_public_write;
  update_interval = or_int (pos hour) a.update_interval;
}

unfoldable pub default_rabbit_mq : RabbitMqConfig → RabbitMqConfig
default_rabbit_mq r = record r {
  exchange_name = or_text "events" r.exchange_name;
  queue_name = or_text "events_queue" r.queue_name;
  dlx_name = or_text "events_dlx" r.dlx_name;
}

unfoldable pub default_key_storage : SshKeyStorage → SshKeyStorage
default_key_storage k = record {
  key_dir = or_text "./ssh-keys" k.key_dir;
  private_key_ext = or_text ".pem" k.private_key_ext;
  public_key_ext = or_text ".pub" k.public_key_ext;
  key_size = or_int (pos 2048) k.key_size;
  key_type = or_text "rsa" k.key_type;
}

unfoldable pub default_connection : SshConnection → SshConnection
default_connection c = record c {
  port = or_int (pos 22) c.port;
  timeout = or_int (seconds 30) c.timeout;
  keep_alive = or_int (seconds 30) c.keep_alive;
  max_retries = or_int (pos 3) c.max_retries;
  retry_delay = or_int (seconds 5) c.retry_delay;
}

unfoldable pub default_terminal_interface : TerminalInterface → TerminalInterface
default_terminal_interface t = record t {
  port = or_int (pos 2222) t.port;
  host = or_text "localhost" t.host;
  log_level = or_text "info" t.log_level;
}

unfoldable pub default_authentication : SshAuthentication → SshAuthentication
default_authentication a = record a {
  api_key = or_text "admin-ssh-key-2024" a.api_key;
  basic_auth_user = or_text "admin" a.basic_auth_user;
  basic_auth_pass = or_text "mercury-ssh-2024" a.basic_auth_pass;
  require_auth = or_true a.require_auth;
  allow_localhost = or_true a.allow_localhost;
}

unfoldable pub default_ssh : SshConfig → SshConfig
unfolding default_key_storage default_connection default_terminal_interface default_authentication
default_ssh s = record s {
  key_storage = default_key_storage s.key_storage;
  connection = default_connection s.connection;
  terminal_interface = default_terminal_interface s.terminal_interface;
  authentication = default_authentication s.authentication;
}

-- `is_zero x` is `x == 0`.
module _ (R : Float) (is_zero : R.F → Bool) where
  open R use {F, tenths}

  unfoldable pub default_quality : QualityConfig F → QualityConfig F
  default_quality q = record q {
    max_content_length = or_int (pos 10000) q.max_content_length;
    rate_limit_per_minute = or_int (pos 100) q.rate_limit_per_minute;
    spam_threshold = if is_zero q.spam_threshold then tenths 7 else q.spam_threshold;
  }

  unfoldable pub set_defaults : Config F → Config F
  unfolding default_server default_access default_quality default_rabbit_mq default_ssh
  set_defaults c = record c {
    server = default_server c.server;
    access = default_access c.access;
    quality = default_quality c.quality;
    rabbit_mq = default_rabbit_mq c.rabbit_mq;
    ssh = default_ssh c.ssh;
  }
