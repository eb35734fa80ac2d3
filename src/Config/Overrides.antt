-- ===== src/Config/Overrides.antt =====
-- `applyEnvOverrides` of internal/config/config.go. A variable that is not set is "", as
-- `os.Getenv` gives it.
use mercury_relay.Prelude.{
  String, ◌<>◌, str_eq, Bool, Option, none, some, List, map, ℤ, if◌then◌else◌,
}
use mercury_relay.Prelude.Decimal.{atoi}
use mercury_relay.Config.Defaults.{or_text}
use mercury_relay.Config.Settings.{
  ServerConfig, AccessConfig, TorConfig, I2PConfig, SshKeyStorage, SshConnection, TerminalInterface,
  SshConfig, RedisConfig, RabbitMqConfig, Config,
}

-- The environment, and what the program takes from Go's time and strings packages.
pub record System : Type 0 where
  pub getenv : String → String
  pub parse_duration : String → Option ℤ
  pub split_commas : String → List String
  pub trim_space : String → String

-- A value that a text gives, if it gives one.
abbrev pub or_else : {A : Type 0} → A → Option A → A
or_else old none = old
or_else old (some new) = new

module _ (sys : System) where
  open sys use {getenv, parse_duration, split_commas, trim_space}

  abbrev pub env_text : String → String → String
  env_text name old = or_text old (getenv name)

  abbrev pub env_bool : String → Bool → Bool
  env_bool name old = if str_eq (getenv name) "" then old else str_eq (getenv name) "true"

  abbrev pub env_int : String → ℤ → ℤ
  env_int name old = if str_eq (getenv name) "" then old else or_else old (atoi (getenv name))

  abbrev pub env_duration : String → ℤ → ℤ
  env_duration name old =
      if str_eq (getenv name) "" then old else or_else old (parse_duration (getenv name))

  abbrev pub env_list : String → List String → List String
  env_list name old =
      if str_eq (getenv name) "" then old else map trim_space (split_commas (getenv name))

  unfoldable pub override_server : ServerConfig → ServerConfig
  override_server s = record s {
    host = env_text "SERVER_HOST" s.host;
    port = env_int "NOSTR_RELAY_PORT" (env_int "SERVER_PORT" s.port);
  }

  unfoldable pub override_access : AccessConfig → AccessConfig
  override_access a = record a {
    admin_npubs = env_list "MERCURY_ADMIN_NPUBS" a.admin_npubs;
    relay_url = env_text "ACCESS_RELAY_URL" a.relay_url;
    allow_public_read = env_bool "ACCESS_PUBLIC_READ" a.allow_public_read;
    allow_public_write = env_bool "ACCESS_PUBLIC_WRITE" a.allow_public_write;
    update_interval = env_duration "ACCESS_UPDATE_INTERVAL" a.update_interval;
  }

  unfoldable pub override_tor : TorConfig → TorConfig
  override_tor t = record t {
    enabled = env_bool "TOR_ENABLED" t.enabled;
    socks_port = env_int "TOR_SOCKS_PORT" t.socks_port;
    control_port = env_int "TOR_CONTROL_PORT" t.control_port;
  }

  unfoldable pub override_i2p : I2PConfig → I2PConfig
  override_i2p i = record i {
    enabled = env_bool "I2P_ENABLED" i.enabled;
    sam_port = env_int "I2P_SAM_PORT" i.sam_port;
  }

  unfoldable pub override_connection : SshConnection → SshConnection
  override_connection c = record c {
    host = env_text "SSH_HOST" c.host;
    port = env_int "SSH_PORT" c.port;
    username = env_text "SSH_USERNAME" c.username;
    timeout = env_duration "SSH_TIMEOUT" c.timeout;
  }

  unfoldable pub override_key_storage : SshKeyStorage → SshKeyStorage
  override_key_storage k = record k {
    key_dir = env_text "SSH_KEY_DIR" k.key_dir;
    key_type = env_text "SSH_KEY_TYPE" k.key_type;
    key_size = env_int "SSH_KEY_SIZE" k.key_size;
  }

  unfoldable pub override_terminal_interface : TerminalInterface → TerminalInterface
  override_terminal_interface t = record t {
    enabled = env_bool "SSH_TERMINAL_ENABLED" t.enabled;
    port = env_int "SSH_TERMINAL_PORT" t.port;
  }

  unfoldable pub override_ssh : SshConfig → SshConfig
  unfolding override_connection override_key_storage override_terminal_interface
  override_ssh s = record s {
    enabled = env_bool "SSH_ENABLED" s.enabled;
    connection = override_connection s.connection;
    key_storage = override_key_storage s.key_storage;
    terminal_interface = override_terminal_interface s.terminal_interface;
  }

  unfoldable pub override_redis : RedisConfig → RedisConfig
  override_redis r = record r {
    host = env_text "REDIS_HOST" r.host;
    password = env_text "REDIS_PASSWORD" r.password;
    db = env_int "REDIS_DB" r.db;
  }

  -- `fmt.Sprintf("amqp://%s:%s@%s:%s%s", ...)`
  unfoldable pub amqp_url : String → String
  amqp_url host =
      "amqp://"
      <> env_text "RABBITMQ_USERNAME" "guest"
      <> ":"
      <> env_text "RABBITMQ_PASSWORD" "guest"
      <> "@"
      <> host
      <> ":"
      <> env_text "RABBITMQ_PORT" "5672"
      <> env_text "RABBITMQ_VHOST" "/"

  unfoldable pub override_rabbit_mq : RabbitMqConfig → RabbitMqConfig
  unfolding amqp_url
  override_rabbit_mq r = record r {
    url = if str_eq (getenv "RABBITMQ_HOST") "" then r.url else amqp_url (getenv "RABBITMQ_HOST");
  }

  unfoldable pub apply_env_overrides : {F : Type 0} → Config F → Config F
  unfolding override_server override_access override_tor override_i2p override_ssh override_redis
      override_rabbit_mq
  apply_env_overrides c = record c {
    server = override_server c.server;
    access = override_access c.access;
    admin = record c.admin {
      port = env_int "ADMIN_PORT" c.admin.port;
      api_key = env_text "API_KEY" c.admin.api_key;
    };
    rest_api = record c.rest_api {
      port = env_int "REST_API_PORT" c.rest_api.port;
      cors_enabled = env_bool "CORS_ENABLED" c.rest_api.cors_enabled;
    };
    streaming = record c.streaming { enabled = env_bool "STREAMING_ENABLED" c.streaming.enabled };
    tor = override_tor c.tor;
    i2p = override_i2p c.i2p;
    ssh = override_ssh c.ssh;
    xftp = record c.xftp { enabled = env_bool "XFTP_ENABLED" c.xftp.enabled };
    quality = record c.quality {
      rate_limit_per_minute = env_int "RATE_LIMIT_PER_MINUTE" c.quality.rate_limit_per_minute;
    };
    redis = override_redis c.redis;
    rabbit_mq = override_rabbit_mq c.rabbit_mq;
  }
