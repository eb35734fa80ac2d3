-- ===== src/Tests/Config.antt =====
-- Examples for internal/config.
use mercury_relay.Prelude.{
  ℕ, String, ◌≡◌, refl, Bool, false, ◌==◌, inr, Option, none, some, [], ◌∷◌, pos,
}
use mercury_relay.Config.{complete, load}
use mercury_relay.Config.Settings.{Config}
use mercury_relay.Config.Overrides.{System}
use mercury_relay.Config.Loaded.{IsGuarded, load-IsGuarded}
use mercury_relay.Tests.Data.{fixed}

-- `Config{}`
abbrev zero_config : Config ℕ
zero_config = record {
  server = record { host = ""; port = pos 0; read_timeout = pos 0; write_timeout = pos 0 };
  tor = record {
    enabled = false;
    data_dir = "";
    control_port = pos 0;
    socks_port = pos 0;
    hidden_service_dir = "";
    hidden_service_port = pos 0;
  };
  i2p = record {
    enabled = false;
    sam_port = pos 0;
    sam_host = "";
    tunnel_name = "";
    tunnel_port = pos 0;
  };
  ssh = record {
    enabled = false;
    key_storage = record {
      key_dir = "";
      private_key_ext = "";
      public_key_ext = "";
      key_size = pos 0;
      key_type = "";
    };
    connection = record {
      host = "";
      port = pos 0;
      username = "";
      timeout = pos 0;
      keep_alive = pos 0;
      max_retries = pos 0;
      retry_delay = pos 0;
      compression = false;
      banner = "";
    };
    terminal_interface = record {
      enabled = false;
      port = pos 0;
      host = "";
      interactive = false;
      log_level = "";
    };
    authentication = record {
      require_auth = false;
      api_key = "";
      basic_auth_user = "";
      basic_auth_pass = "";
      authorized_pubkeys = [];
      allow_localhost = false;
    };
  };
  rabbit_mq = record { url = ""; exchange_name = ""; queue_name = ""; dlx_name = ""; ttl = pos 0 };
  redis = record { host = ""; password = ""; db = pos 0; ttl = pos 0 };
  xftp = record { enabled = false; server_url = ""; storage_dir = ""; ttl = "" };
  postgres = record { host = ""; user = ""; password = ""; db_name = ""; ssl_mode = "" };
  quality = record {
    spam_threshold = 0;
    rate_limit_per_minute = pos 0;
    max_content_length = pos 0;
    quarantine_suspicious = false;
  };
  access = record {
    admin_npubs = [];
    update_interval = pos 0;
    relay_url = "";
    allow_public_read = false;
    allow_public_write = false;
  };
  admin = record { enabled = false; port = pos 0; api_key = "" };
  grpc = record {
    enabled = false;
    server_host = "";
    server_port = pos 0;
    timeout = pos 0;
    max_retries = pos 0;
    retry_interval = pos 0;
    tls_enabled = false;
    cert_file = "";
    key_file = "";
    keep_alive_time = pos 0;
    keep_alive_timeout = pos 0;
    max_message_size = pos 0;
    compression_enabled = false;
  };
  rest_api = record {
    enabled = false;
    port = pos 0;
    cors_enabled = false;
    cors_origins = [];
    rate_limit_per_minute = pos 0;
    endpoints = record { events = ""; query = ""; publish = ""; health = ""; stats = "" };
  };
  streaming = record {
    enabled = false;
    upstream_relays = [];
    transport_methods = record {
      web_socket = false;
      tor = false;
      i2p = false;
      ssh = false;
      http_streaming = false;
      sse = false;
      grpc = false;
    };
    connection_pool_size = pos 0;
    reconnect_interval = pos 0;
    timeout = pos 0;
  };
  logging = record { level = ""; format = ""; file = "" };
}

abbrev is_zero : ℕ → Bool
is_zero n = n == 0

-- An environment without variables.
abbrev sys : System
sys = record {
  getenv = λ name. "";
  parse_duration = λ text. none;
  split_commas = λ text. text ∷ [];
  trim_space = λ text. text;
}

abbrev read_file : String → Option String
read_file path = some path

abbrev unmarshal : String → Option (Config ℕ)
unmarshal text = some zero_config

loaded :
    load fixed is_zero sys read_file unmarshal zero_config "config.yaml"
    ≡ inr (complete fixed is_zero sys zero_config)
unfolding load
loaded = refl

load-IsGuarded_example : IsGuarded fixed is_zero sys (complete fixed is_zero sys zero_config)
load-IsGuarded_example =
    load-IsGuarded fixed is_zero sys read_file unmarshal zero_config
      (complete fixed is_zero sys zero_config) "config.yaml" loaded
