-- ===== src/Tests/Transport.antt =====
-- Examples for internal/transport/manager.go.
use mercury_relay.Prelude.{String, ◌≡◌, Bool, true, false, some, none, [], pos}
use mercury_relay.Config.Settings.{TorConfig, I2PConfig, SshConfig}
use mercury_relay.Transport.Manager.{Transport, new_manager, start}
use mercury_relay.Transport.Outcome.{start_reports}

-- A transport that never starts.
abbrev failing : (Config : Type 0) → Transport Config
failing Config = record {
  State = Bool;
  Error = String;
  create = λ config. false;
  start = λ t. (t, some "no route");
  stop = λ t. (false, some "not started");
  get_address = λ t. "";
  is_healthy = λ t. t;
}

abbrev tor_config : TorConfig
tor_config = record {
  enabled = true;
  data_dir = "/tor";
  control_port = pos 9051;
  socks_port = pos 9050;
  hidden_service_dir = "/tor/service";
  hidden_service_port = pos 80;
}

abbrev i2p_config : I2PConfig
i2p_config = record {
  enabled = true;
  sam_port = pos 7656;
  sam_host = "localhost";
  tunnel_name = "relay";
  tunnel_port = pos 80;
}

abbrev ssh_config : SshConfig
ssh_config = record {
  enabled = true;
  key_storage = record {
    key_dir = "/keys";
    private_key_ext = ".pem";
    public_key_ext = ".pub";
    key_size = pos 2048;
    key_type = "rsa";
  };
  connection = record {
    host = "localhost";
    port = pos 22;
    username = "root";
    timeout = pos 30;
    keep_alive = pos 60;
    max_retries = pos 3;
    retry_delay = pos 5;
    compression = true;
    banner = "";
  };
  terminal_interface = record {
    enabled = false;
    port = pos 2222;
    host = "localhost";
    interactive = false;
    log_level = "info";
  };
  authentication = record {
    require_auth = false;
    api_key = "";
    basic_auth_user = "";
    basic_auth_pass = "";
    authorized_pubkeys = [];
    allow_localhost = true;
  };
}

-- All three are enabled, and all three fail.
start_reports_example :
    (start (failing TorConfig) (failing I2PConfig) (failing SshConfig) (
      new_manager
        (failing TorConfig)
        (failing I2PConfig)
        (failing SshConfig)
        tor_config
        i2p_config
        ssh_config)).1
    ≡ none
start_reports_example = start_reports (failing TorConfig) (failing I2PConfig) (failing SshConfig) (
    new_manager (failing TorConfig) (failing I2PConfig) (failing SshConfig) tor_config i2p_config
      ssh_config)
