-- ===== src/Config/Settings.antt =====
-- internal/config/config.go: the configuration. Durations are whole nanoseconds, and the type of
-- floats is a parameter.
use mercury_relay.Prelude.{String, Bool, List, ℤ}

pub record ServerConfig : Type 0 where
  pub host : String
  pub port : ℤ
  pub read_timeout : ℤ
  pub write_timeout : ℤ

pub record TorConfig : Type 0 where
  pub enabled : Bool
  pub data_dir : String
  pub control_port : ℤ
  pub socks_port : ℤ
  pub hidden_service_dir : String
  pub hidden_service_port : ℤ

pub record I2PConfig : Type 0 where
  pub enabled : Bool
  pub sam_port : ℤ
  pub sam_host : String
  pub tunnel_name : String
  pub tunnel_port : ℤ

pub record SshKeyStorage : Type 0 where
  pub key_dir : String
  pub private_key_ext : String
  pub public_key_ext : String
  pub key_size : ℤ
  pub key_type : String

pub record SshConnection : Type 0 where
  pub host : String
  pub port : ℤ
  pub username : String
  pub timeout : ℤ
  pub keep_alive : ℤ
  pub max_retries : ℤ
  pub retry_delay : ℤ
  pub compression : Bool
  pub banner : String

pub record TerminalInterface : Type 0 where
  pub enabled : Bool
  pub port : ℤ
  pub host : String
  pub interactive : Bool
  pub log_level : String

pub record SshAuthentication : Type 0 where
  pub require_auth : Bool
  pub api_key : String
  pub basic_auth_user : String
  pub basic_auth_pass : String
  pub authorized_pubkeys : List String
  pub allow_localhost : Bool

pub record SshConfig : Type 0 where
  pub enabled : Bool
  pub key_storage : SshKeyStorage
  pub connection : SshConnection
  pub terminal_interface : TerminalInterface
  pub authentication : SshAuthentication

pub record RabbitMqConfig : Type 0 where
  pub url : String
  pub exchange_name : String
  pub queue_name : String
  pub dlx_name : String
  pub ttl : ℤ

pub record RedisConfig : Type 0 where
  pub host : String
  pub password : String
  pub db : ℤ
  pub ttl : ℤ

pub record XftpConfig : Type 0 where
  pub enabled : Bool
  pub server_url : String
  pub storage_dir : String
  pub ttl : String

pub record PostgresConfig : Type 0 where
  pub host : String
  pub user : String
  pub password : String
  pub db_name : String
  pub ssl_mode : String

pub record QualityConfig (F : Type 0) : Type 0 where
  pub spam_threshold : F
  pub rate_limit_per_minute : ℤ
  pub max_content_length : ℤ
  pub quarantine_suspicious : Bool

pub record AccessConfig : Type 0 where
  pub admin_npubs : List String
  pub update_interval : ℤ
  pub relay_url : String
  pub allow_public_read : Bool
  pub allow_public_write : Bool

pub record AdminConfig : Type 0 where
  pub enabled : Bool
  pub port : ℤ
  pub api_key : String

pub record GrpcConfig : Type 0 where
  pub enabled : Bool
  pub server_host : String
  pub server_port : ℤ
  pub timeout : ℤ
  pub max_retries : ℤ
  pub retry_interval : ℤ
  pub tls_enabled : Bool
  pub cert_file : String
  pub key_file : String
  pub keep_alive_time : ℤ
  pub keep_alive_timeout : ℤ
  pub max_message_size : ℤ
  pub compression_enabled : Bool

pub record RestApiEndpoints : Type 0 where
  pub events : String
  pub query : String
  pub publish : String
  pub health : String
  pub stats : String

pub record RestApiConfig : Type 0 where
  pub enabled : Bool
  pub port : ℤ
  pub cors_enabled : Bool
  pub cors_origins : List String
  pub rate_limit_per_minute : ℤ
  pub endpoints : RestApiEndpoints

pub record UpstreamRelay : Type 0 where
  pub url : String
  pub enabled : Bool
  pub priority : ℤ

pub record TransportMethods : Type 0 where
  pub web_socket : Bool
  pub tor : Bool
  pub i2p : Bool
  pub ssh : Bool
  pub http_streaming : Bool
  pub sse : Bool
  pub grpc : Bool

pub record StreamingConfig : Type 0 where
  pub enabled : Bool
  pub upstream_relays : List UpstreamRelay
  pub transport_methods : TransportMethods
  pub connection_pool_size : ℤ
  pub reconnect_interval : ℤ
  pub timeout : ℤ

pub record LoggingConfig : Type 0 where
  pub level : String
  pub format : String
  pub file : String

pub record Config (F : Type 0) : Type 0 where
  pub server : ServerConfig
  pub tor : TorConfig
  pub i2p : I2PConfig
  pub ssh : SshConfig
  pub rabbit_mq : RabbitMqConfig
  pub redis : RedisConfig
  pub xftp : XftpConfig
  pub postgres : PostgresConfig
  pub quality : QualityConfig F
  pub access : AccessConfig
  pub admin : AdminConfig
  pub grpc : GrpcConfig
  pub rest_api : RestApiConfig
  pub streaming : StreamingConfig
  pub logging : LoggingConfig
