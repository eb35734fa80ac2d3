-- ===== src/Config.antt =====
-- internal/config/config.go: how a configuration is completed, overridden and checked.
pub mod Settings
pub mod Defaults
pub mod Overrides
pub mod Loaded
use mercury_relay.Prelude.{
  String, str_eq, Bool, not, ◌||◌, Option, none, some, ◌⊎◌, inl, inr, ℤ, pos, ltb_ℤ, if◌then◌else◌,
}
use mercury_relay.Prelude.Float.{Float}
use mercury_relay.Config.Settings.{Config}
use mercury_relay.Config.Defaults.{set_defaults}
use mercury_relay.Config.Overrides.{System, apply_env_overrides}

pub data LoadError : Type 0 where
  read_failed parse_failed : LoadError

pub data ConfigError : Type 0 where
  invalid_port invalid_max_content_length invalid_rate_limit : ℤ → ConfigError
  negative_read_timeout negative_write_timeout negative_update_interval : ConfigError
  invalid_spam_threshold : ConfigError

module _ (R : Float) where
  open R use {F, tenths, lt}

  -- `Validate`; nil is `none`.
  unfoldable pub validate : Config F → Option ConfigError
  validate c =
      if not (ltb_ℤ (pos 0) c.server.port) || ltb_ℤ (pos 65535) c.server.port
      then some (invalid_port c.server.port)
      else if ltb_ℤ c.server.read_timeout (pos 0)
      then some negative_read_timeout
      else if ltb_ℤ c.server.write_timeout (pos 0)
      then some negative_write_timeout
      else if ltb_ℤ c.access.update_interval (pos 0)
      then some negative_update_interval
      else if not (ltb_ℤ (pos 0) c.quality.max_content_length)
      then some (invalid_max_content_length c.quality.max_content_length)
      else if not (ltb_ℤ (pos 0) c.quality.rate_limit_per_minute)
      then some (invalid_rate_limit c.quality.rate_limit_per_minute)
      else if lt c.quality.spam_threshold (tenths 0) || lt (tenths 10) c.quality.spam_threshold
      then some invalid_spam_threshold
      else none

  module _ (is_zero : F → Bool) (sys : System) where
    -- The steps after the file.
    unfoldable pub complete : Config F → Config F
    complete c = apply_env_overrides sys (set_defaults R is_zero c)

    -- `Load`, with what reading the file gives (`none` is an error), the YAML decoder on a zero
    -- configuration, and that zero configuration.
    unfoldable pub load :
        (String → Option String)
        → (String → Option (Config F))
        → Config F
        → String
        → LoadError ⊎ Config F
    unfolding complete
    load read_file unmarshal zero path =
        if str_eq path "" then inr (complete zero) else elim (read_file path) [
          | none ↦ inl read_failed
          | some text ↦ elim (unmarshal text) [
            | none ↦ inl parse_failed
            | some c ↦ inr (complete c)
          ]
        ]
