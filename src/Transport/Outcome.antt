-- ===== src/Transport/Outcome.antt =====
-- What `Start` of the transport manager reports (internal/transport/manager.go).
use mercury_relay.Prelude.{◌≡◌, none, arith}
use mercury_relay.Config.Settings.{TorConfig, I2PConfig, SshConfig}
use mercury_relay.Transport.Manager.{
  Transport, Manager, start_tor, start_i2p, start_ssh, report, start,
}

module _ (T : Transport TorConfig) (I : Transport I2PConfig) (S : Transport SshConfig) where
  -- `Start` never reports an error, even if every transport that is enabled fails.
  pub start_reports : (m : Manager T I S) → (start T I S m).1 ≡ none
  unfolding start start_tor start_i2p start_ssh report
  start_reports m = ground arith
