-- ===== src/Transport/Manager.antt =====
-- internal/transport/manager.go. A transport is a parameter: what its constructor, its `Start` and
-- its `Stop` do, over a state of its own.
use mercury_relay.Prelude.{
  String, Bool, true, false, ◌&&◌, Option, none, some, List, [], ◌∷◌, ◌++◌, if◌then◌else◌,
}
use mercury_relay.Config.Settings.{TorConfig, I2PConfig, SshConfig}

pub record Transport (Config : Type 0) : Type 1 where
  pub State : Type 0
  pub Error : Type 0
  pub create : Config → State
  pub start : State → State × Option Error
  pub stop : State → State × Option Error
  pub get_address : State → String
  pub is_healthy : State → Bool

module _ (T : Transport TorConfig) (I : Transport I2PConfig) (S : Transport SshConfig) where
  -- An error of one of the transports.
  pub data TransportError : Type 0 where
    tor_failed : T.Error → TransportError
    i2p_failed : I.Error → TransportError
    ssh_failed : S.Error → TransportError

  pub data ManagerError : Type 0 where
    all_failed stop_errors : List TransportError → ManagerError

  pub record Manager : Type 0 where
    pub tor_config : TorConfig
    pub i2p_config : I2PConfig
    pub ssh_config : SshConfig
    pub tor : Option T.State
    pub i2p : Option I.State
    pub ssh : Option S.State

  unfoldable pub new_manager : TorConfig → I2PConfig → SshConfig → Manager
  new_manager tor_config i2p_config ssh_config = record {
    tor_config = tor_config;
    i2p_config = i2p_config;
    ssh_config = ssh_config;
    tor = none;
    i2p = none;
    ssh = none;
  }

  abbrev pub logged : {E : Type 0} → (E → TransportError) → Option E → List TransportError
  logged wrap none = []
  logged wrap (some err) = wrap err ∷ []

  -- The transport is kept whether it starts or not; its error is appended.
  unfoldable pub start_tor : Manager × List TransportError → Manager × List TransportError
  start_tor (m, errors) =
      if m.tor_config.enabled
      then (let (t, failure) = T.start (T.create m.tor_config) in
          (record m { tor = some t }, errors ++ logged tor_failed failure))
      else (m, errors)

  unfoldable pub start_i2p : Manager × List TransportError → Manager × List TransportError
  start_i2p (m, errors) =
      if m.i2p_config.enabled
      then (let (i, failure) = I.start (I.create m.i2p_config) in
          (record m { i2p = some i }, errors ++ logged i2p_failed failure))
      else (m, errors)

  unfoldable pub start_ssh : Manager × List TransportError → Manager × List TransportError
  start_ssh (m, errors) =
      if m.ssh_config.enabled
      then (let (s, failure) = S.start (S.create m.ssh_config) in
          (record m { ssh = some s }, errors ++ logged ssh_failed failure))
      else (m, errors)

  abbrev pub is_none : {A : Type 0} → Option A → Bool
  is_none none = true
  is_none (some a) = false

  -- The end of `Start`.
  unfoldable pub report : Manager × List TransportError → Manager × Option ManagerError
  report (m, []) = (m, none)
  report (m, err ∷ errors) =
      if is_none m.tor && is_none m.i2p && is_none m.ssh
      then (m, some (all_failed (err ∷ errors)))
      else (m, none)

  unfoldable pub start : Manager → Manager × Option ManagerError
  unfolding start_tor start_i2p start_ssh report
  start m = report (start_ssh (start_i2p (start_tor (m, []))))

  -- `Stop` of one transport, if there is one.
  abbrev pub stop_one :
      {A E : Type 0}
      → (A → A × Option E)
      → (E → TransportError)
      → Option A
      → Option A × List TransportError
  stop_one halt wrap none = (none, [])
  stop_one halt wrap (some t) = (some (halt t).0, logged wrap (halt t).1)

  abbrev pub joined : List TransportError → Option ManagerError
  joined [] = none
  joined (err ∷ errors) = some (stop_errors (err ∷ errors))

  -- All are stopped, whatever fails.
  unfoldable pub stop : Manager → Manager × Option ManagerError
  stop m =
      let (tor, tor_errors) = stop_one (λ t. T.stop t) tor_failed m.tor in
      let (i2p, i2p_errors) = stop_one (λ i. I.stop i) i2p_failed m.i2p in
      let (ssh, ssh_errors) = stop_one (λ s. S.stop s) ssh_failed m.ssh in
      (
        record m { tor = tor; i2p = i2p; ssh = ssh },
        joined (tor_errors ++ i2p_errors ++ ssh_errors),
      )

  unfoldable pub get_tor_address : Manager → String
  get_tor_address m = elim m.tor [ none ↦ "" | some t ↦ T.get_address t ]

  unfoldable pub get_i2p_address : Manager → String
  get_i2p_address m = elim m.i2p [ none ↦ "" | some i ↦ I.get_address i ]

  unfoldable pub get_ssh_address : Manager → String
  get_ssh_address m = elim m.ssh [ none ↦ "" | some s ↦ S.get_address s ]

  unfoldable pub is_tor_healthy : Manager → Bool
  is_tor_healthy m = elim m.tor [ none ↦ false | some t ↦ T.is_healthy t ]

  unfoldable pub is_i2p_healthy : Manager → Bool
  is_i2p_healthy m = elim m.i2p [ none ↦ false | some i ↦ I.is_healthy i ]

  unfoldable pub is_ssh_healthy : Manager → Bool
  is_ssh_healthy m = elim m.ssh [ none ↦ false | some s ↦ S.is_healthy s ]
