-- ===== src/Config/Loaded.antt =====
-- What a loaded configuration holds (internal/config/config.go).
use mercury_relay.Prelude.{
  ℕ, suc, List, String, str_eq, eq_iff, ◌≡◌, ◌≢◌, ◌⊎◌, inl, refl, Bool, true, false, ◌||◌, inr, ℤ,
  pos, ◌≤ℤ◌, arith, Option, Bool-cases, Option-cases, ◌∷◌, [],
}
use mercury_relay.Prelude.Float.{Float}
use mercury_relay.Config.Settings.{
  ServerConfig, AccessConfig, QualityConfig, RabbitMqConfig, SshConfig, Config,
}
use mercury_relay.Config.Defaults.{
  or_text, or_int, or_true, or_admins, or_port, or_public_read, or_private_write, default_server,
  default_access, default_rabbit_mq, default_ssh, default_key_storage, default_connection,
  default_terminal_interface, default_authentication, default_quality, set_defaults,
}
use mercury_relay.Config.Overrides.{System, apply_env_overrides, override_ssh, override_access}
use mercury_relay.Config.{complete, load}

or_text-or_text : (default s : String) → or_text default (or_text default s) ≡ or_text default s
or_text-or_text default s = ground arith

or_text-ne : (default s : String) → str_eq default "" ≡ false → or_text default s ≢ ""
or_text-ne default s h = ground (arith, eq_iff s "", eq_iff default "")

or_admins-ne : (npubs : List String) → or_admins npubs ≢ []
or_admins-ne npubs = ground arith

or_int-or_int : (default n : ℤ) → or_int default (or_int default n) ≡ or_int default n
or_int-or_int default n = ground arith

or_admins-or_admins : (npubs : List String) → or_admins (or_admins npubs) ≡ or_admins npubs
or_admins-or_admins [] = refl
or_admins-or_admins (npub ∷ npubs) = refl

or_true-or_true : (b : Bool) → or_true (or_true b) ≡ or_true b
or_true-or_true b = ground arith

or_port-or_port :
    (k : ℕ) (n : ℤ) → or_port (pos (suc k)) (or_port (pos (suc k)) n) ≡ or_port (pos (suc k)) n
or_port-or_port k n = ground arith

or_public_read-twice :
    (r w : Bool) → or_public_read (or_public_read r w) (or_private_write r w) ≡ or_public_read r w
or_public_read-twice r w = ground arith

or_private_write-twice :
    (r w : Bool)
    → or_private_write (or_public_read r w) (or_private_write r w) ≡ or_private_write r w
or_private_write-twice r w = ground arith

ruleset twice = (or_text-or_text, or_int-or_int, or_admins-or_admins, or_true-or_true)

default_server-twice : (s : ServerConfig) → default_server (default_server s) ≡ default_server s
unfolding default_server
default_server-twice s = rw (or_port-or_port 8079 s.port) (simp twice)

default_ssh-twice : (s : SshConfig) → default_ssh (default_ssh s) ≡ default_ssh s
unfolding default_ssh default_key_storage default_connection default_terminal_interface
    default_authentication
default_ssh-twice s = simp twice

default_access-twice : (a : AccessConfig) → default_access (default_access a) ≡ default_access a
unfolding default_access
default_access-twice a =
    rw
      (
        or_public_read-twice a.allow_public_read a.allow_public_write,
        or_private_write-twice a.allow_public_read a.allow_public_write,
      )
      (simp twice)

default_rabbit_mq-twice :
    (r : RabbitMqConfig) → default_rabbit_mq (default_rabbit_mq r) ≡ default_rabbit_mq r
unfolding default_rabbit_mq
default_rabbit_mq-twice r = simp twice

module _ (R : Float) (is_zero : R.F → Bool) where
  open R use {F, tenths, lt}

  -- What `validate` asks of a configuration before the defaults.
  pub record IsAcceptable (c : Config F) : Type 0 where
    pub port : c.server.port ≤ℤ pos 65535
    pub read_timeout : pos 0 ≤ℤ c.server.read_timeout
    pub write_timeout : pos 0 ≤ℤ c.server.write_timeout
    pub update_interval : pos 0 ≤ℤ c.access.update_interval
    pub max_content_length : pos 0 ≤ℤ c.quality.max_content_length
    pub rate_limit_per_minute : pos 0 ≤ℤ c.quality.rate_limit_per_minute
    pub spam_threshold :
        (is_zero c.quality.spam_threshold ≡ true)
        ⊎ ((lt c.quality.spam_threshold (tenths 0) || lt (tenths 10) c.quality.spam_threshold)
            ≡ false)

  default_quality-twice :
      is_zero (tenths 7) ≡ false
      → (q : QualityConfig F)
      → default_quality R is_zero (default_quality R is_zero q) ≡ default_quality R is_zero q
  unfolding default_quality
  default_quality-twice h q = elim (Bool-cases (is_zero q.spam_threshold)) [
    | inl e ↦ rw (e, h) (simp twice)
    | inr e ↦ rw (e, e) (simp twice)
  ]

  -- Setting the defaults twice is setting them once, where 0.7 is not zero.
  pub set_defaults-set_defaults :
      is_zero (tenths 7) ≡ false
      → (c : Config F)
      → set_defaults R is_zero (set_defaults R is_zero c) ≡ set_defaults R is_zero c
  unfolding set_defaults
  set_defaults-set_defaults h c =
      rw
        (
          default_server-twice,
          default_access-twice,
          default_quality-twice h,
          default_rabbit_mq-twice,
          default_ssh-twice,
        )
        refl

  module _ (sys : System) where
    load-complete :
        (read_file : String → Option String) (unmarshal : String → Option (Config F))
        (zero c : Config F) (path : String)
        → load R is_zero sys read_file unmarshal zero path ≡ inr c
        → (before : Config F) × (c ≡ complete R is_zero sys before)
    unfolding load
    load-complete read_file unmarshal zero c path h = elim (Bool-cases (str_eq path "")) [
      | inl e ↦ (zero, ground arith)
      | inr e ↦ elim (Option-cases (read_file path)) [
        | inl f ↦ absurd (ground arith)
        | inr (text, f) ↦ elim (Option-cases (unmarshal text)) [
          | inl g ↦ absurd (ground arith)
          | inr (before, g) ↦ (before, ground arith)
        ]
      ]
    ]

    -- What no file can turn off.
    pub record IsGuarded (c : Config F) : Type 0 where
      pub require_auth : c.ssh.authentication.require_auth ≡ true
      pub allow_localhost : c.ssh.authentication.allow_localhost ≡ true
      pub api_key : c.ssh.authentication.api_key ≢ ""
      pub basic_auth_user : c.ssh.authentication.basic_auth_user ≢ ""
      pub basic_auth_pass : c.ssh.authentication.basic_auth_pass ≢ ""
      pub is_public :
          sys.getenv "ACCESS_PUBLIC_READ" ≡ ""
          → sys.getenv "ACCESS_PUBLIC_WRITE" ≡ ""
          → (c.access.allow_public_read || c.access.allow_public_write) ≡ true
      pub has_admin : sys.getenv "MERCURY_ADMIN_NPUBS" ≡ "" → c.access.admin_npubs ≢ []

    complete-IsGuarded : (c : Config F) → IsGuarded (complete R is_zero sys c)
    unfolding complete apply_env_overrides override_ssh override_access set_defaults default_ssh
        default_authentication default_access
    complete-IsGuarded c = record {
      require_auth = ground arith;
      allow_localhost = ground arith;
      api_key = or_text-ne "admin-ssh-key-2024" c.ssh.authentication.api_key refl;
      basic_auth_user = or_text-ne "admin" c.ssh.authentication.basic_auth_user refl;
      basic_auth_pass = or_text-ne "mercury-ssh-2024" c.ssh.authentication.basic_auth_pass refl;
      is_public = λ h k. rw (h, k) (ground arith);
      has_admin = λ h. rw h (or_admins-ne c.access.admin_npubs);
    }

    -- Every configuration that loads requires authentication on SSH, lets localhost through and has
    -- a key and a password there, whatever the file says; and it lets the public read or write, and
    -- has an admin, unless the environment says otherwise.
    pub load-IsGuarded :
        (read_file : String → Option String) (unmarshal : String → Option (Config F))
        (zero c : Config F) (path : String)
        → load R is_zero sys read_file unmarshal zero path ≡ inr c
        → IsGuarded c
    load-IsGuarded read_file unmarshal zero c path h =
        let (before, e) = load-complete read_file unmarshal zero c path h in
        rw e (complete-IsGuarded before)
