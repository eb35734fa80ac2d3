-- ===== src/Queue/Rabbit/Resources.antt =====
-- The connections that `NewRabbitMQ` (internal/queue/rabbitmq.go) leaves open.
use mercury_relay.Prelude.{
  ℕ, ◌+◌, ◌-◌, ◌≡◌, refl, Option, none, some, List, [], ◌∷◌, ℤ, String, All, arith,
}
use mercury_relay.Queue.Rabbit.{
  Amqp, RabbitConfig, kind_exchange, queue_name_of, binding_key_of, all_kinds,
}
use mercury_relay.Queue.Rabbit.Kinds.{Directory}
use mercury_relay.Queue.Rabbit.Operations.{
  Step, run_steps, declare_kinds, declarations, set_up, open_and_set_up, new_rabbit_mq,
}

abbrev pub after_dial {ℓ} : {E : Type ℓ} → Option E → ℕ → ℕ
after_dial none n = n + 1
after_dial (some err) n = n

-- What the client promises of the number of its open connections: dialling opens one, unless it
-- fails, closing one leaves one less, and the other calls leave the number.
pub record IsAmqp (A : Amqp) : Type 0 where
  pub opened : A.State → ℕ
  pub dial_opens :
      (url : String) (st : A.State)
      → opened (A.dial url st).0 ≡ after_dial (A.dial url st).1 (opened st)
  pub open_channel_keeps : (st : A.State) → opened (A.open_channel st).0 ≡ opened st
  pub close_channel_keeps : (st : A.State) → opened (A.close_channel st).0 ≡ opened st
  pub close_connection_closes : (st : A.State) → opened (A.close_connection st).0 ≡ opened st - 1
  pub exchange_declare_keeps :
      (name kind : String) (st : A.State) → opened (A.exchange_declare name kind st).0 ≡ opened st
  pub queue_declare_keeps :
      (name : String) (options : Option (ℤ × String)) (st : A.State)
      → opened (A.queue_declare name options st).0 ≡ opened st
  pub queue_bind_keeps :
      (queue key exchange : String) (st : A.State)
      → opened (A.queue_bind queue key exchange st).0 ≡ opened st

module _ (A : Amqp) (laws : IsAmqp A) where
  open A use {State}
  open laws use {opened}

  Keeps : Step A → Type 0
  Keeps step = (st : State) → opened (step st).0 ≡ opened st

  run_steps-opened :
      (steps : List (Step A))
      → All Keeps steps
      → (st : State) → opened (run_steps A steps st).0 ≡ opened st
  unfolding run_steps Keeps
  run_steps-opened [] h st = refl
  run_steps-opened (step ∷ steps) h st =
      ground (arith, run_steps-opened steps h.1 (step st).0, h.0 st)

  declare_kinds-Keeps : (kinds : List ℤ) → All Keeps (declare_kinds A kinds)
  unfolding declare_kinds Keeps
  declare_kinds-Keeps [] = tt
  declare_kinds-Keeps (kind ∷ kinds) = (
    laws.queue_declare_keeps (queue_name_of kind) none,
    (
      laws.queue_bind_keeps (queue_name_of kind) (binding_key_of kind) kind_exchange,
      declare_kinds-Keeps kinds,
    ),
  )

  declarations-Keeps :
      (config : RabbitConfig) (dir : Directory) → All Keeps (declarations A config dir)
  unfolding declarations Keeps
  declarations-Keeps config dir = (
    laws.exchange_declare_keeps config.exchange_name "fanout",
    (
      laws.exchange_declare_keeps config.dlx_name "fanout",
      (
        laws.queue_declare_keeps config.queue_name
            (some (config.ttl_milliseconds, config.dlx_name)),
        (
          laws.queue_bind_keeps config.queue_name "" config.exchange_name,
          (laws.exchange_declare_keeps kind_exchange "topic", declare_kinds-Keeps (all_kinds dir)),
        ),
      ),
    ),
  )

  -- What `NewRabbitMQ` owes after the connection is there.
  after_set_up {ℓ} : {E : Type ℓ} → Option E → ℕ → ℕ
  after_set_up none n = n
  after_set_up (some err) n = n - 1

  set_up-opened :
      (config : RabbitConfig) (dir : Directory) (st : State)
      → opened (set_up A config dir st).0 ≡ after_set_up (set_up A config dir st).1 (opened st)
  unfolding set_up after_set_up
  set_up-opened config dir st =
      let steps = declarations A config dir in
      let declared = (run_steps A steps st).0 in
      ground (
        arith,
        run_steps-opened steps (declarations-Keeps config dir) st,
        laws.close_connection_closes (A.close_channel declared).0,
        laws.close_channel_keeps declared,
      )

  open_and_set_up-opened :
      (config : RabbitConfig) (dir : Directory) (st : State)
      → opened (open_and_set_up A config dir st).0
        ≡ after_set_up (open_and_set_up A config dir st).1 (opened st)
  unfolding open_and_set_up after_set_up
  open_and_set_up-opened config dir st =
      let opened_st = (A.open_channel st).0 in
      ground (
        arith,
        set_up-opened config dir opened_st,
        laws.open_channel_keeps st,
        laws.close_connection_closes opened_st,
      )

  -- `NewRabbitMQ` leaks no connection: it opens one where it succeeds, and where it fails, at
  -- whichever of its calls, as many are open as before.
  pub new_rabbit_mq-opened :
      (config : RabbitConfig) (dir : Directory) (st : State)
      → opened (new_rabbit_mq A config dir st).0
        ≡ after_dial (new_rabbit_mq A config dir st).1 (opened st)
  unfolding new_rabbit_mq after_set_up
  new_rabbit_mq-opened config dir st = ground (
    arith,
    laws.dial_opens config.url st,
    open_and_set_up-opened config dir (A.dial config.url st).0,
  )
