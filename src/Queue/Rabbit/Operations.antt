-- ===== src/Queue/Rabbit/Operations.antt =====
-- internal/queue/rabbitmq.go: connecting, publishing, consuming and counting, over the broker's
-- client.
use mercury_relay.Prelude.{
  ℕ, String, ◌⊎◌, inl, inr, Option, none, some, List, [], ◌∷◌, ℤ, eq_ℤ, if◌then◌else◌,
}
use mercury_relay.Models.Event.{Event}
use mercury_relay.Models.Codec.{Codec}
use mercury_relay.Queue.{Queue}
use mercury_relay.Queue.Rabbit.{
  Amqp, Publishing, RabbitConfig, kind_exchange, queue_name_of, binding_key_of, all_kinds,
  routing_key, consumed_queue, inspected_queue,
}
use mercury_relay.Queue.Rabbit.Kinds.{Directory}

module _ (A : Amqp) where
  open A use {State, Error, Delivery}

  -- A call that may fail.
  abbrev pub Step : Type 0
  Step = State → State × Option Error

  -- Steps in order, up to the first that fails.
  unfoldable pub run_steps : List Step → Step
  run_steps [] st = (st, none)
  run_steps (step ∷ steps) st =
      let (st, failure) = step st in
      elim failure [ none ↦ run_steps steps st | some err ↦ (st, some err) ]

  -- The loop over the kinds of `NewRabbitMQ`.
  unfoldable pub declare_kinds : List ℤ → List Step
  declare_kinds [] = []
  declare_kinds (kind ∷ kinds) =
      A.queue_declare (queue_name_of kind) none
      ∷ A.queue_bind (queue_name_of kind) (binding_key_of kind) kind_exchange
      ∷ declare_kinds kinds

  -- The declarations of `NewRabbitMQ`, in order.
  unfoldable pub declarations : RabbitConfig → Directory → List Step
  unfolding declare_kinds
  declarations config dir =
      A.exchange_declare config.exchange_name "fanout"
      ∷ A.exchange_declare config.dlx_name "fanout"
      ∷ A.queue_declare config.queue_name (some (config.ttl_milliseconds, config.dlx_name))
      ∷ A.queue_bind config.queue_name "" config.exchange_name
      ∷ A.exchange_declare kind_exchange "topic"
      ∷ declare_kinds (all_kinds dir)

  -- `NewRabbitMQ`: what fails closes what was opened, in the reverse order.
  unfoldable pub set_up : RabbitConfig → Directory → Step
  unfolding run_steps
  set_up config dir st =
      let (declared, failure) = run_steps (declarations config dir) st in
      elim failure [
        | none ↦ (declared, none)
        | some err ↦ ((A.close_connection (A.close_channel declared).0).0, some err)
      ]

  unfoldable pub open_and_set_up : RabbitConfig → Directory → Step
  unfolding set_up
  open_and_set_up config dir st =
      let (opened, failure) = A.open_channel st in
      elim failure [
        | none ↦ set_up config dir opened
        | some err ↦ ((A.close_connection opened).0, some err)
      ]

  unfoldable pub new_rabbit_mq : RabbitConfig → Directory → Step
  unfolding open_and_set_up
  new_rabbit_mq config dir st =
      let (dialled, failure) = A.dial config.url st in
      elim failure [ none ↦ open_and_set_up config dir dialled | some err ↦ (dialled, some err) ]

  unfoldable pub close : Step
  close st = A.close_connection (A.close_channel st).0

  pub data PublishError : Type 0 where
    marshal_failed : PublishError
    main_failed kind_failed : Error → PublishError

  module _ {F : Type 0} (codec : Codec F) where
    abbrev pub publishing : String → ℕ → Event F → Publishing
    publishing body now event = record { body = body; timestamp = now; message_id = event.id }

    -- `PublishToKindTopic`; the clock is read for the validation and for the message.
    unfoldable pub publish_to_kind_topic :
        Directory → ℕ → ℕ → Event F → State → State × Option PublishError
    publish_to_kind_topic dir now later event st = elim (codec.marshal event) [
      | none ↦ (st, some marshal_failed)
      | some body ↦
          let (st, failure) =
            A.publish kind_exchange (routing_key dir now event) (publishing body later event) st in
          elim failure [ none ↦ (st, none) | some err ↦ (st, some (kind_failed err)) ]
    ]

    unfoldable pub publish_event :
        RabbitConfig → Directory → ℕ → ℕ → ℕ → Event F → State → State × Option PublishError
    unfolding publish_to_kind_topic
    publish_event config dir first now later event st = elim (codec.marshal event) [
      | none ↦ (st, some marshal_failed)
      | some body ↦
          let (st, failure) = A.publish config.exchange_name "" (publishing body first event) st in
          elim failure [
            | none ↦ publish_to_kind_topic dir now later event st
            | some err ↦ (st, some (main_failed err))
          ]
    ]

    -- One message of a queue, acknowledged, or rejected where it is no event.
    unfoldable pub consume_from : String → State → State × (Error ⊎ List (Event F))
    consume_from queue st =
        let (st, got) = A.get queue st in
        elim got [
          | inl err ↦ (st, inl err)
          | inr none ↦ (st, inr [])
          | inr (some msg) ↦ elim (codec.unmarshal (A.body_of msg)) [
            | none ↦ (A.nack msg st, inr [])
            | some event ↦ (A.ack msg st, inr (event ∷ []))
          ]
        ]

    unfoldable pub consume_events : RabbitConfig → State → State × (Error ⊎ List (Event F))
    unfolding consume_from
    consume_events config st = consume_from config.queue_name st

    unfoldable pub consume_events_by_kind : Directory → ℤ → State → State × (Error ⊎ List (Event F))
    unfolding consume_from
    consume_events_by_kind dir kind st = consume_from (consumed_queue dir kind) st

  unfoldable pub get_queue_stats : RabbitConfig → State → Error ⊎ ℕ
  get_queue_stats config st = A.queue_inspect config.queue_name st

  unfoldable pub get_kind_queue_stats : Directory → ℤ → State → Error ⊎ ℕ
  get_kind_queue_stats dir kind st = A.queue_inspect (inspected_queue dir kind) st

  -- `stats[kind] = count`
  unfoldable pub set_stat : ℤ → ℕ → List (ℤ × ℕ) → List (ℤ × ℕ)
  set_stat kind count [] = (kind, count) ∷ []
  set_stat kind count ((k, c) ∷ stats) =
      let rest = set_stat kind count stats in
      if eq_ℤ k kind then (kind, count) ∷ stats else (k, c) ∷ rest

  -- The loop of `GetAllKindQueueStats` over the kinds, and its two last steps likewise.
  unfoldable pub stats_of_kinds : Directory → List ℤ → State → List (ℤ × ℕ) → Error ⊎ List (ℤ × ℕ)
  unfolding get_kind_queue_stats set_stat
  stats_of_kinds dir [] st stats = inr stats
  stats_of_kinds dir (kind ∷ kinds) st stats = elim (get_kind_queue_stats dir kind st) [
    | inl err ↦ inl err
    | inr count ↦ stats_of_kinds dir kinds st (set_stat kind count stats)
  ]

  unfoldable pub get_all_kind_queue_stats : Directory → State → Error ⊎ List (ℤ × ℕ)
  unfolding stats_of_kinds
  get_all_kind_queue_stats dir st = stats_of_kinds dir (all_kinds dir) st []

  -- RabbitMQ as a queue, at one reading of the clock and of the directory.
  abbrev pub rabbit_queue : {F : Type 0} → Codec F → RabbitConfig → Directory → ℕ → Queue F
  rabbit_queue codec config dir now = record {
    State = State;
    Error = PublishError ⊎ Error;
    publish_event = λ event st.
        let (st, failure) = publish_event codec config dir now now now event st in
        (st, elim failure [ none ↦ none | some err ↦ some (inl err) ]);
    consume_events = λ st.
        let (st, got) = consume_events codec config st in
        (st, elim got [ inl err ↦ inl (inr err) | inr events ↦ inr events ]);
    get_queue_stats =
        λ st. elim (get_queue_stats config st) [ inl err ↦ inl (inr err) | inr n ↦ inr n ];
    close = λ st.
        let (st, failure) = close st in
        (st, elim failure [ none ↦ none | some err ↦ some (inr err) ]);
    consume_events_by_kind = λ kind st.
        let (st, got) = consume_events_by_kind codec dir kind st in
        (st, elim got [ inl err ↦ inl (inr err) | inr events ↦ inr events ]);
    get_kind_queue_stats = λ kind st. elim (get_kind_queue_stats dir kind st) [
      | inl err ↦ inl (inr err)
      | inr n ↦ inr n
    ];
    get_all_kind_queue_stats =
        λ st. elim (get_all_kind_queue_stats dir st) [ inl err ↦ inl (inr err) | inr n ↦ inr n ];
  }
