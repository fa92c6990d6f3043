-- ===== src/Com/Switch.antt =====
-- lib/com/comswitch/switch.go and lib/com/kafka/kafka.go (NewConsumer): which consumers run, and which
-- producer takes a message. Whether a reader of Kafka can be opened is a parameter.
pub mod Runs
use Prim.Native.String.{String}
use external_task_worker.Base.{
  ◌≡◌, refl, sym, ap, Bool, true, false, not, ◌&&◌, ◌||◌, Option, none, some, List, [], ◌∷◌, ◌++◌,
  ◌==◌, if◌then◌else◌, ◌⊎◌, inl, inr, Bool-cases, Option-cases,
}
use external_task_worker.Base.Text.{has_prefix}
use external_task_worker.Result.{Err, failure, Result, ok, err}

-- the fields of util.Config that are read here
pub record ComConfig : Type 0 where
  pub http_command_consumer_port : String
  pub http_command_consumer_sync : Bool
  pub disable_http_consumer : Bool
  pub kafka_url : String
  pub disable_kafka_consumer : Bool
  pub kafka_consumer_max_wait : String
  pub response_topic : String
  pub error_topic : String

unfoldable pub is_http_handler : String → Bool
is_http_handler handler = has_prefix handler "http://" || has_prefix handler "https://"

pub data Child : Type 0 where
  rest_producer kafka_producer : Child

-- getChildProducer
unfoldable pub get_child_producer : String → Child
unfolding is_http_handler
get_child_producer topic = if is_http_handler topic then rest_producer else kafka_producer

-- a consumer that runs until its context ends
pub data Running : Type 0 where
  http_server : Running
  response_reader error_reader : String → Running

abbrev pub is_set : String → Bool
is_set s = not (s == "") && not (s == "-")

-- what starting a consumer may answer: `time.ParseDuration` of the wait, and opening a reader of a topic
pub record Start : Type 0 where
  pub parse_wait : String → Option Err
  pub open_topic : String → Option Err

module _ (start : Start) (config : ComConfig) where
  -- one reader of kafka.NewConsumer: the consumers so far are given on
  abbrev pub open_reader :
      Bool → String → (String → Running) → List Running → Result (Unit {0}) × List Running
  open_reader false topic reader running = (ok tt, running)
  open_reader true topic reader running = elim (start.open_topic topic) [
    | some e ↦ (err e, running)
    | none ↦ (ok tt, running ++ reader topic ∷ [])
  ]

  abbrev pub then_open :
      Result (Unit {0}) × List Running
      → (List Running → Result (Unit {0}) × List Running)
      → Result (Unit {0}) × List Running
  then_open (err e, running) next = (err e, running)
  then_open (ok _, running) next = next running

  -- kafka.Factory.NewConsumer
  unfoldable pub new_kafka_consumer : List Running → Result (Unit {0}) × List Running
  unfolding is_http_handler
  new_kafka_consumer running = elim (start.parse_wait config.kafka_consumer_max_wait) [
    | some e ↦ (err (failure "unable to parse KafkaConsumerMaxWait as duration"), running)
    | none ↦
        then_open
          (open_reader (is_set config.response_topic) config.response_topic response_reader running)
          (open_reader (is_set config.error_topic && not (is_http_handler config.error_topic))
            config.error_topic error_reader)
  ]

  abbrev pub uses_http : Bool
  uses_http = is_set config.http_command_consumer_port && not config.disable_http_consumer

  abbrev pub uses_kafka : Bool
  uses_kafka = is_set config.kafka_url && not config.disable_kafka_consumer

  -- `defer`: an error ends the context of every consumer that was started
  abbrev pub cancelled : Result (Unit {0}) × List Running → Result (Unit {0}) × List Running
  cancelled (err e, running) = (err e, [])
  cancelled (ok _, running) = (ok tt, running)

  -- FactoryType.NewConsumer, and the consumers that run afterwards; starting the HTTP server does not fail
  unfoldable pub new_consumer : Result (Unit {0}) × List Running
  unfolding new_kafka_consumer
  new_consumer =
      let http = if uses_http then http_server ∷ [] else [] in
      cancelled (
        if uses_kafka
        then new_kafka_consumer http
        else if uses_http
        then (ok tt, http)
        else (err (failure "no response consumer set"), []))

  abbrev pub wanted_responses : List Running
  wanted_responses =
      if is_set config.response_topic then response_reader config.response_topic ∷ [] else []

  -- an address of errors is no topic
  abbrev pub wanted_errors : List Running
  wanted_errors =
      if is_set config.error_topic && not (is_http_handler config.error_topic)
      then error_reader config.error_topic ∷ []
      else []

  -- The consumers that the configuration asks for, in the order in which they start.
  abbrev pub configured : List Running
  configured =
      let http = if uses_http then http_server ∷ [] else [] in
      if uses_kafka then (http ++ wanted_responses) ++ wanted_errors else http

  append_nil : (xs : List Running) → xs ++ [] ≡ xs
  append_nil [] = refl
  append_nil (x ∷ xs) = ap (λ l. x ∷ l) (append_nil xs)

  open_reader_lem :
      (wanted : Bool) (topic : String) (reader : String → Running) (running : List Running)
      → ((e : Err) × ((open_reader wanted topic reader running).0 ≡ err e))
        ⊎ (open_reader wanted topic reader running
            ≡ (ok tt, running ++ (if wanted then reader topic ∷ [] else [])))
  open_reader_lem false topic reader running = inr (ap (λ l. (ok tt, l)) (sym (append_nil running)))
  open_reader_lem true topic reader running = elim (Option-cases (start.open_topic topic)) [
    | inl e ↦ inr (rw (open_reader, e) refl)
    | inr (x, e) ↦ inl (x, rw (open_reader, e) refl)
  ]

  then_open-err :
      (p : Result (Unit {0}) × List Running)
      (next : List Running → Result (Unit {0}) × List Running) (e : Err)
      → p.0 ≡ err e
      → (then_open p next).0 ≡ err e
  then_open-err (ok _, running) next e h = cc
  then_open-err (err x, running) next e h = h

  new_kafka_consumer_lem :
      (running : List Running)
      → ((e : Err) × ((new_kafka_consumer running).0 ≡ err e))
        ⊎ (new_kafka_consumer running ≡ (ok tt, (running ++ wanted_responses) ++ wanted_errors))
  unfolding new_kafka_consumer
  new_kafka_consumer_lem running =
      elim (Option-cases (start.parse_wait config.kafka_consumer_max_wait)) [
        | inr (x, e) ↦ inl (
          failure "unable to parse KafkaConsumerMaxWait as duration",
          rw (new_kafka_consumer, e) refl,
        )
        | inl e ↦
            let first =
              open_reader (is_set config.response_topic) config.response_topic response_reader
                running in
            let errors = is_set config.error_topic && not (is_http_handler config.error_topic) in
            elim (open_reader_lem (is_set config.response_topic) config.response_topic
              response_reader running) [
                | inl (x, f) ↦ inl (x, rw (new_kafka_consumer, e) (then_open-err first _ x f))
                | inr f ↦
                    elim (open_reader_lem errors config.error_topic error_reader
                      (running ++ wanted_responses)) [
                        | inl (x, g) ↦ inl (x, rw (new_kafka_consumer, e, f) g)
                        | inr g ↦ inr (rw (new_kafka_consumer, e, f) g)
                      ]
              ]
      ]

  cancelled-err :
      (p : Result (Unit {0}) × List Running) (e : Err) → p.0 ≡ err e → cancelled p ≡ (err e, [])
  cancelled-err (ok _, running) e h = cc
  cancelled-err (err x, running) e h = ap (λ r. (r, [])) h

  pub new_consumer_lem :
      ((e : Err) × (new_consumer ≡ (err e, []))) ⊎ (new_consumer ≡ (ok tt, configured))
  unfolding new_consumer new_kafka_consumer
  new_consumer_lem = elim (Bool-cases uses_kafka) [
    | inl e ↦
        let http = if uses_http then http_server ∷ [] else [] in
        elim (new_kafka_consumer_lem http) [
          | inl (x, f) ↦ inl (x, rw e (cancelled-err (new_kafka_consumer http) x f))
          | inr f ↦ inr (rw (e, f) refl)
        ]
    | inr e ↦ elim (Bool-cases uses_http) [
      | inl f ↦ inr (rw (e, f) refl)
      | inr f ↦ inl (failure "no response consumer set", rw (e, f) refl)
    ]
  ]
