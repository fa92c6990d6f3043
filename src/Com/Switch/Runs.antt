-- ===== src/Com/Switch/Runs.antt =====
-- lib/com/comswitch/switch.go (NewConsumer): when it starts, and what runs then.
use Prim.Native.String.{String}
use external_task_worker.Base.{
  ℕ, zero, suc, ◌≡◌, ◌≢◌, refl, sym, ap, ◌∙◌, Bool, true, false, not, ◌&&◌, none, some, List, [],
  ◌∷◌, ◌++◌, ◌==◌, if◌then◌else◌, ◌⊎◌, subst, inl, inr, Bool-cases, get_elem?, eq_iff, arith,
  false≢true,
}
use external_task_worker.Base.Text.{has_prefix}
use external_task_worker.Result.{Err, failure, Result, ok, err}
use external_task_worker.Com.Switch.{
  ComConfig, Start, Running, http_server, response_reader, error_reader, is_set, is_http_handler,
  wanted_responses, wanted_errors, then_open, cancelled, open_reader, new_kafka_consumer,
  new_consumer, uses_http, uses_kafka, configured, new_consumer_lem,
}

-- a setting that is neither left empty nor switched off by a dash
abbrev pub IsGiven : String → Type 0
IsGiven s = (s ≢ "") × (s ≢ "-")

abbrev pub IsAddress : String → Type 0
IsAddress s = (has_prefix s "http://" ≡ true) ⊎ (has_prefix s "https://" ≡ true)

set_of : (s : String) → is_set s ≡ true → IsGiven s
set_of s h = (
  λ e. let is_empty = (eq_iff s "").1 e in ground arith,
  λ e. let is_dash = (eq_iff s "-").1 e in ground arith,
)

of_set : (s : String) → IsGiven s → is_set s ≡ true
of_set s (n, m) = elim (Bool-cases (s == "")) [
  | inl e ↦ absurd (n ((eq_iff s "").0 e))
  | inr e ↦ elim (Bool-cases (s == "-")) [
    | inl f ↦ absurd (m ((eq_iff s "-").0 f))
    | inr f ↦ rw (e, f) refl
  ]
]

-- a consumer is among those that run
abbrev pub IsRunning : Running → List Running → Type 0
IsRunning r running = (i : ℕ) × (get_elem? running i ≡ some r)

IsRunning-left : (r : Running) (xs ys : List Running) → IsRunning r xs → IsRunning r (xs ++ ys)
IsRunning-left r [] ys (i, h) = cc
IsRunning-left r (x ∷ xs) ys (zero, h) = (zero, h)
IsRunning-left r (x ∷ xs) ys (suc i, h) = let (j, e) = IsRunning-left r xs ys (i, h) in (suc j, e)

IsRunning-right : (r : Running) (xs ys : List Running) → IsRunning r ys → IsRunning r (xs ++ ys)
IsRunning-right r [] ys h = h
IsRunning-right r (x ∷ xs) ys h = let (j, e) = IsRunning-right r xs ys h in (suc j, e)

IsRunning-append :
    (r : Running) (xs ys : List Running) → IsRunning r (xs ++ ys) → IsRunning r xs ⊎ IsRunning r ys
IsRunning-append r [] ys h = inr h
IsRunning-append r (x ∷ xs) ys (zero, h) = inl (zero, h)
IsRunning-append r (x ∷ xs) ys (suc i, h) = elim (IsRunning-append r xs ys (i, h)) [
  | inl (j, e) ↦ inl (suc j, e)
  | inr (j, e) ↦ inr (j, e)
]

-- one consumer, if a test holds
abbrev when : Bool → Running → List Running
when b x = if b then x ∷ [] else []

IsRunning-when : (r x : Running) (b : Bool) → IsRunning r (when b x) → (b ≡ true) × (x ≡ r)
IsRunning-when r x true (zero, h) = (refl, cc)
IsRunning-when r x true (suc i, h) = cc
IsRunning-when r x false (i, h) = cc

when-IsRunning : (r x : Running) (b : Bool) → b ≡ true → x ≡ r → IsRunning r (when b x)
when-IsRunning r x b h e = rw h (zero, ap some e)

module _ (start : Start) (config : ComConfig) where
  abbrev pub AsksHttp : Type 0
  AsksHttp = IsGiven config.http_command_consumer_port × (config.disable_http_consumer ≡ false)

  abbrev pub AsksKafka : Type 0
  AsksKafka = IsGiven config.kafka_url × (config.disable_kafka_consumer ≡ false)

  -- the consumers that the configuration asks for; no topic of errors is read where it is an address
  abbrev pub IsAsked : Running → Type 0
  IsAsked http_server = AsksHttp
  IsAsked (response_reader topic) = AsksKafka × IsGiven topic × (config.response_topic ≡ topic)
  IsAsked (error_reader topic) =
      AsksKafka × IsGiven topic × ¬ IsAddress topic × (config.error_topic ≡ topic)

  of_both : (a b : Bool) → (a && b) ≡ true → (a ≡ true) × (b ≡ true)
  of_both a b h = (ground arith, ground arith)

  enabled : (b : Bool) → not b ≡ true → b ≡ false
  enabled b h = ground arith

  uses_http-AsksHttp : uses_http start config ≡ true → AsksHttp
  uses_http-AsksHttp h =
      let (a, b) = of_both _ _ h in (set_of config.http_command_consumer_port a, enabled _ b)

  AsksHttp-uses_http : AsksHttp → uses_http start config ≡ true
  AsksHttp-uses_http (a, b) = rw (of_set config.http_command_consumer_port a, b) refl

  uses_kafka-AsksKafka : uses_kafka start config ≡ true → AsksKafka
  uses_kafka-AsksKafka h = let (a, b) = of_both _ _ h in (set_of config.kafka_url a, enabled _ b)

  AsksKafka-uses_kafka : AsksKafka → uses_kafka start config ≡ true
  AsksKafka-uses_kafka (a, b) = rw (of_set config.kafka_url a, b) refl

  not_handler-IsAddress : (s : String) → not (is_http_handler s) ≡ true → ¬ IsAddress s
  unfolding is_http_handler
  not_handler-IsAddress s h (inl e) = ground arith
  not_handler-IsAddress s h (inr e) = ground arith

  IsAddress-is_http_handler : (s : String) → ¬ IsAddress s → not (is_http_handler s) ≡ true
  unfolding is_http_handler
  IsAddress-is_http_handler s n = elim (Bool-cases (has_prefix s "http://")) [
    | inl e ↦ absurd (n (inl e))
    | inr e ↦ elim (Bool-cases (has_prefix s "https://")) [
      | inl f ↦ absurd (n (inr f))
      | inr f ↦ rw (e, f) refl
    ]
  ]

  abbrev http : List Running
  http = when (uses_http start config) http_server

  http-IsAsked : (r : Running) → IsRunning r http → IsAsked r
  http-IsAsked r h =
      let (b, e) = IsRunning-when r http_server (uses_http start config) h in
      subst IsAsked e (uses_http-AsksHttp b)

  responses-IsAsked :
      AsksKafka → (r : Running) → IsRunning r (wanted_responses start config) → IsAsked r
  responses-IsAsked kafka r h =
      let (b, e) =
        IsRunning-when r (response_reader config.response_topic) (is_set config.response_topic) h in
      subst IsAsked e (kafka, set_of config.response_topic b, refl)

  errors-IsAsked : AsksKafka → (r : Running) → IsRunning r (wanted_errors start config) → IsAsked r
  errors-IsAsked kafka r h =
      let (b, e) =
        IsRunning-when r (error_reader config.error_topic)
          (is_set config.error_topic && not (is_http_handler config.error_topic)) h in
      let (a, n) = of_both _ _ b in
      subst IsAsked e
        (kafka, set_of config.error_topic a, not_handler-IsAddress config.error_topic n, refl)

  configured-IsAsked : (r : Running) → IsRunning r (configured start config) → IsAsked r
  configured-IsAsked r h = elim (Bool-cases (uses_kafka start config)) [
    | inl e ↦
        let h' : IsRunning r
            ((http ++ wanted_responses start config) ++ wanted_errors start config) =
          rw e at h in
        let kafka = uses_kafka-AsksKafka e in
        elim (IsRunning-append r (http ++ wanted_responses start config) _ h') [
          | inr late ↦ errors-IsAsked kafka r late
          | inl early ↦ elim (IsRunning-append r http (wanted_responses start config) early) [
            | inl first ↦ http-IsAsked r first
            | inr second ↦ responses-IsAsked kafka r second
          ]
        ]
    | inr e ↦ let h' : IsRunning r http = rw e at h in http-IsAsked r h'
  ]

  IsAsked-configured : (r : Running) → IsAsked r → IsRunning r (configured start config)
  IsAsked-configured http_server asked =
      let runs =
        when-IsRunning http_server http_server (uses_http start config) (AsksHttp-uses_http asked)
          refl in
      elim (Bool-cases (uses_kafka start config)) [
        | inl e ↦ rw e (
            IsRunning-left http_server (http ++ wanted_responses start config) _
              (IsRunning-left http_server http _ runs))
        | inr e ↦ rw e runs
      ]
  IsAsked-configured (response_reader topic) (kafka, set, same) =
      let wanted : is_set config.response_topic ≡ true = rw same (of_set topic set) in
      rw (AsksKafka-uses_kafka kafka) (
        IsRunning-left (response_reader topic) (http ++ wanted_responses start config) _ (
          IsRunning-right (response_reader topic) http (wanted_responses start config) (
            when-IsRunning (response_reader topic) (response_reader config.response_topic)
              (is_set config.response_topic) wanted (ap response_reader same))))
  IsAsked-configured (error_reader topic) (kafka, set, n, same) =
      let wanted : (is_set config.error_topic && not (is_http_handler config.error_topic)) ≡ true =
        rw (same, of_set topic set, IsAddress-is_http_handler topic n) refl in
      rw (AsksKafka-uses_kafka kafka) (
        IsRunning-right (error_reader topic) (http ++ wanted_responses start config)
          (wanted_errors start config)
          (when-IsRunning (error_reader topic) (error_reader config.error_topic)
            (is_set config.error_topic && not (is_http_handler config.error_topic)) wanted
            (ap error_reader same)))

  -- every wait can be parsed and every topic can be opened
  abbrev pub Opens : Type 0
  Opens =
      (start.parse_wait config.kafka_consumer_max_wait ≡ none)
      × ((topic : String) → start.open_topic topic ≡ none)

  open_reader-opens :
      Opens
      → (wanted : Bool) (topic : String) (reader : String → Running) (running : List Running)
      → (open_reader start config wanted topic reader running).0 ≡ ok tt
  open_reader-opens opens false topic reader running = refl
  open_reader-opens opens true topic reader running = rw (open_reader, opens.1 topic) refl

  then_open-opens :
      (p : Result (Unit {0}) × List Running)
      (next : List Running → Result (Unit {0}) × List Running)
      → p.0 ≡ ok tt
      → ((running : List Running) → (next running).0 ≡ ok tt)
      → (then_open start config p next).0 ≡ ok tt
  then_open-opens (ok _, running) next h g = g running
  then_open-opens (err e, running) next h g = cc

  cancelled-opens :
      (p : Result (Unit {0}) × List Running) → p.0 ≡ ok tt → (cancelled start config p).0 ≡ ok tt
  cancelled-opens (ok _, running) h = refl
  cancelled-opens (err e, running) h = cc

  new_kafka_consumer-opens :
      Opens → (running : List Running) → (new_kafka_consumer start config running).0 ≡ ok tt
  unfolding new_kafka_consumer
  new_kafka_consumer-opens opens running =
      rw (new_kafka_consumer, opens.0)
        (then_open-opens _ _
          (open_reader-opens opens (is_set config.response_topic) config.response_topic
            response_reader running)
          (λ r.
            open_reader-opens opens
              (is_set config.error_topic && not (is_http_handler config.error_topic))
              config.error_topic error_reader r))

  starts : Opens → AsksHttp ⊎ AsksKafka → (new_consumer start config).0 ≡ ok tt
  unfolding new_consumer
  starts opens asked = elim (Bool-cases (uses_kafka start config)) [
    | inl e ↦ rw e (
        cancelled-opens (new_kafka_consumer start config http)
          (new_kafka_consumer-opens opens http))
    | inr e ↦ elim asked [
      | inl asks ↦ rw (e, AsksHttp-uses_http asks) refl
      | inr asks ↦ absurd (false≢true (sym e ∙ AsksKafka-uses_kafka asks))
    ]
  ]

  asks_some : (new_consumer start config).0 ≡ ok tt → AsksHttp ⊎ AsksKafka
  unfolding new_consumer
  asks_some h = elim (Bool-cases (uses_kafka start config)) [
    | inl e ↦ inr (uses_kafka-AsksKafka e)
    | inr e ↦ elim (Bool-cases (uses_http start config)) [
      | inl f ↦ inl (uses_http-AsksHttp f)
      | inr f ↦ let h' : err (failure "no response consumer set") ≡ ok tt = rw (e, f) at h in cc
    ]
  ]

  -- NewConsumer returns no error only if the configuration asks for the HTTP server or for Kafka; and it
  -- returns none if it asks for one of them, the wait can be parsed and every topic can be opened.
  -- Without an error, exactly the consumers run that the configuration asks for: the HTTP server where its
  -- port is set and it is not disabled, and, where Kafka's address is set and it is not disabled, a
  -- reader of the topic of responses and one of the topic of errors, each where the topic is set, and
  -- the last only where it is no HTTP address. With an error, none runs.
  pub new_consumer_runs :
      ((new_consumer start config).0 ≡ ok tt → AsksHttp ⊎ AsksKafka)
      × (Opens → AsksHttp ⊎ AsksKafka → (new_consumer start config).0 ≡ ok tt)
      × ((new_consumer start config).0 ≡ ok tt
          → (r : Running)
          → (IsRunning r (new_consumer start config).1 → IsAsked r)
            × (IsAsked r → IsRunning r (new_consumer start config).1))
      × ((e : Err) → (new_consumer start config).0 ≡ err e → (new_consumer start config).1 ≡ [])
  new_consumer_runs = (
    asks_some,
    starts,
    λ good r. elim (new_consumer_lem start config) [
      | inl (e, fails) ↦ let no : ok tt ≡ err e = sym good ∙ ap (λ p. p.0) fails in absurd cc
      | inr all ↦ rw all (configured-IsAsked r, IsAsked-configured r)
    ],
    λ e bad. elim (new_consumer_lem start config) [
      | inl (x, fails) ↦ rw fails refl
      | inr all ↦ let no : err e ≡ ok tt = sym bad ∙ ap (λ p. p.0) all in absurd cc
    ],
  )
