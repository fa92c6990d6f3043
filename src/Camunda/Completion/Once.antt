-- ===== src/Camunda/Completion/Once.antt =====
-- A task is completed once while the cache remembers it, with two requests at most.
use Prim.Native.String.{◌++◌ as ◌++ᵗ◌}
use external_task_worker.Base.{
  ℕ, ◌<◌, ◌≤◌, ◌⊎◌, false, List, if◌then◌else◌, leb, ◌&&◌, not, ◌==◌, String, ◌≡◌, ◌≢◌, refl, ◌∙◌,
  sym, true, [], ◌∷◌, ◌++◌, inl, inr, arith, Bool-cases,
}
use external_task_worker.Base.Text.{itoa}
use external_task_worker.Result.{failure, Result, ok, err}
use external_task_worker.Model.{Value}
use external_task_worker.Messages.{TaskInfo, Incident}
use external_task_worker.Camunda.Completion.{
  Camunda, Engine, Answer, status, no_answer, Call, incident_by_http, incident_by_kafka, IsCache,
  CompleteRequest, completes, Sent, sent, not_sent, unable, sent_of, complete_task, post_completion,
  topic_of, report_error, send, request_of, record_call, first_try, second_try,
}

module _ {C : Type 0} (this : Camunda C) (cache : IsCache this.task_complete_cache) where
  remembered :
      (info : TaskInfo) (name : String) (output : Value) (w : Engine C)
      → (complete_task this info name output w).0 ≡ ok tt
      → this.task_complete_cache.has (complete_task this info name output w).1.cache (topic_of info)
        ≡ true
  unfolding complete_task
  remembered info name output w h =
      let key = topic_of info in
      elim (Bool-cases (this.task_complete_cache.has w.cache key)) [
        | inl e ↦ rw (cache.use_hit key (post_completion this info name output) w e) e
        | inr e ↦
            cache.use_stored key (post_completion this info name output) w e
              (sym (cache.use_miss key (post_completion this info name output) w e).0 ∙ h)
      ]

  -- Once CompleteTask has returned no error, another CompleteTask for the same tenant and task, with
  -- whatever output, returns no error and sends nothing, as long as the cache is as the first left it.
  pub complete_task_once :
      (info again : TaskInfo) (name name' : String) (output output' : Value) (w : Engine C)
      → (complete_task this info name output w).0 ≡ ok tt
      → topic_of again ≡ topic_of info
      → complete_task this again name' output' (complete_task this info name output w).1
        ≡ (ok tt, (complete_task this info name output w).1)
  complete_task_once info again name name' output output' w h same =
      let r = remembered info name output w h in
      unfold complete_task in
      cache.use_hit (topic_of again) (post_completion this again name' output')
        (complete_task this info name output w).1 (rw same r)

module _ {C : Type 0} (this : Camunda C) (info : TaskInfo) (name : String) (output : Value)
    (w : Engine C) (shard : String) where
  abbrev request : CompleteRequest
  request = request_of this shard info name output

  -- what the engine answers to the first request and to its repetition
  abbrev pub first_answer : Sent
  first_answer = sent_of (this.post w.calls request)

  abbrev pub second_answer : Sent
  second_answer = sent_of (this.post (w.calls ++ completes request ∷ []) request)

  abbrev pub requested_once : Engine C
  requested_once = record_call this (completes request) w

  abbrev pub requested_twice : Engine C
  requested_twice = record_call this (completes request) requested_once

  abbrev pub with_incident : String → Engine C
  with_incident e =
      report_error this info.task_id info.process_instance_id info.process_definition_id
        info.business_key e info.tenant_id requested_twice

  -- What completeTask returns and sends, by the answers to the first and the second request.
  abbrev pub expected : Sent → Sent → Result (Unit {0}) × Engine C
  expected sent _ = (ok tt, requested_once)
  expected _ sent = (ok tt, requested_twice)
  expected _ (not_sent e) = (err (failure e), requested_twice)
  expected _ (unable e) = (err (failure e), with_incident e)

  second_expected :
      (a b : Sent) → a ≢ sent → second_try this info (b, requested_twice) ≡ expected a b
  second_expected sent b n = absurd (n refl)
  second_expected (not_sent x) sent n = refl
  second_expected (not_sent x) (not_sent e) n = refl
  second_expected (not_sent x) (unable e) n = refl
  second_expected (unable x) sent n = refl
  second_expected (unable x) (not_sent e) n = refl
  second_expected (unable x) (unable e) n = refl

  first_expected :
      (a : Sent) → first_try this info request (a, requested_once) ≡ expected a second_answer
  unfolding send
  first_expected sent = refl
  first_expected (not_sent x) = second_expected (not_sent x) second_answer (λ e. ground (arith, e))
  first_expected (unable x) = second_expected (unable x) second_answer (λ e. ground (arith, e))

  answers_lem :
      this.get_shard_for_user info.tenant_id ≡ ok shard
      → post_completion this info name output w ≡ expected first_answer second_answer
  unfolding post_completion send
  answers_lem h = rw h (first_expected first_answer)

  -- the answers of the engine that end a completion well, and the ones that it refuses with, by the message
  abbrev pub IsAccepted : Answer → Type 0
  IsAccepted a = (code : ℕ) × (body : String) × (a ≡ status code body) × (code < 300)

  abbrev pub IsRefused : Answer → String → Type 0
  IsRefused a msg =
      (code : ℕ) × (body : String) × (a ≡ status code body)
      × (300 ≤ code)
      × (msg ≡ "unable to complete task: " ++ᵗ (itoa code ++ᵗ (", " ++ᵗ body)))

  abbrev pub IsUnanswered : Answer → String → Type 0
  IsUnanswered a msg = a ≡ no_answer msg

  -- the incident of the task, with a message, after some calls
  abbrev pub incident : String → List Call → Incident
  incident msg calls = record {
    id = this.get_id calls;
    external_task_id = info.task_id;
    process_instance_id = info.process_instance_id;
    process_definition_id = info.process_definition_id;
    worker_id = this.worker_id;
    error_message = msg;
    tenant_id = info.tenant_id;
    business_key = info.business_key;
  }

  -- by HTTP where that is configured, and else by Kafka
  abbrev pub incident_call : String → List Call → Call
  incident_call msg calls =
      if this.use_http_incident_producer
        && not (this.incident_api_url == "")
        && not (this.incident_api_url == "-")
      then incident_by_http (incident msg calls)
      else incident_by_kafka this.kafka_incident_topic info.process_definition_id
          (incident msg calls)

  -- the calls after one and after two requests
  abbrev pub once : List Call
  once = w.calls ++ completes request ∷ []

  abbrev pub twice : List Call
  twice = once ++ completes request ∷ []

  -- what the engine answers to the first request and to the second
  abbrev pub first : Answer
  first = this.post w.calls request

  abbrev pub second : Answer
  second = this.post once request

  accepted_sent : (a : Answer) → IsAccepted a → sent_of a ≡ sent
  accepted_sent a (code, body, e, low) =
      let small : leb 300 code ≡ false = ground arith in rw (e, small) refl

  refused_unable : (a : Answer) (msg : String) → IsRefused a msg → sent_of a ≡ unable msg
  refused_unable a msg (code, body, e, high, same) =
      let large : leb 300 code ≡ true = ground arith in rw (e, large, same) refl

  unanswered_not_sent : (a : Answer) (msg : String) → IsUnanswered a msg → sent_of a ≡ not_sent msg
  unanswered_not_sent a msg e = rw e refl

  failed : (a : Answer) (msg : String) → IsRefused a msg ⊎ IsUnanswered a msg → sent_of a ≢ sent
  failed a msg (inl h) e = cc (e, refused_unable a msg h)
  failed a msg (inr h) e = cc (e, unanswered_not_sent a msg h)

  after_failure : (a b : Sent) → a ≢ sent → expected a b ≡ expected (unable "") b
  after_failure sent b n = absurd (n refl)
  after_failure (not_sent x) sent n = refl
  after_failure (not_sent x) (not_sent e) n = refl
  after_failure (not_sent x) (unable e) n = refl
  after_failure (unable x) sent n = refl
  after_failure (unable x) (not_sent e) n = refl
  after_failure (unable x) (unable e) n = refl

  -- what completeTask returns, and the calls that were made after it
  abbrev pub Leaves : Result (Unit {0}) → List Call → Type 0
  Leaves r calls =
      post_completion this info name output w ≡ (r, record { cache = w.cache; calls = calls })

  -- For a user with a shard: where the engine answers the first request with a status below 300,
  -- completeTask sends nothing else and returns no error. Where the first request is refused, with a
  -- status of 300 or more, or fails, completeTask sends the same request once more. It then returns no error
  -- where that is answered with a status below 300; the error of the second request where that
  -- fails; and where that is refused the refusal, as an error and as the message of one incident, for
  -- the task, its process and its tenant, that goes out by HTTP if that is configured and else by
  -- Kafka.
  pub post_completion_answers :
      this.get_shard_for_user info.tenant_id ≡ ok shard
      → (IsAccepted first → Leaves (ok tt) once)
        × ((msg : String)
            → IsRefused first msg ⊎ IsUnanswered first msg
            → (IsAccepted second → Leaves (ok tt) twice)
              × ((e : String) → IsUnanswered second e → Leaves (err (failure e)) twice)
              × ((e : String)
                  → IsRefused second e
                  → Leaves (err (failure e)) (twice ++ incident_call e twice ∷ [])))
  unfolding report_error
  post_completion_answers h = (
    λ good. rw (answers_lem h, accepted_sent first good) refl,
    λ msg bad.
        let again : post_completion this info name output w ≡ expected (unable "") second_answer =
          answers_lem h ∙ after_failure first_answer second_answer (failed first msg bad) in
        (
          λ good. rw (again, accepted_sent second good) refl,
          λ e lost. rw (again, unanswered_not_sent second e lost) refl,
          λ e refused. rw (again, refused_unable second e refused) refl,
        ),
  )
