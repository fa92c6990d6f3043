-- ===== src/Camunda/Completion.antt =====
-- lib/camunda/camunda.go (CompleteTask, completeTask, Error): the completion of a task, at most once
-- while the cache remembers it. The HTTP calls, the cache and the producer are other code: their
-- answers are parameters, and what is sent is recorded in order.
pub mod Once
use Prim.Native.String.{◌++◌}
use external_task_worker.Base.{
  ℕ, ◌+◌, ◌/◌, ◌*◌, String, ◌≡◌, Bool, true, false, Option, none, some, List, [], ◌∷◌,
  ◌++◌ as ◌++ᴸ◌, not, ◌&&◌, ◌==◌, leb, if◌then◌else◌,
}
use external_task_worker.Base.Text.{itoa}
use external_task_worker.Result.{Err, failure, Result, ok, err, Exec}
use external_task_worker.Model.{Value, null}
use external_task_worker.Messages.{TaskInfo, Incident}

-- `CamundaCompleteRequest` with its address; no variables where the output is nil
pub record CompleteRequest : Type 0 where
  pub shard : String
  pub task_id : String
  pub worker_id : String
  pub variables : List (String × Value)

-- What `client.Post` and `io.ReadAll` give: an error of either, or a status code and a body.
pub data Answer : Type 0 where
  no_answer : String → Answer
  status : ℕ → String → Answer

-- What leaves the client.
pub data Call : Type 0 where
  completes : CompleteRequest → Call
  -- an incident, by HTTP or by Kafka
  incident_by_http : Incident → Call
  incident_by_kafka : String → String → Incident → Call

pub record Engine (C : Type 0) : Type 0 where
  pub cache : C
  pub calls : List Call

-- `cache.Use(cache, key, get, NoValidation, expiration)` of service-commons, and whether a value that
-- has not expired is stored under a key.
pub record Cache (C : Type 0) : Type 0 where
  pub has : C → String → Bool
  pub use_or_get : String → Exec (Engine C) (Unit {0}) → Exec (Engine C) (Unit {0})

-- A stored value is used; else the value is fetched, and stored if that succeeds.
pub record IsCache {C : Type 0} (c : Cache C) : Type 0 where
  pub use_hit :
      (key : String) (get : Exec (Engine C) (Unit {0})) (w : Engine C)
      → c.has w.cache key ≡ true
      → c.use_or_get key get w ≡ (ok tt, w)
  pub use_miss :
      (key : String) (get : Exec (Engine C) (Unit {0})) (w : Engine C)
      → c.has w.cache key ≡ false
      → ((c.use_or_get key get w).0 ≡ (get w).0)
        × ((c.use_or_get key get w).1.calls ≡ (get w).1.calls)
  pub use_stored :
      (key : String) (get : Exec (Engine C) (Unit {0})) (w : Engine C)
      → c.has w.cache key ≡ false
      → (get w).0 ≡ ok tt
      → c.has (c.use_or_get key get w).1.cache key ≡ true

-- The struct Camunda with the configuration that it reads.
pub record Camunda (C : Type 0) : Type 0 where
  pub worker_id : String
  pub use_http_incident_producer : Bool
  pub incident_api_url : String
  pub kafka_incident_topic : String
  pub task_complete_cache : Cache C
  pub get_shard_for_user : String → Result String
  -- the answer to a completion, given the calls before it
  pub post : List Call → CompleteRequest → Answer
  -- `util.GetId()`, given the calls before it
  pub get_id : List Call → String

-- `err` of `send`: nil, an error that is not UnableToCompleteErrResp, or one that is
pub data Sent : Type 0 where
  sent : Sent
  not_sent : String → Sent
  unable : String → Sent

abbrev pub sent_of : Answer → Sent
sent_of (no_answer e) = not_sent e
sent_of (status code body) =
    if leb 300 code
    then unable ("unable to complete task: " ++ (itoa code ++ (", " ++ body)))
    else sent

abbrev pub is_nil : Value → Bool
is_nil null = true
is_nil _ = false

abbrev pub topic_of : TaskInfo → String
topic_of info = (info.tenant_id ++ "+") ++ info.task_id

module _ {C : Type 0} (this : Camunda C) where
  abbrev record_call : Call → Engine C → Engine C
  record_call c w = record w { calls = w.calls ++ᴸ c ∷ [] }

  abbrev by_http : Bool
  by_http =
      this.use_http_incident_producer
      && not (this.incident_api_url == "")
      && not (this.incident_api_url == "-")

  -- `Error`; what fails here is only logged
  unfoldable pub report_error :
      String → String → String → String → String → String → Engine C → Engine C
  report_error external_task_id process_instance_id process_definition_id business_key msg tenant_id
        w =
      let incident : Incident = record {
        id = this.get_id w.calls;
        external_task_id = external_task_id;
        process_instance_id = process_instance_id;
        process_definition_id = process_definition_id;
        worker_id = this.worker_id;
        error_message = msg;
        tenant_id = tenant_id;
        business_key = business_key;
      } in
      record_call
        (if by_http
          then incident_by_http incident
          else incident_by_kafka this.kafka_incident_topic process_definition_id incident)
        w

  abbrev request_of : String → TaskInfo → String → Value → CompleteRequest
  request_of shard info output_name output = record {
    shard = shard;
    task_id = info.task_id;
    worker_id = if info.worker_id == "" then this.worker_id else info.worker_id;
    variables = if is_nil output then [] else (output_name, output) ∷ [];
  }

  -- `send`, one POST
  unfoldable pub send : CompleteRequest → Engine C → Sent × Engine C
  send request w = (sent_of (this.post w.calls request), record_call (completes request) w)

  -- the second try, and the incident if the engine refuses again
  abbrev second_try : TaskInfo → Sent × Engine C → Result (Unit {0}) × Engine C
  second_try info (sent, w) = (ok tt, w)
  second_try info (not_sent e, w) = (err (failure e), w)
  second_try info (unable e, w) = (
    err (failure e),
    report_error info.task_id info.process_instance_id info.process_definition_id info.business_key
        e info.tenant_id w,
  )

  abbrev first_try : TaskInfo → CompleteRequest → Sent × Engine C → Result (Unit {0}) × Engine C
  first_try info request (sent, w) = (ok tt, w)
  first_try info request (_, w) = second_try info (send request w)

  abbrev with_shard :
      TaskInfo → String → Value → Result String → Engine C → Result (Unit {0}) × Engine C
  with_shard info output_name output (err e) w = (err e, w)
  with_shard info output_name output (ok shard) w =
      let request = request_of shard info output_name output in
      first_try info request (send request w)

  -- `completeTask`
  unfoldable pub post_completion : TaskInfo → String → Value → Exec (Engine C) (Unit {0})
  unfolding report_error send
  post_completion info output_name output w =
      with_shard info output_name output (this.get_shard_for_user info.tenant_id) w

  -- `CompleteTask`, which runs under the mutex of its topic
  unfoldable pub complete_task : TaskInfo → String → Value → Exec (Engine C) (Unit {0})
  unfolding post_completion
  complete_task info output_name output =
      this.task_complete_cache.use_or_get (topic_of info) (post_completion info output_name output)
