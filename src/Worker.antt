-- ===== src/Worker.antt =====
-- lib/worker.go: a task is executed, its messages are sent, and the responses complete it. Logging and
-- metrics are not modelled. `none` says that the fuel has run out: a response to an event may execute
-- the task again (handleTaskResponse, ExecuteTask, ExecuteCommand, handleTaskResponse, ...), and the
-- fuel is the depth of that recursion.
pub mod Batch
pub mod Group
pub mod Ends
use Prim.Native.Nat.{max}
use Prim.Native.String.{◌++◌}
use external_task_worker.Base.{
  ℕ, zero, suc, ◌+◌, ◌*◌, String, Bool, true, false, Option, none, some, List, [], ◌∷◌, not, ◌&&◌,
  ◌||◌, ◌==◌, ◌-◌, eqb, leb, if◌then◌else◌,
}
use external_task_worker.Base.Int.{ℤ, pos, minus_one, ltbℤ}
use external_task_worker.Base.Text.{itoa}
use external_task_worker.Result.{Err, Result, ok, err, is_not_fount, error_text}
use external_task_worker.Model.{
  Value, null, arr, Items, nil, item, null_characteristic_id, Device, Service, Protocol, AspectNode,
}
use external_task_worker.Messages.{
  CamundaExternalTask, Command, TaskInfo, RequestInfo, KafkaMessage, EventRequest, ProtocolMsg,
  GroupTaskMetadataElement, TaskWithDuplicateIndex,
}
use external_task_worker.Messages.Aspects.{get_output_aspect_nodes}
use external_task_worker.World.{
  World, Effect, camunda_error, complete_task, unlock_task, produce_with_key, emit, sleep,
  millisecond,
}
use external_task_worker.DeviceGroups.Storage.{DeviceGroups}
use external_task_worker.DeviceGroups.Results.{process_response}
use external_task_worker.DeviceGroups.Commands.{
  Progress, process_command, sequential, round_robin, caller_camunda_loop, caller_response,
}
use external_task_worker.Event.{UnmarshallingV2Request}
use external_task_worker.Protocols.{unix}
use external_task_worker.Requests.{get_incident}

abbrev pub optimistic : String
optimistic = "optimistic"

-- The struct CmdWorker with the configuration that it reads. What camunda and the producer answer
-- may depend on every call made before.
pub record CmdWorker (S B : Type 0) : Type 0 where
  pub device_groups_handler : DeviceGroups S B
  pub worker_id : String
  pub completion_strategy : String
  -- OptimisticTaskCompletionTimeout, in milliseconds
  pub optimistic_task_completion_timeout : ℕ
  pub camunda_task_result_name : String
  pub timescale_wrapper_url : String
  pub group_scheduler : String
  pub get_command_request : CamundaExternalTask → Result Command
  pub complete_answer : List Effect → TaskInfo → Result (Unit {0})
  pub produce_answer : List Effect → KafkaMessage → Result (Unit {0})
  pub get_token : String → Result String
  -- GetLastEventValue for a token, which reads no state of the worker
  pub get_last_event_value : ℕ → String → EventRequest → ℕ × Value
  pub aspect_nodes_alias : AspectNode → List AspectNode → List AspectNode
  pub unmarshal_from_service_and_protocol :
      String → Service → Protocol → List (String × String) → List String → Result Value
  pub unmarshal_v2 : UnmarshallingV2Request → Result Value

unfoldable pub items_of : List Value → Items
items_of [] = nil
items_of (v ∷ vs) = item v (items_of vs)

-- `handleVersioning`: before version 2 a process expects the first result alone. Without results, Go
-- gives a nil slice: `arr nil` stands for it, which is not nil as an output, and which JSON writes as null.
unfoldable pub handle_versioning : ℤ → List Value → Value
unfolding items_of
handle_versioning version [] = arr nil
handle_versioning version (v ∷ vs) = if ltbℤ version (pos 2) then v else arr (items_of (v ∷ vs))

abbrev in_use : String → Bool
in_use url = not (url == "") && not (url == "-")

-- The index of each task among those before it with its activity id: `activityIndex` is what has
-- been seen.
unfoldable pub count_activity : String → List CamundaExternalTask → ℕ
count_activity activity [] = 0
count_activity activity (t ∷ ts) =
    if t.activity_id == activity
    then suc (count_activity activity ts)
    else count_activity activity ts

unfoldable pub with_duplicate_index :
    List CamundaExternalTask → List CamundaExternalTask → List TaskWithDuplicateIndex
unfolding count_activity
with_duplicate_index seen [] = []
with_duplicate_index seen (t ∷ ts) =
    record { task = t; duplicate_index = count_activity t.activity_id seen }
    ∷ with_duplicate_index (t ∷ seen) ts

-- `duplicateIndex * DuplicateActivitySleep` in nanoseconds, the time that ExecuteTaskBatch waits
-- before it executes the task
abbrev pub start_delay : TaskWithDuplicateIndex → ℕ
start_delay t = t.duplicate_index * (100 * millisecond)

module _ {S B : Type 0} (this : CmdWorker S B) where
  open this use {device_groups_handler, completion_strategy}

  abbrev pub report : CamundaExternalTask → String → World S → World S
  report task msg w =
      emit
        (camunda_error task.id task.process_instance_id task.process_definition_id task.business_key
          msg task.tenant_id)
        w

  unfoldable pub is_sequential : Bool
  is_sequential = this.group_scheduler == sequential || this.group_scheduler == round_robin

  -- `camunda.CompleteTask`, with its answer
  abbrev pub complete : TaskInfo → Value → World S → Result (Unit {0}) × World S
  complete info output w = (
    this.complete_answer w.effects info,
    emit (complete_task info this.camunda_task_result_name output) w,
  )

  -- the task info of a task that ExecuteCommand completes
  abbrev pub info_of : CamundaExternalTask → TaskInfo
  info_of task = record {
    worker_id = this.worker_id;
    task_id = task.id;
    process_instance_id = task.process_instance_id;
    process_definition_id = task.process_definition_id;
    completion_strategy = "";
    time = "";
    tenant_id = task.tenant_id;
    business_key = task.business_key;
  }

  -- the task info of a group that a response completes
  abbrev pub parent_info : TaskInfo → GroupTaskMetadataElement → TaskInfo
  parent_info info parent = record info {
    task_id = parent.task.id;
    process_instance_id = parent.task.process_instance_id;
    process_definition_id = parent.task.process_definition_id;
    business_key = parent.task.business_key;
  }

  -- `logProducerError` and `logProducerSuccess`
  unfoldable pub log_producer : Result (Unit {0}) → World S → World S
  log_producer (ok u) w = record w { last_producer_call_success = true }
  log_producer (err e) w = record w { last_producer_call_success = false }

  unfoldable pub produce : KafkaMessage → World S → World S
  unfolding log_producer
  produce m w =
      log_producer (this.produce_answer w.effects m)
        (emit (produce_with_key m.topic m.key m.payload) w)

  -- The two functions below take ExecuteTask, as far as the fuel goes.
  module _ (execute_again : CamundaExternalTask → String → World S → Option (World S)) where
    abbrev answered :
        TaskInfo
        → Result (GroupTaskMetadataElement × List Value × Bool) × World S
        → Option (Result (Unit {0}) × World S)
    answered info (err e, w) = if is_not_fount e then some (ok tt, w) else some (err e, w)
    answered info (ok (parent, results, finished), w) =
        if finished
        then some (
            complete (parent_info info parent) (handle_versioning parent.command.version results) w)
        else if is_sequential
        then elim (execute_again parent.task caller_response w) [
          | none ↦ none
          | some w' ↦ some (ok tt, w')
        ]
        else some (ok tt, w)

    -- `handleTaskResponse`
    unfoldable pub respond : TaskInfo → Value → World S → Option (Result (Unit {0}) × World S)
    unfolding is_sequential handle_versioning
    respond info output w =
        answered info (process_response device_groups_handler info.task_id output w)

    abbrev world_of : Option (Result (Unit {0}) × World S) → Option (World S)
    world_of none = none
    world_of (some (r, w)) = some w

    -- the task info of a last event value
    abbrev event_info : CamundaExternalTask → GroupTaskMetadataElement → World S → TaskInfo
    event_info task sub w = record (info_of task) {
      task_id = sub.task.id;
      completion_strategy = completion_strategy;
      time = itoa (unix w.now);
    }

    abbrev with_value :
        CamundaExternalTask → GroupTaskMetadataElement → ℕ × Value → World S → Option (World S)
    with_value task sub (code, value) w =
        if eqb code 200 then world_of (respond (event_info task sub w) value w) else some w

    abbrev ask_event :
        CamundaExternalTask
        → GroupTaskMetadataElement
        → EventRequest
        → Result String
        → World S
        → Option (World S)
    ask_event task sub request (err e) w = some w
    ask_event task sub request (ok token) w =
        with_value task sub (this.get_last_event_value w.now token request) w

    -- one message: it is produced, or its event is asked for, or it is dropped with a warning
    abbrev send :
        CamundaExternalTask
        → Option KafkaMessage
        → Option EventRequest
        → GroupTaskMetadataElement
        → World S
        → Option (World S)
    send task (some m) event sub w = some (produce m w)
    send task none none sub w = some w
    send task none (some request) sub w =
        if in_use this.timescale_wrapper_url
        then ask_event task sub request (this.get_token sub.task.tenant_id) w
        else some w

    -- `for _, message := range nextProtocolMessages`
    unfoldable pub send_messages :
        CamundaExternalTask → List RequestInfo → World S → Option (World S)
    unfolding produce respond
    send_messages task [] w = some w
    send_messages task (m ∷ ms) w = elim (send task m.request m.event m.metadata w) [
      | none ↦ none
      | some w' ↦ send_messages task ms w'
    ]

    abbrev is_optimistic : Bool
    is_optimistic = completion_strategy == optimistic

    -- after CompleteTask: an error ends it, and so does success unless the strategy is optimistic
    abbrev after_complete :
        CamundaExternalTask → List RequestInfo → Result (Unit {0}) × World S → Option (World S)
    after_complete task messages (err e, w) = some w
    after_complete task messages (ok u, w) =
        if is_optimistic then send_messages task messages w else some w

    abbrev proceed : Command → CamundaExternalTask → Progress × World S → Option (World S)
    proceed command task (p, w) = elim p.error [
      | some e ↦ some (report task (error_text e) w)
      | none ↦
          if is_optimistic || p.completed
          then after_complete task p.next_messages (
              complete (info_of task) (handle_versioning command.version p.finished_results)
                (sleep (this.optimistic_task_completion_timeout * millisecond) w))
          else send_messages task p.next_messages w
    ]

    -- `command.Retries = -1` under the optimistic strategy
    abbrev pub with_retries : Command → Command
    with_retries command = if is_optimistic then record command { retries = minus_one } else command

    unfoldable pub execute_command :
        Command → CamundaExternalTask → String → World S → Option (World S)
    unfolding send_messages handle_versioning
    execute_command command task caller w =
        proceed (with_retries command) task
          (process_command device_groups_handler (with_retries command) task caller w)

  abbrev execute_request :
      (CamundaExternalTask → String → World S → Option (World S))
      → Option String
      → Result Command
      → CamundaExternalTask
      → String
      → World S
      → Option (World S)
  execute_request again (some incident) request task caller w =
      some (report task ("user triggered incident: " ++ incident) w)
  execute_request again none (err e) task caller w =
      some (report task "invalid task format (json)" w)
  execute_request again none (ok command) task caller w =
      execute_command again command task caller w

  -- `ExecuteTask`
  unfoldable pub execute_task : ℕ → CamundaExternalTask → String → World S → Option (World S)
  unfolding execute_command get_incident
  execute_task zero task caller w = none
  execute_task (suc fuel) task caller w =
      execute_request (execute_task fuel) (get_incident task) (this.get_command_request task) task
        caller w

  -- `handleTaskResponse`, with its calls of ExecuteTask
  unfoldable pub handle_response :
      ℕ → TaskInfo → Value → World S → Option (Result (Unit {0}) × World S)
  unfolding respond execute_task
  handle_response fuel info output w = respond (execute_task fuel) info output w

  abbrev is_version_3 : ProtocolMsg → Bool
  is_version_3 message = not (ltbℤ message.metadata.version (pos 3))

  -- the output of a response: nil unless an output characteristic is named
  unfoldable pub output_of : ProtocolMsg → Result Value
  output_of message =
      let m = message.metadata in
      if not (m.output_characteristic == null_characteristic_id)
        && not (m.output_characteristic == "")
      then (if is_version_3 message
          then this.unmarshal_v2 (record {
            service = m.service;
            protocol = m.protocol;
            characteristic_id = m.output_characteristic;
            message = message.response;
            path = m.output_path;
            function_id = m.output_function_id;
            aspect_nodes = get_output_aspect_nodes this.aspect_nodes_alias m;
          })
          else this.unmarshal_from_service_and_protocol m.output_characteristic m.service m.protocol
              message.response m.content_variable_hints)
      else ok null

  abbrev with_output : ℕ → TaskInfo → Result Value → World S → Option (Result (Unit {0}) × World S)
  with_output fuel info (err e) w = some (err e, w)
  with_output fuel info (ok output) w = handle_response fuel info output w

  -- `HandleTaskResponse`, given what json.Unmarshal makes of the message. CheckCamundaDuration is the
  -- constant false.
  unfoldable pub handle_task_response :
      ℕ → Result ProtocolMsg → World S → Option (Result (Unit {0}) × World S)
  unfolding output_of handle_response
  handle_task_response fuel (err e) w = some (err e, w)
  handle_task_response fuel (ok message) w =
      if message.task_info.completion_strategy == optimistic
      then some (ok tt, w)
      else with_output fuel message.task_info (output_of message) w

  -- `ErrorMessageHandler` (lib/errorhandler.go): the task of a protocol error is unlocked
  unfoldable pub error_message_handler : Result ProtocolMsg → World S → World S
  error_message_handler (err e) w = w
  error_message_handler (ok message) w = emit (unlock_task message.task_info) w

  -- `GetState` and the test of the health check (lib/healthcheck.go), in nanoseconds
  unfoldable pub is_healthy : ℕ → World S → Bool
  is_healthy camunda_long_poll_timeout w =
      w.last_producer_call_success
      && leb (w.now - w.last_successful_camunda_call) (camunda_long_poll_timeout * millisecond * 3)

  -- `logSuccessfulCamundaCall`
  unfoldable pub log_successful_camunda_call : World S → World S
  log_successful_camunda_call w = record w { last_successful_camunda_call = w.now }

  -- The goroutines of a batch, one after the other: each waits until its delay after the start of the
  -- batch has passed, and executes its task.
  unfoldable pub run_batch : ℕ → ℕ → List TaskWithDuplicateIndex → World S → Option (World S)
  unfolding execute_task
  run_batch fuel start [] w = some w
  run_batch fuel start (t ∷ ts) w =
      elim (execute_task fuel t.task caller_camunda_loop
        (record w { now = max w.now (start + start_delay t) })) [
          | none ↦ none
          | some w' ↦ run_batch fuel start ts w'
        ]

  -- `ExecuteTaskBatch`
  unfoldable pub execute_task_batch : ℕ → List CamundaExternalTask → World S → Option (World S)
  unfolding log_successful_camunda_call with_duplicate_index run_batch
  execute_task_batch fuel tasks w =
      run_batch fuel w.now (with_duplicate_index [] tasks) (log_successful_camunda_call w)
