-- ===== src/Worker/Ends.antt =====
-- Under the schedulers other than `sequential` and `round_robin`, nothing executes a task again.
use external_task_worker.Base.{
  ℕ, suc, String, ◌≡◌, ◌≢◌, refl, Bool, true, false, Option, none, some, List, [], ◌∷◌, ◌||◌, arith,
  if◌then◌else◌, eqb, ◌*◌,
}
use external_task_worker.Result.{Err, Result, ok, err}
use external_task_worker.Model.{Value}
use external_task_worker.Messages.{
  CamundaExternalTask, Command, TaskInfo, RequestInfo, GroupTaskMetadataElement, KafkaMessage,
  EventRequest,
}
use external_task_worker.World.{World, sleep, millisecond}
use external_task_worker.DeviceGroups.Results.{process_response}
use external_task_worker.DeviceGroups.Commands.{Progress, process_command}
use external_task_worker.Requests.{get_incident}
use external_task_worker.Worker.{
  CmdWorker, is_sequential, respond, answered, world_of, ask_event, send, send_messages,
  is_optimistic, after_complete, proceed, with_retries, execute_command, execute_request,
  execute_task, in_use, event_info, complete, info_of, handle_versioning,
}

-- a call that has not run out of fuel
abbrev pub Ends : {A : Type 0} → Option A → Type 0
Ends o = o ≢ none

ends : {A : Type 0} {a : A} → Ends (some a)
ends h = ground (arith, h)

if_Ends : {A : Type 0} (b : Bool) (x y : Option A) → Ends x → Ends y → Ends (if b then x else y)
if_Ends true x y h g = h
if_Ends false x y h g = g

followed-Ends :
    {A : Type 0} (rest : A → Option A) (o : Option A)
    → Ends o
    → ((a : A) → Ends (rest a))
    → Ends (elim o [ none ↦ none | some a ↦ rest a ])
followed-Ends rest none h g = h
followed-Ends rest (some a) h g = g a

result_of : {A : Type 0} (o : Option A) → Ends o → (a : A) × (o ≡ some a)
result_of none h = absurd (h refl)
result_of (some a) h = (a, refl)

module _ {S B : Type 0} (this : CmdWorker S B) (parallel : is_sequential this ≡ false)
    (again : CamundaExternalTask → String → World S → Option (World S)) where
  answered-Ends :
      (info : TaskInfo) (r : Result (GroupTaskMetadataElement × List Value × Bool) × World S)
      → Ends (answered this again info r)
  answered-Ends info (err e, w) = if_Ends _ _ _ ends ends
  answered-Ends info (ok (parent, results, finished), w) =
      rw parallel (if_Ends finished _ _ ends ends)

  pub respond-Ends :
      (info : TaskInfo) (v : Value) (w : World S) → Ends (respond this again info v w)
  unfolding respond
  respond-Ends info v w =
      answered-Ends info (process_response this.device_groups_handler info.task_id v w)

  world_of-Ends : (o : Option (Result (Unit {0}) × World S)) → Ends o → Ends (world_of this again o)
  world_of-Ends none h = absurd (h refl)
  world_of-Ends (some (r, w)) h = ends

  ask_event-Ends :
      (task : CamundaExternalTask) (sub : GroupTaskMetadataElement) (request : EventRequest)
      (token : Result String) (w : World S)
      → Ends (ask_event this again task sub request token w)
  ask_event-Ends task sub request (err e) w = ends
  ask_event-Ends task sub request (ok token) w =
      let (code, value) = this.get_last_event_value w.now token request in
      if_Ends (eqb code 200) _ _
        (world_of-Ends (respond this again (event_info this again task sub w) value w)
          (respond-Ends (event_info this again task sub w) value w))
        ends

  send-Ends :
      (task : CamundaExternalTask) (m : Option KafkaMessage) (event : Option EventRequest)
      (sub : GroupTaskMetadataElement) (w : World S)
      → Ends (send this again task m event sub w)
  send-Ends task (some m) event sub w = ends
  send-Ends task none none sub w = ends
  send-Ends task none (some request) sub w =
      if_Ends (in_use this.timescale_wrapper_url) _ _
        (ask_event-Ends task sub request (this.get_token sub.task.tenant_id) w) ends

  send_messages-Ends :
      (task : CamundaExternalTask) (ms : List RequestInfo) (w : World S)
      → Ends (send_messages this again task ms w)
  unfolding send_messages
  send_messages-Ends task [] w = ends
  send_messages-Ends task (m ∷ ms) w =
      followed-Ends (send_messages this again task ms)
        (send this again task m.request m.event m.metadata w)
        (send-Ends task m.request m.event m.metadata w) (send_messages-Ends task ms)

  after_complete-Ends :
      (task : CamundaExternalTask) (ms : List RequestInfo) (r : Result (Unit {0}) × World S)
      → Ends (after_complete this again task ms r)
  after_complete-Ends task ms (err e, w) = ends
  after_complete-Ends task ms (ok u, w) = if_Ends _ _ _ (send_messages-Ends task ms w) ends

  proceed-Ends :
      (command : Command) (task : CamundaExternalTask) (p : Option Err) (q : Progress) (w : World S)
      → Ends (proceed this again command task (record q { error = p }, w))
  proceed-Ends command task (some e) q w = ends
  proceed-Ends command task none q w =
      if_Ends (is_optimistic this again || q.completed) _ _
        (after_complete-Ends task q.next_messages (
          complete this (info_of this task) (handle_versioning command.version q.finished_results)
            (sleep (this.optimistic_task_completion_timeout * millisecond) w)))
        (send_messages-Ends task q.next_messages w)

  execute_command-Ends :
      (command : Command) (task : CamundaExternalTask) (caller : String) (w : World S)
      → Ends (execute_command this again command task caller w)
  unfolding execute_command
  execute_command-Ends command task caller w =
      let (p, w') =
        process_command this.device_groups_handler (with_retries this again command) task caller
          w in
      proceed-Ends (with_retries this again command) task p.error p w'

  execute_request-Ends :
      (incident : Option String) (request : Result Command) (task : CamundaExternalTask)
      (caller : String) (w : World S)
      → Ends (execute_request this again incident request task caller w)
  execute_request-Ends (some i) request task caller w = ends
  execute_request-Ends none (err e) task caller w = ends
  execute_request-Ends none (ok command) task caller w = execute_command-Ends command task caller w

module _ {S B : Type 0} (this : CmdWorker S B) where
  -- Under a scheduler other than `sequential` and `round_robin`, ExecuteTask ends, whatever the store,
  -- the engine and the devices answer: one level of recursion is enough fuel.
  pub execute_task_ends :
      is_sequential this ≡ false
      → (fuel : ℕ) (task : CamundaExternalTask) (caller : String) (w : World S)
      → (w' : World S) × (execute_task this (suc fuel) task caller w ≡ some w')
  unfolding execute_task
  execute_task_ends parallel fuel task caller w =
      result_of
        (execute_request this (execute_task this fuel) (get_incident task)
          (this.get_command_request task) task caller w)
        (execute_request-Ends this parallel (execute_task this fuel) (get_incident task)
          (this.get_command_request task) task caller w)
