-- ===== src/Tests/Scheduling.antt =====
-- A group with one missing sub-task under the serial schedulers: tried 0 times, and tried 3 times.
use Prim.Native.String.{◌++◌}
use external_task_worker.Base.{
  ◌⊎◌, arith, ℕ, String, ◌≡◌, refl, false, none, some, [], ◌∷◌, ◌==◌, if◌then◌else◌, All,
  Bool-cases, inl, inr,
}
use external_task_worker.Base.Int.{pos}
use external_task_worker.Base.Sort.{insert, sort_slice}
use external_task_worker.Base.Text.{==-append, differ, first_code-append}
use external_task_worker.Messages.{RequestInfo, GroupTaskMetadata}
use external_task_worker.DeviceGroups.Sequential.{
  annotate_sub_task_states, update_sub_task_state, filter_retries, filter_currently_running,
}
use external_task_worker.DeviceGroups.Commands.{
  should_ignore_task, get_next_requests, save_call_info, create_requests, requests_and_results,
  process_command, schedule, caller_camunda_loop,
}
use external_task_worker.DeviceGroups.Storage.{db_get, db_set, attempts}
use external_task_worker.DeviceGroups.Results.{gather, get_task_results}
use external_task_worker.DeviceGroups.Serial.{IsSmall, candidates, process_command_one}
use external_task_worker.DeviceGroups.RoundRobin.{NoMoreTries}
use external_task_worker.DeviceGroups.Sending.{States, HoldsStates, with_state, round_robin_fair}
use external_task_worker.DeviceGroups.Tries.{WasTried, schedule_tries}
use external_task_worker.DeviceGroups.Spent.{IsSpent}
use external_task_worker.Tests.Fixtures.{
  metadata_doc, Memory, state_doc, groups, group, element, command, task, started, at, contents,
  memory-IsReliable, state_codec-IsCodec,
}

-- the sub-task t_0_0 after a number of tries, long ago
abbrev states : ℕ → States
states n id = if "t_0_0" == id then some (record { last_try = 0; try_count = pos n }) else none

abbrev alone : GroupTaskMetadata
alone = group (element "t_0_0" ∷ [])

abbrev written : ℕ → Memory
written n k =
    if "ststate.t_0_0" == k
    then some (state_doc (record { last_try = 0; try_count = pos n }))
    else if "meta.t" == k
    then some (metadata_doc alone)
    else none

meta-state : (id : String) → ("meta.t" == ("ststate." ++ id)) ≡ false
meta-state id = differ _ _ (rw (first_code-append "s" "tstate." id) (omega arith))

holds_states :
    (scheduler : String) (n : ℕ)
    → HoldsStates (groups scheduler) contents memory-IsReliable (written n) (states n)
holds_states scheduler n = record {
  at_id = λ id.
      rw (==-append "ststate." "t_0_0" id, meta-state id)
        (elim (Bool-cases ("t_0_0" == id)) [ inl e ↦ rw e | inr e ↦ rw e ]);
}

abbrev request : RequestInfo
request = record {
  request = some (record { topic = "topic"; key = "d"; payload = "t_0_0" });
  event = none;
  metadata = element "t_0_0";
  sub_task_state = record { last_try = 0; try_count = pos 0 };
}

tried_thrice-IsSpent : All (IsSpent command.retries (states 3)) (request ∷ [])
tried_thrice-IsSpent = ((refl, refl), tt)

sent_once :
    (scheduler : String)
    → (scheduler ≡ "sequential") ⊎ (scheduler ≡ "round_robin")
    → (schedule
        (groups scheduler)
        command
        (task "t")
        (requests_and_results (request ∷ []) [], at (written 1))).0.next_messages
      ≡ with_state (states 1) request ∷ []
unfolding schedule filter_retries filter_currently_running sort_slice insert
    annotate_sub_task_states update_sub_task_state db_get attempts
sent_once scheduler (inl e) = rw e refl
sent_once scheduler (inr e) = rw e refl

schedule_tries_example :
    WasTried
      (groups "sequential")
      contents
      memory-IsReliable
      state_codec-IsCodec
      command
      (request ∷ [])
      (at (written 1))
      (states 1)
      (with_state (states 1) request)
      (schedule
        (groups "sequential")
        command
        (task "t")
        (requests_and_results (request ∷ []) [], at (written 1)))
schedule_tries_example =
    schedule_tries (groups "sequential") contents memory-IsReliable state_codec-IsCodec command
      (task "t") (request ∷ []) [] (at (written 1)) (states 1) (with_state (states 1) request) refl
      (holds_states "sequential" 1) (sent_once "sequential" (inl refl))

round_robin_fair_example : All (NoMoreTries (with_state (states 1) request)) (
    candidates (groups "round_robin") command (at (written 1)) (with_state (states 1) request ∷ []))
round_robin_fair_example =
    round_robin_fair (groups "round_robin") contents memory-IsReliable state_codec-IsCodec command
      (task "t") (request ∷ []) [] (at (written 1)) (states 1) (with_state (states 1) request) refl
      (holds_states "round_robin" 1) (sent_once "round_robin" (inr refl))

-- the command is executed for the first time, and a message is sent
first_call :
    (process_command
      (groups "round_robin")
      command
      (task "t")
      caller_camunda_loop
      (at (started alone))).0.error
    ≡ none
unfolding process_command should_ignore_task db_get attempts schedule get_next_requests
    get_task_results save_call_info db_set create_requests gather annotate_sub_task_states
    filter_retries update_sub_task_state sort_slice insert filter_currently_running
first_call = refl

process_command_one_example :
    IsSmall
      (groups "round_robin")
      command.retries
      (process_command
        (groups "round_robin")
        command
        (task "t")
        caller_camunda_loop
        (at (started alone))).0
process_command_one_example =
    process_command_one (groups "round_robin") command (task "t") caller_camunda_loop
      (at (started alone)) refl first_call
