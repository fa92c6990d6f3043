-- ===== src/DeviceGroups/Commands.antt =====
-- lib/devicegroups/devicegroups.go (ProcessCommand and what it calls): which sub-tasks of a command
-- are sent next, by each scheduler.
use Prim.Native.String.{◌++◌}
use external_task_worker.Base.{
  ℕ, String, Bool, true, false, Option, none, some, List, [], ◌∷◌, not, ◌&&◌, ◌||◌, ◌==◌,
  if◌then◌else◌, take,
}
use external_task_worker.Base.Int.{minus_one, succ64, ltbℤ, eqbℤ}
use external_task_worker.Base.Sort.{sort_slice}
use external_task_worker.Result.{
  Err, failure, Result, ok, err, is_not_fount, Exec, pure, lift, ◌>>=◌, ◌>>◌,
}
use external_task_worker.Model.{Value}
use external_task_worker.Messages.{
  CamundaExternalTask, Command, GroupTaskMetadata, GroupTaskMetadataElement, RequestInfo,
}
use external_task_worker.World.{World, emit, set_retry, since}
use external_task_worker.DeviceGroups.Storage.{
  DeviceGroups, LastCallInfo, last_call_info, db_get, db_set, set_group_metadata,
}
use external_task_worker.DeviceGroups.SubTasks.{get_sub_tasks, after_sub_tasks}
use external_task_worker.DeviceGroups.Results.{
  Gathered, get_task_results, clear_task_data, is_empty, nothing_gathered,
}
use external_task_worker.DeviceGroups.Sequential.{
  zero_state, annotate_sub_task_states, filter_retries, filter_currently_running,
  update_sub_task_state,
}

-- util/const.go
abbrev pub sequential : String
sequential = "sequential"

abbrev pub round_robin : String
round_robin = "round_robin"

abbrev pub parallel : String
parallel = "parallel"

abbrev pub caller_camunda_loop : String
caller_camunda_loop = "camunda_loop"

abbrev pub caller_response : String
caller_response = "response"

-- The three values that getNextRequests returns: an error may stand beside the others.
pub record NextRequests : Type 0 where
  pub requests : List RequestInfo
  pub results : List Value
  pub error : Option Err

abbrev pub requests_and_results : List RequestInfo → List Value → NextRequests
requests_and_results requests results = record {
  requests = requests;
  results = results;
  error = none;
}

-- The four values that ProcessCommand returns: an error may stand beside the others.
pub record Progress : Type 0 where
  pub completed : Bool
  pub next_messages : List RequestInfo
  pub finished_results : List Value
  pub error : Option Err

abbrev pub no_results : Err
no_results = failure "unable to get any results for device-group"

-- `len(finishedResults) == 0` is an error where the task is at its end
abbrev pub error_if_empty : List Value → Option Err
error_if_empty [] = some no_results
error_if_empty (r ∷ rs) = none

-- `nextRequests[i].SubTaskState.TryCount < nextRequests[j].SubTaskState.TryCount`
abbrev pub fewer_tries : RequestInfo → RequestInfo → Bool
fewer_tries a b = ltbℤ a.sub_task_state.try_count b.sub_task_state.try_count

-- `command.Retries != -1 && command.Retries < task.Retries`
abbrev pub no_more_retries : Command → CamundaExternalTask → Bool
no_more_retries command task =
    not (eqbℤ command.retries minus_one) && ltbℤ command.retries task.retries

module _ {S B : Type 0} (this : DeviceGroups S B) where
  open this use {scheduler, currently_running_timeout, last_call_codec}

  -- what shouldIgnoreTask concludes from the last call info
  abbrev pub ignored_after : Result LastCallInfo → ℕ → Bool
  ignored_after (ok last) now =
      if last.caller == caller_camunda_loop
      then false
      else ltbℤ (since now last.time) currently_running_timeout
  ignored_after (err e) now = not (is_not_fount e)

  unfoldable pub should_ignore_task : String → CamundaExternalTask → World S → Bool × World S
  should_ignore_task caller task w =
      if scheduler == parallel
      then (caller == caller_response, w)
      else if caller == caller_response
      then (false, w)
      else (let (r, w') = db_get this last_call_codec (last_call_info ++ task.id) w in
          (ignored_after r w'.now, w'))

  -- `saveCallInfo`; its error is only logged
  unfoldable pub save_call_info : CamundaExternalTask → String → World S → World S
  save_call_info task caller w =
      if scheduler == parallel
      then w
      else (db_set this last_call_codec (last_call_info ++ task.id)
          (record { caller = caller; time = w.now }) w).1

  -- `setGroupMetadata` under the id of each sub-task
  unfoldable pub save_children :
      GroupTaskMetadata → List GroupTaskMetadataElement → Exec (World S) (Unit {0})
  save_children meta [] = pure tt
  save_children meta (sub ∷ subs) = do
    set_group_metadata this sub.task.id meta
    save_children meta subs

  -- the first call for a task: it is split, and the group is stored under every id
  unfoldable pub start_group :
      Command → CamundaExternalTask → Exec (World S) (List GroupTaskMetadataElement)
  start_group command task = do
    subs ← lift (get_sub_tasks this command task)
    let meta : GroupTaskMetadata = record {
      parent = record { command = after_sub_tasks command; task = task };
      children = subs;
    }
    set_group_metadata this task.id meta
    save_children meta subs
    pure subs

  -- the callback for each missing sub-task
  unfoldable pub create_requests : List GroupTaskMetadataElement → Exec (World S) (List RequestInfo)
  create_requests [] = pure []
  create_requests (sub ∷ subs) = do
    (request, event) ← λ w. (this.protocol_message_callback w.now sub.command sub.task, w)
    rest ← create_requests subs
    pure (
        record { request = request; event = event; metadata = sub; sub_task_state = zero_state }
        ∷ rest)

  -- an error of getTaskResults that is not ErrNotFount is returned after the loop, beside the rest
  abbrev pub return_requests : Gathered → Exec (World S) NextRequests
  return_requests g = do
    requests ← create_requests g.missing
    pure (record { requests = requests; results = g.results; error = g.error })

  -- `return nil, nil, err`
  abbrev pub or_nothing : Result NextRequests × World S → NextRequests × World S
  or_nothing (ok next, w) = (next, w)
  or_nothing (err e, w) = (record { requests = []; results = []; error = some e }, w)

  -- What getTaskResults answers, without the metadata; a new group has no result yet.
  abbrev pub known_group :
      Command
      → CamundaExternalTask
      → Result (GroupTaskMetadata × Gathered) × World S
      → Result Gathered × World S
  known_group command task (ok (meta, g), w) = (ok g, w)
  known_group command task (err e, w) =
      if is_not_fount e
      then (do
        subs ← start_group command task
        pure (record { results = []; missing = subs; error = none }))
          w
      else (ok (nothing_gathered (some e)), w)

  unfoldable pub get_next_requests :
      Command → CamundaExternalTask → World S → NextRequests × World S
  get_next_requests command task w = or_nothing (
      (do g ← λ v. known_group command task (get_task_results this task.id v); return_requests g) w)

  abbrev pub at_end : CamundaExternalTask → List Value → World S → Progress × World S
  at_end task results w = (
    record {
      completed = true;
      next_messages = [];
      finished_results = results;
      error = error_if_empty results;
    },
    clear_task_data this task.id w,
  )

  abbrev pub failed : List RequestInfo → List Value → Err → World S → Progress × World S
  failed requests results e w = (
    record {
      completed = false;
      next_messages = requests;
      finished_results = results;
      error = some e;
    },
    w,
  )

  abbrev pub error_of : Result (Unit {0}) → Option Err
  error_of (ok u) = none
  error_of (err e) = some e

  -- `nextRequests[:1]`, marked as tried
  abbrev pub send_first : List RequestInfo → List Value → World S → Progress × World S
  send_first requests results w =
      let (r, w') = update_sub_task_state this (take 1 requests) w in
      (
        record {
          completed = false;
          next_messages = take 1 requests;
          finished_results = results;
          error = error_of r;
        },
        w',
      )

  -- the cases SEQUENTIAL and ROUND_ROBIN, which differ in the order of the candidates
  abbrev pub one_at_a_time :
      (List RequestInfo → List RequestInfo)
      → Command
      → CamundaExternalTask
      → List Value
      → (List RequestInfo × Option Err) × World S
      → Progress × World S
  one_at_a_time order command task results ((annotated, some e), w) = failed annotated results e w
  one_at_a_time order command task results ((annotated, none), w) =
      let left = filter_retries command.retries annotated in
      if is_empty left
      then at_end task results w
      else send_first (order (filter_currently_running w.now currently_running_timeout left))
          results w

  abbrev pub all_at_once :
      Command → CamundaExternalTask → List Value → List RequestInfo → World S → Progress × World S
  all_at_once command task results requests w =
      let spent = no_more_retries command task in
      let completed = is_empty requests || spent in
      let w' = if completed then clear_task_data this task.id w else w in
      if spent
      then (
        record {
          completed = completed;
          next_messages = [];
          finished_results = results;
          error = error_if_empty results;
        },
        w',
      )
      else (
        record {
          completed = completed;
          next_messages = requests;
          finished_results = results;
          error = none;
        },
        emit (set_retry task.id task.tenant_id (succ64 task.retries)) w',
      )

  -- the switch on the scheduler
  abbrev pub by_scheduler :
      Command → CamundaExternalTask → List RequestInfo → List Value → World S → Progress × World S
  by_scheduler command task requests results w =
      if scheduler == sequential
      then one_at_a_time (λ l. l) command task results (annotate_sub_task_states this requests w)
      else if scheduler == round_robin
      then one_at_a_time (sort_slice fewer_tries) command task results
          (annotate_sub_task_states this requests w)
      else if scheduler == parallel
      then all_at_once command task results requests w
      else failed requests results (failure ("unknown scheduler " ++ scheduler)) w

  -- ProcessCommand after getNextRequests
  unfoldable pub schedule :
      Command → CamundaExternalTask → NextRequests × World S → Progress × World S
  schedule command task (next, w) = elim next.error [
    | some e ↦ failed next.requests next.results e w
    | none ↦ by_scheduler command task next.requests next.results w
  ]

  abbrev pub ignored : Progress
  ignored = record { completed = false; next_messages = []; finished_results = []; error = none }

  abbrev pub unless_ignored :
      Command → CamundaExternalTask → String → Bool × World S → Progress × World S
  unless_ignored command task caller (true, w) = (ignored, w)
  unless_ignored command task caller (false, w) =
      schedule command task (get_next_requests command task (save_call_info task caller w))

  unfoldable pub process_command :
      Command → CamundaExternalTask → String → World S → Progress × World S
  process_command command task caller w =
      unless_ignored command task caller (should_ignore_task caller task w)
