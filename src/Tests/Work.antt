-- ===== src/Tests/Work.antt =====
-- A worker with an engine that accepts every completion, and a batch of three tasks.
use external_task_worker.Base.{zero, String, ◌≡◌, refl, some, List, [], ◌∷◌}
use external_task_worker.Result.{ok}
use external_task_worker.Model.{null, str}
use external_task_worker.Messages.{TaskInfo, GroupTaskMetadata, CamundaExternalTask}
use external_task_worker.World.{World}
use external_task_worker.DeviceGroups.Results.{process_response}
use external_task_worker.DeviceGroups.Commands.{caller_camunda_loop}
use external_task_worker.DeviceGroups.Collect.{unanswered}
use external_task_worker.DeviceGroups.Responses.{after_write}
use external_task_worker.Worker.{CmdWorker, handle_response, execute_task, is_sequential}
use external_task_worker.Worker.Group.{handle_response-waits, handle_response_late}
use external_task_worker.Worker.Ends.{execute_task_ends}
use external_task_worker.Tests.Fixtures.{
  Memory, Doc, groups, group, element, command, task, started, started-Holds_memory, at, contents,
  memory-IsReliable, result_codec-IsCodec, no_results_yet,
}

abbrev pub worker : CmdWorker Memory Doc
worker = record {
  device_groups_handler = groups "parallel";
  worker_id = "w";
  completion_strategy = "pessimistic";
  optimistic_task_completion_timeout = 100;
  camunda_task_result_name = "result";
  timescale_wrapper_url = "";
  group_scheduler = "parallel";
  get_command_request = λ t. ok command;
  complete_answer = λ effects info. ok tt;
  produce_answer = λ effects m. ok tt;
  get_token = λ user. ok "token";
  get_last_event_value = λ now token request. (200, null);
  aspect_nodes_alias = λ a rest. a ∷ rest;
  unmarshal_from_service_and_protocol = λ c s p m h. ok null;
  unmarshal_v2 = λ request. ok null;
}

abbrev response : String → TaskInfo
response id = record {
  worker_id = "w";
  task_id = id;
  process_instance_id = "p";
  process_definition_id = "pd";
  completion_strategy = "pessimistic";
  time = "";
  tenant_id = "user";
  business_key = "b";
}

abbrev single : GroupTaskMetadata
single = group (element "t_0_0" ∷ [])

abbrev pair : GroupTaskMetadata
pair = group (element "t_0_0" ∷ element "t_1_0" ∷ [])

abbrev finished : World Memory
finished = (process_response (groups "parallel") "t_0_0" (str "on") (at (started single))).1

handle_response-waits_example :
    handle_response worker 1 (response "t_0_0") (str "on") (at (started pair))
    ≡ some (
      ok tt,
      after_write
          (groups "parallel")
          contents
          memory-IsReliable
          result_codec-IsCodec
          "t_0_0"
          (str "on")
          (at (started pair)),
    )
unfolding unanswered is_sequential
handle_response-waits_example =
    handle_response-waits worker contents memory-IsReliable result_codec-IsCodec 1
      (response "t_0_0") (str "on") (at (started pair)) no_results_yet pair refl
      (started-Holds_memory "parallel" pair) refl (λ e. cc)

handle_response_late_example :
    handle_response worker 1 (response "t_0_0") (str "off") finished
    ≡ some (
      ok tt,
      after_write
          (groups "parallel")
          contents
          memory-IsReliable
          result_codec-IsCodec
          "t_0_0"
          (str "off")
          finished,
    )
handle_response_late_example =
    handle_response_late worker contents memory-IsReliable result_codec-IsCodec 1 (response "t_0_0")
      (str "on") (at (started single)) no_results_yet single
      (started-Holds_memory "parallel" single) refl refl (unfold unanswered in refl) zero
      (element "t_0_0") (response "t_0_0") (str "off") finished refl refl refl

execute_task_ends_example :
    (w' : World Memory) × (execute_task worker 1 (task "t") caller_camunda_loop (at (started pair))
      ≡ some w')
unfolding is_sequential
execute_task_ends_example =
    execute_task_ends worker refl 0 (task "t") caller_camunda_loop (at (started pair))

-- three tasks of one activity
abbrev batch : List CamundaExternalTask
batch = task "x" ∷ task "y" ∷ task "z" ∷ []
