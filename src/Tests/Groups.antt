-- ===== src/Tests/Groups.antt =====
-- A group of one or two sub-tasks, from its start to its end.
use external_task_worker.Base.{zero, ◌≡◌, refl, true, false, [], ◌∷◌}
use external_task_worker.Result.{ok, err, err_not_fount}
use external_task_worker.Model.{str}
use external_task_worker.Messages.{GroupTaskMetadata}
use external_task_worker.World.{World}
use external_task_worker.DeviceGroups.Results.{process_response}
use external_task_worker.DeviceGroups.Collect.{values, unanswered}
use external_task_worker.DeviceGroups.Responses.{after_write}
use external_task_worker.DeviceGroups.Completion.{
  process_response-completes, process_response-waits, process_response_late,
}
use external_task_worker.Tests.Fixtures.{
  Memory, groups, group, element, started, started-Holds_memory, at, contents, memory-IsReliable,
  result_codec-IsCodec, no_results_yet,
}

abbrev single : GroupTaskMetadata
single = group (element "t_0_0" ∷ [])

abbrev pair : GroupTaskMetadata
pair = group (element "t_0_0" ∷ element "t_1_0" ∷ [])

process_response-completes_example :
    (process_response (groups "parallel") "t_0_0" (str "on") (at (started single))).0
    ≡ ok (element "t", str "on" ∷ [], true)
unfolding values unanswered
process_response-completes_example =
    (process_response-completes (groups "parallel") contents memory-IsReliable result_codec-IsCodec
      "t_0_0" (str "on") (at (started single)) no_results_yet single
      (started-Holds_memory "parallel" single) refl refl refl).0

process_response-waits_example :
    process_response (groups "parallel") "t_0_0" (str "on") (at (started pair)) ≡ (
      ok (element "t", str "on" ∷ [], false),
      after_write
          (groups "parallel")
          contents
          memory-IsReliable
          result_codec-IsCodec
          "t_0_0"
          (str "on")
          (at (started pair)),
    )
unfolding values unanswered
process_response-waits_example =
    process_response-waits (groups "parallel") contents memory-IsReliable result_codec-IsCodec
      "t_0_0" (str "on") (at (started pair)) no_results_yet pair
      (started-Holds_memory "parallel" pair) refl (λ e. cc)

abbrev finished : World Memory
finished = (process_response (groups "parallel") "t_0_0" (str "on") (at (started single))).1

process_response_late_example :
    process_response (groups "parallel") "t_0_0" (str "off") finished ≡ (
      err err_not_fount,
      after_write
          (groups "parallel")
          contents
          memory-IsReliable
          result_codec-IsCodec
          "t_0_0"
          (str "off")
          finished,
    )
process_response_late_example =
    process_response_late (groups "parallel") contents memory-IsReliable result_codec-IsCodec
      "t_0_0" (str "on") (at (started single)) no_results_yet single
      (started-Holds_memory "parallel" single) refl refl (unfold unanswered in refl) zero
      (element "t_0_0") (str "off") finished refl refl
