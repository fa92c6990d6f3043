-- ===== src/Tests/Services.antt =====
-- A device type with three services, two of which measure what the command asks for.
use external_task_worker.Base.{String, ◌≡◌, refl, true, false, List, [], ◌∷◌, map}
use external_task_worker.Model.{Service, Content, content_variable, other_type, no_variables}
use external_task_worker.DeviceGroups.Services.{get_filtered_services}
use external_task_worker.DeviceGroups.Filtered.{
  has_id, IsDistinct, serves_under, get_filtered_services_ids,
}
use external_task_worker.Result.{ok, err}
use external_task_worker.Messages.{GroupTaskMetadataElement}
use external_task_worker.DeviceGroups.Storage.{DeviceGroups}
use external_task_worker.DeviceGroups.SubTasks.{get_sub_tasks}
use external_task_worker.DeviceGroups.SubTasks.Distinct.{
  HasDistinctIds, get_sub_tasks-HasDistinctIds,
}
use external_task_worker.Tests.Fixtures.{Memory, Doc, groups, repo, task, model, command, service}

abbrev measures : String → List Content
measures function_id =
    record {
      content_variable = content_variable "value" (other_type "float") function_id [] no_variables;
      serialization = "json";
      protocol_segment_id = "body";
    }
    ∷ []

abbrev type_services : List Service
type_services =
    record service { id = "s2"; outputs = measures command.function.id }
    ∷ record service { id = "s3"; outputs = measures "urn:infai:ses:measuring-function:other" }
    ∷ record service { id = "s1"; outputs = measures command.function.id }
    ∷ []

get_filtered_services_ids_example :
    ((id : String)
      → has_id id (get_filtered_services model false command type_services)
        ≡ serves_under model false command id type_services)
    × IsDistinct (get_filtered_services model false command type_services)
get_filtered_services_ids_example = get_filtered_services_ids model false command type_services

filtered_ids :
    (has_id "s1" (get_filtered_services model false command type_services) ≡ true)
    × (has_id "s3" (get_filtered_services model false command type_services) ≡ false)
unfolding get_filtered_services has_id
filtered_ids = (refl, refl)

-- a group of two devices, of one type with two services of the command
abbrev two_devices : DeviceGroups Memory Doc
two_devices = record (groups "parallel") {
  repo = record repo {
    get_device_group = λ token id. ok (record { id = id; device_ids = "d" ∷ "e" ∷ [] });
    get_device_type = λ token id. ok (record { id = id; services = type_services });
  };
}

abbrev sub_tasks : List GroupTaskMetadataElement
unfolding get_sub_tasks get_filtered_services
sub_tasks = elim (get_sub_tasks two_devices command (task "t")) [ ok es ↦ es | err e ↦ [] ]

sub_task_ids : map (λ e. e.task.id) sub_tasks ≡ "t_0_0" ∷ "t_0_1" ∷ "t_1_0" ∷ "t_1_1" ∷ []
unfolding get_sub_tasks get_filtered_services sub_tasks
sub_task_ids = refl

made_sub_tasks : get_sub_tasks two_devices command (task "t") ≡ ok sub_tasks
unfolding get_sub_tasks get_filtered_services sub_tasks
made_sub_tasks = refl

get_sub_tasks-HasDistinctIds_example : HasDistinctIds sub_tasks
get_sub_tasks-HasDistinctIds_example =
    get_sub_tasks-HasDistinctIds two_devices command (task "t") sub_tasks made_sub_tasks
