-- ===== src/DeviceGroups/SubTasks.antt =====
-- lib/devicegroups/devicegroups.go (GetSubTasks and what it calls) and idmodifier.go: the sub-tasks of
-- a command, one for each device and service that serve it.
pub mod Distinct
use Prim.Native.String.{◌++◌}
use external_task_worker.Base.{
  ℕ, ◌+◌, String, Option, none, some, List, [], ◌∷◌, map, not, ◌&&◌, ◌||◌, ◌==◌, ◌++◌ as ◌++ᴸ◌,
  if◌then◌else◌,
}
use external_task_worker.Base.Text.{before, itoa}
use external_task_worker.Result.{Result, ok, and_then}
use external_task_worker.Model.{Device, Service}
use external_task_worker.Messages.{CamundaExternalTask, Command, GroupTaskMetadataElement}
use external_task_worker.DeviceGroups.Storage.{DeviceGroups}
use external_task_worker.DeviceGroups.Services.{get_filtered_services}

-- `pureId, _ = SplitModifier(id)`; the separator is "$"
unfoldable pub split_modifier : String → String
unfolding before
split_modifier id = before b'$' id

unfoldable pub strip_device : Device → Device
unfolding split_modifier
strip_device d = record {
  id = split_modifier d.id;
  device_type_id = split_modifier d.device_type_id;
}

-- `*e.Command.Device` is changed in place: every command that points to it sees the change
unfoldable pub strip_pointer : Option Device → Option Device
unfolding strip_device
strip_pointer none = none
strip_pointer (some d) = some (strip_device d)

-- the body of the loop of GetSubTasks
unfoldable pub remove_modifier : GroupTaskMetadataElement → GroupTaskMetadataElement
unfolding strip_pointer
remove_modifier e = record e {
  command = record e.command {
    device = strip_pointer e.command.device;
    device_id =
        if e.command.device_id == ""
        then e.command.device_id
        else split_modifier e.command.device_id;
  };
}

-- `newTask.Id = task.Id + "_" + strconv.Itoa(i) + "_" + strconv.Itoa(j)`
unfoldable pub sub_task_id : String → ℕ → ℕ → String
unfolding itoa
sub_task_id task_id i j = ((task_id ++ "_") ++ itoa i) ++ ("_" ++ itoa j)

-- one sub-task
unfoldable pub sub_task :
    Command → CamundaExternalTask → ℕ → ℕ → String → Device → Service → GroupTaskMetadataElement
unfolding sub_task_id
sub_task request task i j device_id device service = record {
  command = record request {
    device_id = device_id;
    device = some device;
    service_id = service.id;
    service = some service;
  };
  task = record task { id = sub_task_id task.id i j };
}

-- `for j, service := range services`
unfoldable pub service_sub_tasks :
    Command
    → CamundaExternalTask
    → ℕ
    → ℕ
    → String
    → Device
    → List Service
    → List GroupTaskMetadataElement
unfolding sub_task
service_sub_tasks request task i j device_id device [] = []
service_sub_tasks request task i j device_id device (s ∷ ss) =
    sub_task request task i j device_id device s
    ∷ service_sub_tasks request task i (j + 1) device_id device ss

infixl 10 ◌>>=◌
abbrev ◌>>=◌ : {A B : Type 0} → Result A → (A → Result B) → Result B
m >>= f = and_then f m

module _ {S B : Type 0} (this : DeviceGroups S B) where
  open this use {repo, marshaller_model, filter_events}

  -- GetDevice, GetDeviceType, getFilteredServices and the inner loop, for device i
  unfoldable pub device_sub_tasks :
      String → Command → CamundaExternalTask → ℕ → String → Result (List GroupTaskMetadataElement)
  unfolding get_filtered_services service_sub_tasks
  device_sub_tasks token request task i device_id = do
    device ← repo.get_device token device_id
    device_type ← repo.get_device_type token device.device_type_id
    ok (
        service_sub_tasks request task i 0 device_id device
          (get_filtered_services marshaller_model filter_events request device_type.services))

  unfoldable pub get_empty_service_sub_tasks :
      Command → CamundaExternalTask → Result (List GroupTaskMetadataElement)
  unfolding device_sub_tasks
  get_empty_service_sub_tasks request task = do
    token ← repo.get_token task.tenant_id
    device_sub_tasks token request task 0 request.device_id

  -- `for i, deviceId := range group.DeviceIds`
  unfoldable pub devices_sub_tasks :
      String
      → Command
      → CamundaExternalTask
      → ℕ
      → List String
      → Result (List GroupTaskMetadataElement)
  unfolding device_sub_tasks
  devices_sub_tasks token request task i [] = ok []
  devices_sub_tasks token request task i (device_id ∷ rest) = do
    subs ← device_sub_tasks token request task i device_id
    others ← devices_sub_tasks token request task (i + 1) rest
    ok (subs ++ᴸ others)

  unfoldable pub get_group_sub_tasks :
      Command → CamundaExternalTask → Result (List GroupTaskMetadataElement)
  unfolding devices_sub_tasks
  get_group_sub_tasks request task =
      if request.device_group_id == ""
      then ok (record { command = request; task = task } ∷ [])
      else (do
        token ← repo.get_token task.tenant_id
        group ← repo.get_device_group token request.device_group_id
        devices_sub_tasks token request task 0 group.device_ids)

  -- `getSubTasks`
  unfoldable pub raw_sub_tasks :
      Command → CamundaExternalTask → Result (List GroupTaskMetadataElement)
  unfolding get_group_sub_tasks get_empty_service_sub_tasks
  raw_sub_tasks request task =
      if not (request.device_group_id == "")
      then get_group_sub_tasks request task
      else if not (request.device_id == "") && request.service_id == ""
      then get_empty_service_sub_tasks request task
      else ok (record { command = request; task = task } ∷ [])

  -- `GetSubTasks`
  unfoldable pub get_sub_tasks :
      Command → CamundaExternalTask → Result (List GroupTaskMetadataElement)
  unfolding raw_sub_tasks remove_modifier
  get_sub_tasks request task = do
    result ← raw_sub_tasks request task
    ok (map remove_modifier result)

-- What the caller's command is after GetSubTasks: a single sub-task shares its device.
unfoldable pub after_sub_tasks : Command → Command
unfolding strip_pointer
after_sub_tasks request =
    if not (request.device_group_id == "")
      || (not (request.device_id == "") && request.service_id == "")
    then request
    else record request { device = strip_pointer request.device }
