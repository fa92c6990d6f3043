-- ===== src/Worker/Group.antt =====
-- What the worker does about the response to a sub-task, by the state of the sub-task's group.
use Prim.Native.String.{◌++◌}
use external_task_worker.Base.{
  none, ℕ, String, ◌≡◌, ◌≢◌, true, false, Option, some, List, [], get_elem?, ◌∷◌, ◌++◌ as ◌++ᴸ◌,
}
use external_task_worker.Base.Int.{ℤ, pos, ltbℤ}
use external_task_worker.Result.{Result, ok, err, err_not_fount}
use external_task_worker.Model.{Value, arr, nil}
use external_task_worker.Messages.{TaskInfo, GroupTaskMetadata, GroupTaskMetadataElement}
use external_task_worker.World.{World}
use external_task_worker.DeviceGroups.Results.{process_response}
use external_task_worker.DeviceGroups.Storage.{IsCodec}
use external_task_worker.DeviceGroups.Responses.{with_result, success, after_write}
use external_task_worker.DeviceGroups.Db.{IsReliable}
use external_task_worker.DeviceGroups.Collect.{Holds, HasGroup, Results, unanswered}
use external_task_worker.DeviceGroups.Completion.{process_response-waits, process_response_late}
use external_task_worker.Worker.{CmdWorker, is_sequential, handle_response, respond, items_of}

-- What a process is given of the values of its sub-tasks: the first alone where its command has a version
-- below 2, and else the array of them.
abbrev pub IsDelivered : ℤ → List Value → Value → Type 0
IsDelivered version vs output =
    ((v : Value) (rest : List Value) → ltbℤ version (pos 2) ≡ true → vs ≡ v ∷ rest → output ≡ v)
    × (ltbℤ version (pos 2) ≡ false → output ≡ arr (items_of vs))
    × (vs ≡ [] → output ≡ arr nil)

abbrev head : List Value → Option Value
head [] = none
head (v ∷ vs) = some v

module _ {S B : Type 0} (this : CmdWorker S B) (view : S → String → Option B)
    (reliable : IsReliable this.device_groups_handler.db view)
    (code : IsCodec this.device_groups_handler.sub_result_codec) where
  open this use {device_groups_handler}

  -- On a reliable store and under the scheduler `parallel`, a response after which a sub-task of the group
  -- still lacks a result completes nothing and sends nothing: its result is written, and no error
  -- is returned.
  pub handle_response-waits :
      (fuel : ℕ) (info : TaskInfo) (v : Value) (w : World S) (res : Results)
      (meta : GroupTaskMetadata)
      → is_sequential this ≡ false
      → Holds device_groups_handler view reliable w.store res
      → HasGroup device_groups_handler view reliable w.store info.task_id meta
      → unanswered (with_result info.task_id (success v) res) meta.children ≢ []
      → handle_response this fuel info v w
        ≡ some (ok tt, after_write device_groups_handler view reliable code info.task_id v w)
  unfolding handle_response respond
  handle_response-waits fuel info v w res meta parallel h m n = rw (
    process_response-waits device_groups_handler view reliable code info.task_id v w res meta h m n,
    parallel,
  )

  -- On a reliable store, once handleTaskResponse has completed a group, a later response for one of
  -- its sub-tasks completes nothing and sends nothing: its result is written, and no error is returned,
  -- as long as the store is as the completion left it.
  pub handle_response_late :
      (fuel : ℕ) (info : TaskInfo) (v : Value) (w : World S) (res : Results)
      (meta : GroupTaskMetadata)
      → Holds device_groups_handler view reliable w.store res
      → HasGroup device_groups_handler view reliable w.store info.task_id meta
      → HasGroup device_groups_handler view reliable w.store meta.parent.task.id meta
      → unanswered (with_result info.task_id (success v) res) meta.children ≡ []
      → (i : ℕ) (sub : GroupTaskMetadataElement) (again : TaskInfo) (late : Value) (w' : World S)
      → get_elem? meta.children i ≡ some sub
      → again.task_id ≡ sub.task.id
      → w'.store ≡ (process_response device_groups_handler info.task_id v w).1.store
      → handle_response this fuel again late w'
        ≡ some (ok tt, after_write device_groups_handler view reliable code again.task_id late w')
  unfolding handle_response respond
  handle_response_late fuel info v w res meta h m p e i sub again late w' at same left =
      let gone : process_response device_groups_handler again.task_id late w' ≡ (
        err err_not_fount,
        after_write device_groups_handler view reliable code again.task_id late w',
      ) =
        rw same (
          process_response_late device_groups_handler view reliable code info.task_id v w res meta h
            m p e i sub late w' at left) in
      rw gone
