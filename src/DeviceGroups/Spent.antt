-- ===== src/DeviceGroups/Spent.antt =====
-- lib/devicegroups/devicegroups.go (ProcessCommand): when a serial scheduler gives up a task.
use external_task_worker.Base.{
  ◌≡◌, true, false, Option, none, some, List, [], if◌then◌else◌, String,
}
use external_task_worker.Base.Int.{ℤ, minus_one, ltbℤ, eqbℤ}
use external_task_worker.Model.{Value}
use external_task_worker.Messages.{RequestInfo, GroupTaskMetadata}
use external_task_worker.World.{World}
use external_task_worker.DeviceGroups.Db.{IsReliable}
use external_task_worker.DeviceGroups.Storage.{DeviceGroups, IsCodec}
use external_task_worker.DeviceGroups.Results.{is_empty}
use external_task_worker.DeviceGroups.Responses.{any_touches, members}
use external_task_worker.DeviceGroups.Commands.{Progress, no_results}
use external_task_worker.DeviceGroups.Sending.{States, state_of}

-- the sub-task of a request has used up its tries
abbrev pub IsSpent : ℤ → States → RequestInfo → Type 0
IsSpent retries st q =
    (eqbℤ retries minus_one ≡ false) × (ltbℤ retries (state_of st q).try_count ≡ true)

module _ {S B : Type 0} (this : DeviceGroups S B) (view : S → String → Option B)
    (reliable : IsReliable this.db view) (code : IsCodec this.sub_task_state_codec) where
  -- What is so where the schedule gives the task up: only the results that there are, an error where
  -- there is none, and nothing left under the keys of the members of the group.
  abbrev pub IsGivenUp : GroupTaskMetadata → List Value → World S → Progress × World S → Type 0
  IsGivenUp meta results w done =
      (done.0.completed ≡ true)
      × (done.0.next_messages ≡ [])
      × (done.0.finished_results ≡ results)
      × (done.0.error ≡ (if is_empty results then some no_results else none))
      × ((k : String)
          → view done.1.store k ≡ (if any_touches (members meta) k then none else view w.store k))
