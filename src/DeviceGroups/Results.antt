-- ===== src/DeviceGroups/Results.antt =====
-- lib/devicegroups/devicegroups.go (ProcessResponse and what it calls): the results of a group's
-- sub-tasks, collected until none is missing.
use Prim.Native.String.{◌++◌}
use external_task_worker.Base.{
  String, Bool, true, false, Option, none, some, List, [], ◌∷◌, ◌++◌ as ◌++ᴸ◌, not, if◌then◌else◌,
}
use external_task_worker.Result.{Err, Result, ok, err, is_not_fount, Exec, ◌>>=◌, ◌>>◌}
use external_task_worker.Model.{Value}
use external_task_worker.Messages.{GroupTaskMetadata, GroupTaskMetadataElement}
use external_task_worker.World.{World}
use external_task_worker.DeviceGroups.Storage.{
  DeviceGroups, SubResultWrapper, call, get_group_metadata, get_sub_result, set_sub_result,
  metadata_key_prefix, result_key_prefix, last_call_info,
}

-- The values that the loop of getTaskResults has collected, and the error that ended it.
pub record Gathered : Type 0 where
  pub results : List Value
  pub missing : List GroupTaskMetadataElement
  pub error : Option Err

abbrev pub nothing_gathered : Option Err → Gathered
nothing_gathered e = record { results = []; missing = []; error = e }

-- `err == nil && !subResult.Failed` appends the value; a failed one leaves no result
abbrev pub add_result : SubResultWrapper → Gathered → Gathered
add_result r g = record g { results = if not r.failed then r.value ∷ g.results else g.results }

-- `err == ErrNotFount`
abbrev pub add_missing : GroupTaskMetadataElement → Gathered → Gathered
add_missing sub g = record g { missing = sub ∷ g.missing }

abbrev pub is_empty {ℓ} : {A : Type ℓ} → List A → Bool
is_empty [] = true
is_empty (x ∷ xs) = false

module _ {S B : Type 0} (this : DeviceGroups S B) where
  abbrev step :
      GroupTaskMetadataElement
      → Result SubResultWrapper × World S
      → (World S → Gathered × World S)
      → Gathered × World S
  step sub (ok r, w) rest = let (g, w') = rest w in (add_result r g, w')
  step sub (err e, w) rest =
      if is_not_fount e
      then (let (g, w') = rest w in (add_missing sub g, w'))
      else (nothing_gathered (some e), w)

  -- the loop of getTaskResults
  unfoldable pub gather : List GroupTaskMetadataElement → World S → Gathered × World S
  gather [] w = (nothing_gathered none, w)
  gather (sub ∷ subs) w = step sub (get_sub_result this sub.task.id w) (gather subs)

  -- `getTaskResults`: without metadata nothing is gathered
  unfoldable pub get_task_results : String → Exec (World S) (GroupTaskMetadata × Gathered)
  get_task_results task_id = do
    metadata ← get_group_metadata this task_id
    λ w. let (g, w') = gather metadata.children w in (ok (metadata, g), w')

  abbrev finish :
      GroupTaskMetadata → Gathered → Exec (World S) (GroupTaskMetadataElement × List Value × Bool)
  finish metadata g w = elim g.error [
    | some e ↦ (err e, w)
    | none ↦ (ok (metadata.parent, g.results, is_empty g.missing), w)
  ]

  unfoldable pub is_finished :
      String → Exec (World S) (GroupTaskMetadataElement × List Value × Bool)
  is_finished task_id = do (metadata, g) ← get_task_results task_id; finish metadata g

  abbrev delete_key : String → World S → World S
  delete_key key w = (call (this.db.delete key) w).1

  unfoldable pub clear_element : GroupTaskMetadataElement → World S → World S
  clear_element e w = delete_key (last_call_info ++ e.task.id) (
      delete_key (result_key_prefix ++ e.task.id) (delete_key (metadata_key_prefix ++ e.task.id) w))

  unfoldable pub clear_elements : List GroupTaskMetadataElement → World S → World S
  clear_elements [] w = w
  clear_elements (e ∷ es) w = clear_elements es (clear_element e w)

  abbrev pub clear_found : Result GroupTaskMetadata × World S → World S
  clear_found (ok meta, w) = clear_elements (meta.children ++ᴸ meta.parent ∷ []) w
  clear_found (err e, w) = w

  -- `clearTaskData`
  unfoldable pub clear_task_data : String → World S → World S
  clear_task_data parent_task_id w = clear_found (get_group_metadata this parent_task_id w)

  abbrev clear_if_finished :
      GroupTaskMetadataElement × List Value × Bool
      → Exec (World S) (GroupTaskMetadataElement × List Value × Bool)
  clear_if_finished (parent, results, finished) w =
      (ok (parent, results, finished), if finished then clear_task_data parent.task.id w else w)

  -- `ProcessResponse`
  unfoldable pub process_response :
      String → Value → Exec (World S) (GroupTaskMetadataElement × List Value × Bool)
  process_response sub_task_id sub_result = do
    set_sub_result this sub_task_id (record { failed = false; value = sub_result })
    answer ← is_finished sub_task_id
    clear_if_finished answer
