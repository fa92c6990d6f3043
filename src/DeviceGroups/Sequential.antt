-- ===== src/DeviceGroups/Sequential.antt =====
-- lib/devicegroups/sequential.go: the tries of the sub-tasks.
use external_task_worker.Base.{
  ℕ, String, Bool, Option, none, some, List, [], ◌∷◌, ◌||◌, if◌then◌else◌, keep,
}
use external_task_worker.Base.Int.{ℤ, pos, minus_one, succ64, lebℤ, ltbℤ, eqbℤ}
use external_task_worker.Result.{Err, Result, ok, err, is_not_fount, Exec, pure, ◌>>◌}
use external_task_worker.Messages.{SubTaskState, RequestInfo}
use external_task_worker.World.{World, since}
use external_task_worker.DeviceGroups.Storage.{DeviceGroups, get_sub_task_state, set_sub_task_state}

-- Go's zero value, which a missing state leaves
abbrev pub zero_state : SubTaskState
zero_state = record { last_try = 0; try_count = pos 0 }

-- `retries == -1 || element.SubTaskState.TryCount <= retries`
abbrev pub may_retry : ℤ → RequestInfo → Bool
may_retry retries e = eqbℤ retries minus_one || lebℤ e.sub_task_state.try_count retries

unfoldable pub filter_retries : ℤ → List RequestInfo → List RequestInfo
filter_retries retries requests = keep (may_retry retries) requests

-- `time.Since(element.SubTaskState.LastTry) > this.currentlyRunningTimeout`
abbrev pub is_idle : ℕ → ℤ → RequestInfo → Bool
is_idle now timeout e = ltbℤ timeout (since now e.sub_task_state.last_try)

unfoldable pub filter_currently_running : ℕ → ℤ → List RequestInfo → List RequestInfo
filter_currently_running now timeout requests = keep (is_idle now timeout) requests

-- a missing state is no error
abbrev pub state_or_zero : Result SubTaskState → Result SubTaskState
state_or_zero (ok state) = ok state
state_or_zero (err e) = if is_not_fount e then ok zero_state else err e

abbrev pub tried : ℕ → RequestInfo → SubTaskState
tried now e = record { last_try = now; try_count = succ64 e.sub_task_state.try_count }

module _ {S B : Type 0} (this : DeviceGroups S B) where
  abbrev pub load_state : String → Exec (World S) SubTaskState
  load_state task_id w = let (r, w') = get_sub_task_state this task_id w in (state_or_zero r, w')

  abbrev pub annotate_one :
      RequestInfo
      → Result SubTaskState × World S
      → (World S → (List RequestInfo × Option Err) × World S)
      → (List RequestInfo × Option Err) × World S
  annotate_one e (err x, w) rest = (([], some x), w)
  annotate_one e (ok state, w) rest =
      let ((es, x), w') = rest w in ((record e { sub_task_state = state } ∷ es, x), w')

  -- an error stands beside the requests that come before it
  unfoldable pub annotate_sub_task_states :
      List RequestInfo → World S → (List RequestInfo × Option Err) × World S
  annotate_sub_task_states [] w = (([], none), w)
  annotate_sub_task_states (e ∷ es) w =
      annotate_one e (load_state e.metadata.task.id w) (annotate_sub_task_states es)

  abbrev save_try : RequestInfo → Exec (World S) (Unit {0})
  save_try e w = set_sub_task_state this e.metadata.task.id (tried w.now e) w

  unfoldable pub update_sub_task_state : List RequestInfo → Exec (World S) (Unit {0})
  update_sub_task_state [] = pure tt
  update_sub_task_state (e ∷ es) = do save_try e; update_sub_task_state es
