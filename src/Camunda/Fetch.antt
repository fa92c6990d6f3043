-- ===== src/Camunda/Fetch.antt =====
-- lib/camunda/camunda.go (ProvideTasks, getShardTasks, UnlockTask, SetRetry): the calls to an engine
-- beside the completion. What the engine answers is a parameter; texts of errors are shortened.
use external_task_worker.Base.{
  ℕ, zero, suc, ◌≤◌, String, ◌≡◌, List, [], ◌∷◌, ◌++◌ as ◌++ᴸ◌, eqb, min, if◌then◌else◌,
}
use external_task_worker.Base.Int.{ℤ, pos, eqbℤ}
use external_task_worker.Result.{Err, failure, Result, ok, err, Exec}
use external_task_worker.Messages.{CamundaExternalTask, TaskInfo}
use external_task_worker.World.{World}
use external_task_worker.Camunda.Completion.{Answer, no_answer, status}
use external_task_worker.Camunda.Retry.{retry}

-- CamundaFetchRequest with its address and its topic
pub record FetchRequest : Type 0 where
  pub shard : String
  pub worker_id : String
  pub max_tasks : ℤ
  pub topic_name : String
  pub lock_duration : ℤ
  pub async_response_timeout : ℤ

-- the struct Camunda with the configuration that it reads here; a request that cannot be made has no
-- answer, and the answer to a fetch may depend on the
-- fetches before it
pub record Fetching : Type 0 where
  pub worker_id : String
  pub camunda_worker_tasks : ℤ
  pub camunda_fetch_lock_duration : ℤ
  pub camunda_topic : String
  pub camunda_long_poll_timeout : ℤ
  pub fetch_retries : ℤ
  pub fetch : List FetchRequest → FetchRequest → Answer
  pub decode : String → Result (List CamundaExternalTask)

-- what an iteration sends on the channels
pub data Provided : Type 0 where
  tasks_provided : List CamundaExternalTask → Provided
  error_provided : Err → Provided

module _ (this : Fetching) where
  unfoldable pub fetch_request : String → FetchRequest
  fetch_request shard = record {
    shard = shard;
    worker_id = this.worker_id;
    max_tasks = this.camunda_worker_tasks;
    topic_name = this.camunda_topic;
    lock_duration = this.camunda_fetch_lock_duration;
    async_response_timeout =
        if eqbℤ this.camunda_long_poll_timeout (pos 0)
        then pos 10000
        else this.camunda_long_poll_timeout;
  }

  abbrev tasks_of : Answer → Result (List CamundaExternalTask)
  tasks_of (no_answer e) = err (failure e)
  tasks_of (status code body) = if eqb code 200 then this.decode body else err (failure body)

  unfoldable pub get_shard_tasks :
      String → Exec (World (List FetchRequest)) (List CamundaExternalTask)
  unfolding fetch_request
  get_shard_tasks shard w =
      let request = fetch_request shard in
      (tasks_of (this.fetch w.store request), record w { store = w.store ++ᴸ request ∷ [] })

  abbrev provided : Result (List CamundaExternalTask) → Provided
  provided (ok tasks) = tasks_provided tasks
  provided (err e) = error_provided e

  -- one iteration of the goroutine of a shard
  unfoldable pub provide_round :
      String → World (List FetchRequest) → Provided × World (List FetchRequest)
  unfolding get_shard_tasks
  provide_round shard w =
      let (r, w') = retry this.fetch_retries 0 (get_shard_tasks shard) w in (provided r, w')

abbrev pub repeated : {A : Type 0} → ℕ → A → List A
repeated zero a = []
repeated (suc n) a = a ∷ repeated n a

module _ (this : Fetching) (shard : String) where
  -- the requests of a loop: at most one for each round, and one where there is a round
  abbrev pub Asks : ℕ → List FetchRequest → List FetchRequest → Type 0
  Asks rounds before after =
      (k : ℕ) × (k ≤ rounds)
      × (min rounds 1 ≤ k)
      × (after ≡ before ++ᴸ repeated k (fetch_request this shard))

-- the other calls: `unlock`, and `retries` with its number
pub data ControlCall : Type 0 where
  unlocks : String → String → ControlCall
  sets_retries : String → String → ℤ → ControlCall

module _ (get_shard_for_user : String → Result String) (answer : ControlCall → Answer) where
  -- an answer with a status of 300 or more is logged only
  abbrev unlocked : Answer → Result (Unit {0})
  unlocked (no_answer e) = err (failure e)
  unlocked (status code body) = ok tt

  -- UnlockTask, and the calls that it makes
  unfoldable pub unlock_task : TaskInfo → Result (Unit {0}) × List ControlCall
  unlock_task info = elim (get_shard_for_user info.tenant_id) [
    | err e ↦ (err e, [])
    | ok shard ↦ (unlocked (answer (unlocks shard info.task_id)), unlocks shard info.task_id ∷ [])
  ]

  -- SetRetry returns nothing; every failure is logged only
  unfoldable pub set_retry : String → String → ℤ → List ControlCall
  set_retry task_id tenant_id retries = elim (get_shard_for_user tenant_id) [
    | err e ↦ []
    | ok shard ↦ sets_retries shard task_id retries ∷ []
  ]
