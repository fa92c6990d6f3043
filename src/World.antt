-- ===== src/World.antt =====
-- What a call of the worker reads and changes: the key-value store, the clock, and the calls that
-- leave the worker, in order. Between two readings inside one call the clock stands still, but
-- for the sleeps of the code; between calls it is arbitrary. Times are nanoseconds since Go's
-- zero time.
use external_task_worker.Base.{
  ℕ, ◌+◌, ◌-◌, String, List, [], ◌∷◌, ◌++◌, Bool, leb, min, if◌then◌else◌,
}
use external_task_worker.Base.Int.{ℤ, pos, negsuc, max_int64}
use external_task_worker.Model.{Value}
use external_task_worker.Messages.{TaskInfo}

pub data Effect : Type 0 where
  -- `camunda.SetRetry(taskid, tenantId, number)`
  set_retry : String → String → ℤ → Effect
  -- `camunda.Error(...)`: task, process instance, process definition, business key, message, tenant
  camunda_error : String → String → String → String → String → String → Effect
  -- `camunda.CompleteTask(taskInfo, outputName, output)`
  complete_task : TaskInfo → String → Value → Effect
  -- `camunda.UnlockTask(taskInfo)`
  unlock_task : TaskInfo → Effect
  -- `producer.ProduceWithKey(topic, key, message)`
  produce_with_key : String → String → String → Effect

pub record World (S : Type 0) : Type 0 where
  pub store : S
  pub now : ℕ
  pub effects : List Effect
  -- CmdWorker.lastProducerCallSuccess and lastSuccessfulCamundaCall
  pub last_producer_call_success : Bool
  pub last_successful_camunda_call : ℕ

abbrev pub emit : {S : Type 0} → Effect → World S → World S
emit e w = record w { effects = w.effects ++ e ∷ [] }

abbrev pub sleep : {S : Type 0} → ℕ → World S → World S
sleep ns w = record w { now = w.now + ns }

abbrev pub millisecond : ℕ
millisecond = 1_000_000

-- `time.Since(t)`: a Duration is an int64 of nanoseconds and saturates
abbrev pub since : ℕ → ℕ → ℤ
since now t =
    if leb t now then pos (min (now - t) max_int64) else negsuc (min (t - now - 1) max_int64)
