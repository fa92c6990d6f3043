-- ===== src/Tests/Engine.antt =====
-- An engine that refuses the first two requests, and a cache that keeps every key.
use external_task_worker.Base.{
  ◌⊎◌, ◌++◌, ℕ, String, ◌≡◌, refl, Bool, true, false, List, [], ◌∷◌, ◌==◌, ◌||◌, if◌then◌else◌,
  arith, eq_refl,
}
use external_task_worker.Base.Text.{itoa}
use external_task_worker.Result.{failure, Result, ok, err}
use external_task_worker.Model.{null, str}
use external_task_worker.Messages.{TaskInfo}
use external_task_worker.Camunda.Completion.{
  Camunda, Engine, Cache, IsCache, Call, Answer, status, no_answer, complete_task,
}
use external_task_worker.Camunda.Completion.Once.{
  complete_task_once, post_completion_answers, IsAccepted, IsRefused, IsUnanswered, Leaves,
  incident_call, once, twice,
}
use external_task_worker.Base.Int.{pos}
use external_task_worker.World.{World}
use external_task_worker.Camunda.Retry.{retry}
use external_task_worker.Camunda.Fetch.{FetchRequest, Fetching, tasks_provided, provide_round}

abbrev Keys : Type 0
Keys = List String

unfoldable has_key : Keys → String → Bool
has_key [] k = false
has_key (x ∷ xs) k = x == k || has_key xs k

abbrev keep_if : Result (Unit {0}) → String → Engine Keys → Engine Keys
keep_if (ok u) key w = record w { cache = key ∷ w.cache }
keep_if (err e) key w = w

abbrev fetch : String → Result (Unit {0}) × Engine Keys → Result (Unit {0}) × Engine Keys
fetch key (r, w) = (r, keep_if r key w)

abbrev keys : Cache Keys
keys = record {
  has = has_key;
  use_or_get = λ key get w. if has_key w.cache key then (ok tt, w) else fetch key (get w);
}

fetch_calls :
    (key : String) (r : Result (Unit {0}) × Engine Keys) → (fetch key r).1.calls ≡ r.1.calls
fetch_calls key (ok u, w) = refl
fetch_calls key (err e, w) = refl

fetch_keeps :
    (key : String) (r : Result (Unit {0}) × Engine Keys)
    → r.0 ≡ ok tt
    → has_key (fetch key r).1.cache key ≡ true
unfolding has_key
fetch_keeps key (ok u, w) h = rw (eq_refl key)
fetch_keeps key (err e, w) h = ground (arith, h)

keys-IsCache : IsCache keys
keys-IsCache = record {
  use_hit = λ key get w h. rw h;
  use_miss = λ key get w h. rw h (refl, fetch_calls key (get w));
  use_stored = λ key get w h e. rw h (fetch_keeps key (get w) e);
}

-- the answers of the engine to its first, second and later requests
abbrev answers : Answer → Answer → List Call → Answer
answers first second [] = first
answers first second (c ∷ calls) = second

abbrev camunda : Answer → Answer → Camunda Keys
camunda first second = record {
  worker_id = "w";
  use_http_incident_producer = true;
  incident_api_url = "";
  kafka_incident_topic = "incidents";
  task_complete_cache = keys;
  get_shard_for_user = λ user. ok "shard";
  post = λ calls request. answers first second calls;
  get_id = λ calls. "id";
}

abbrev info : TaskInfo
info = record {
  worker_id = "";
  task_id = "t";
  process_instance_id = "p";
  process_definition_id = "pd";
  completion_strategy = "";
  time = "";
  tenant_id = "user";
  business_key = "b";
}

abbrev begun : Engine Keys
begun = record { cache = []; calls = [] }

abbrev accepting : Camunda Keys
accepting = camunda (status 204 "") (status 204 "")

abbrev refusing : Camunda Keys
refusing = camunda (no_answer "timeout") (status 500 "no such task")

complete_task_once_example :
    complete_task accepting info "result"
      (str "off")
      (complete_task accepting info "result" (str "on") begun).1
    ≡ (ok tt, (complete_task accepting info "result" (str "on") begun).1)
unfolding complete_task has_key
complete_task_once_example =
    complete_task_once accepting keys-IsCache info info "result" "result" (str "on") (str "off")
      begun refl refl

post_completion_answers_example :
    (IsAccepted refusing info "result" null begun "shard" (no_answer "timeout")
      → Leaves refusing info "result" null begun "shard"
          (ok tt)
          (once refusing info "result" null begun "shard"))
    × ((msg : String)
        → IsRefused refusing info "result" null begun "shard" (no_answer "timeout") msg
          ⊎ IsUnanswered refusing info "result" null begun "shard" (no_answer "timeout") msg
        → (IsAccepted refusing info "result" null begun "shard" (status 500 "no such task")
            → Leaves refusing info "result" null begun "shard"
                (ok tt)
                (twice refusing info "result" null begun "shard"))
          × ((e : String)
              → IsUnanswered refusing info "result" null begun "shard" (status 500 "no such task") e
              → Leaves refusing info "result" null begun "shard"
                  (err (failure e))
                  (twice refusing info "result" null begun "shard"))
          × ((e : String)
              → IsRefused refusing info "result" null begun "shard" (status 500 "no such task") e
              → Leaves refusing info "result" null begun "shard" (err (failure e)) (
                  twice refusing info "result" null begun "shard"
                  ++ incident_call refusing info "result" null begun "shard" e
                      (twice refusing info "result" null begun "shard")
                    ∷ [])))
post_completion_answers_example =
    post_completion_answers refusing info "result" null begun "shard" refl

-- the second request was refused with the status 500
is_refused :
    IsRefused refusing info "result" null begun "shard"
      (status 500 "no such task")
      "unable to complete task: 500, no such task"
unfolding itoa
is_refused = (500, "no such task", refl, omega arith, refl)

abbrev counts : List (String × ℕ)
counts = ("a", 3) ∷ ("b", 1) ∷ ("c", 2) ∷ []

-- an engine that does not answer the first two fetches
abbrev fetching : Fetching
fetching = record {
  worker_id = "w";
  camunda_worker_tasks = pos 10;
  camunda_fetch_lock_duration = pos 60000;
  camunda_topic = "pessimistic";
  camunda_long_poll_timeout = pos 0;
  fetch_retries = pos 3;
  fetch = λ before request. elim before [
    | _ ∷ _ ∷ _ ↦ status 200 "[]"
    | _ ↦ no_answer "connection refused"
  ];
  decode = λ body. ok [];
}

abbrev no_fetches : World (List FetchRequest)
no_fetches = record {
  store = [];
  now = 0;
  effects = [];
  last_producer_call_success = true;
  last_successful_camunda_call = 0;
}

third_fetch : (provide_round fetching "shard" no_fetches).0 ≡ tasks_provided []
unfolding provide_round retry
third_fetch = refl
