-- ===== src/Tests/Com.antt =====
-- A reader that refuses one message, and a configuration that is optimistic.
use external_task_worker.Base.{
  ℕ, ◌+◌, Option, ◌++◌, All, String, ◌≡◌, ◌⊎◌, refl, true, false, none, some, List, [], ◌∷◌, ◌==◌,
  if◌then◌else◌, arith,
}
use external_task_worker.Base.Int.{pos}
use external_task_worker.Result.{Err, failure, Result, ok, err}
use external_task_worker.World.{World}
use external_task_worker.Com.Switch.{
  ComConfig, Start, http_server, response_reader, new_consumer, Running,
}
use external_task_worker.Com.Switch.Runs.{
  IsRunning, AsksHttp, AsksKafka, IsAsked, Opens, new_consumer_runs,
}
use external_task_worker.Com.Responses.{
  route, method_post, method_other, error_listener, response_listener, unknown_endpoint,
}
use external_task_worker.Com.Reader.{
  Message, recording, fetched, goes_on, young_values, IsSettled, IsRefused, consume,
  consume_commits,
}
use external_task_worker.Config.{Field, string_field, bool_field, Parsers, load_config, get_string}
use external_task_worker.Config.Loaded.{optimistic_ends}
use external_task_worker.Worker.{CmdWorker, execute_task}
use external_task_worker.Tests.Fixtures.{Memory, Doc, task, at, started, group, element}
use external_task_worker.Tests.Work.{worker}

abbrev answer : String → Result (Unit {0})
answer value = if value == "bad" then err (failure "invalid message") else ok tt

abbrev commit : ℕ → Option Err
commit offset = none

abbrev bad : Message
bad = record { offset = 0; value = "bad"; age = 5 }

abbrev good : Message
good = record { offset = 1; value = "good"; age = 5 }

abbrev two : List Message
two = bad ∷ good ∷ []

consume_commits_example :
    ((consume (recording answer commit) (fetched two) [] 0).0 ≡ goes_on)
    × ((consume (recording answer commit) (fetched two) [] 0).1 ≡ young_values answer commit two)
    × ((before : List Message) (m : Message) (behind : List Message)
        → two ≡ before ++ m ∷ behind
        → IsSettled answer commit m
        → All (IsRefused answer commit) behind
        → (consume (recording answer commit) (fetched two) [] 0).2 ≡ m.offset + 1)
    × (All (IsRefused answer commit) two
        → (consume (recording answer commit) (fetched two) [] 0).2 ≡ 0)
consume_commits_example = consume_commits answer commit (λ offset. refl) two [] 0

-- The first message is refused, and the commit of the second covers it.
IsRefused-committed :
    IsRefused answer commit bad × ((consume (recording answer commit) (fetched two) [] 0).2 ≡ 2)
unfolding consume
IsRefused-committed = ((omega arith, failure "invalid message", refl), refl)

-- the parts of the names of three fields, and an environment that asks for another scheduler
abbrev camel : String → List (String × String)
camel name =
    if name == "GroupScheduler" then ("", "Group") ∷ ("", "Scheduler") ∷ [] else (name, "") ∷ []

abbrev parsers : Parsers
parsers = record {
  parse_int = λ bits s. pos 0;
  parse_bool = λ s. s == "true";
  parse_float = λ s. 0;
  trim_space = λ s. s;
  to_upper = λ s. if s == "Group_Scheduler" then "GROUP_SCHEDULER" else s;
  camel_matches = camel;
}

abbrev env : String → String
env name = if name == "GROUP_SCHEDULER" then "round_robin" else ""

abbrev decoded : List (String × Field)
decoded =
    ("CompletionStrategy", string_field "optimistic")
    ∷ ("Debug", bool_field true)
    ∷ ("GroupScheduler", string_field "sequential")
    ∷ []

abbrev forced : List (String × Field)
forced =
    ("CompletionStrategy", string_field "optimistic")
    ∷ ("Debug", bool_field true)
    ∷ ("GroupScheduler", string_field "parallel")
    ∷ []

loads : load_config parsers env decoded ≡ some forced
unfolding load_config
loads = refl

abbrev optimistic_worker : CmdWorker Memory Doc
optimistic_worker = record worker { completion_strategy = "optimistic" }

optimistic_ends_example :
    (w' : World Memory) × (execute_task optimistic_worker 1
        (task "t")
        "caller"
        (at (started (group (element "t_0_0" ∷ []))))
      ≡ some w')
unfolding get_string
optimistic_ends_example =
    optimistic_ends parsers env decoded forced optimistic_worker loads refl refl refl 0 (task "t")
      "caller" (at (started (group (element "t_0_0" ∷ []))))

abbrev com_config : ComConfig
com_config = record {
  http_command_consumer_port = "8080";
  http_command_consumer_sync = true;
  disable_http_consumer = false;
  kafka_url = "kafka:9092";
  disable_kafka_consumer = false;
  kafka_consumer_max_wait = "1s";
  response_topic = "responses";
  error_topic = "http://errors";
}

abbrev starts : Start
starts = record { parse_wait = λ s. none; open_topic = λ topic. none }

both_run : new_consumer starts com_config ≡ (ok tt, http_server ∷ response_reader "responses" ∷ [])
unfolding new_consumer
both_run = refl

routes :
    (route (record com_config { error_topic = "errors" }) method_post "/errors" ≡ error_listener)
    × (route com_config method_post "/responses" ≡ response_listener)
    × (route com_config method_other "/responses" ≡ unknown_endpoint)
unfolding route
routes = (refl, refl, refl)

new_consumer_runs_example :
    ((new_consumer starts com_config).0 ≡ ok tt
      → AsksHttp starts com_config ⊎ AsksKafka starts com_config)
    × (Opens starts com_config
        → AsksHttp starts com_config ⊎ AsksKafka starts com_config
        → (new_consumer starts com_config).0 ≡ ok tt)
    × ((new_consumer starts com_config).0 ≡ ok tt
        → (r : Running)
        → (IsRunning r (new_consumer starts com_config).1 → IsAsked starts com_config r)
          × (IsAsked starts com_config r → IsRunning r (new_consumer starts com_config).1))
    × ((e : Err)
        → (new_consumer starts com_config).0 ≡ err e
        → (new_consumer starts com_config).1 ≡ [])
new_consumer_runs_example = new_consumer_runs starts com_config
