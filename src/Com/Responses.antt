-- ===== src/Com/Responses.antt =====
-- lib/com/httpcommand/rest.go: which listener a request to the HTTP server reaches, and its answer. The
-- listeners are parameters.
use Prim.Native.Char.{code}
use Prim.Native.String.{String}
use external_task_worker.Base.{ℕ, Bool, true, false, ◌&&◌, ◌==◌, if◌then◌else◌, eqb}
use external_task_worker.Result.{Result, ok, err}
use external_task_worker.Com.Switch.{ComConfig}

pub data Method : Type 0 where
  method_post method_other : Method

-- what takes a request
pub data Endpoint : Type 0 where
  error_listener response_listener unknown_endpoint : Endpoint

-- `strings.TrimPrefix(path, "/")`
abbrev pub trim_slash : String → String
trim_slash String.[] = String.[]
trim_slash (String.◌∷◌ c s) = if eqb (code c) b'/' then s else String.◌∷◌ c s

abbrev is_post : Method → Bool
is_post method_post = true
is_post method_other = false

-- the router of httpcommand.NewConsumer
unfoldable pub route : ComConfig → Method → String → Endpoint
route config method path =
    if is_post method && trim_slash path == config.error_topic
    then error_listener
    else if is_post method && trim_slash path == "responses"
    then response_listener
    else unknown_endpoint

abbrev status_ok : ℕ
status_ok = 200

abbrev status_bad_request : ℕ
status_bad_request = 400

abbrev status_not_found : ℕ
status_not_found = 404

abbrev status_of : Result (Unit {0}) → ℕ
status_of (ok _) = status_ok
status_of (err e) = status_bad_request

-- the answer to a request, by what its listener gives for the body that could be read
unfoldable pub serve :
    ComConfig
    → (String → Result (Unit {0}))
    → (String → Result (Unit {0}))
    → Method
    → String
    → Result String
    → ℕ
unfolding route
serve config on_response on_error method path body = elim (route config method path) [
  | unknown_endpoint ↦ status_not_found
  | error_listener ↦ answer on_error body
  | response_listener ↦ answer on_response body
]
  where
    answer : (String → Result (Unit {0})) → Result String → ℕ
    answer listener (err e) = status_bad_request
    answer listener (ok msg) =
        if config.http_command_consumer_sync then status_of (listener msg) else status_ok
