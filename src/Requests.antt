-- ===== src/Requests.antt =====
-- lib/command.go: the command of a camunda task, read from the task's variables. `json.Unmarshal` into
-- each type is a parameter.
pub mod SetVarOnPath
mod Places
pub mod Kinds
pub mod Payload
use external_task_worker.Base.{String, Option, none, some, List, [], ◌∷◌, ◌==◌, if◌then◌else◌}
use external_task_worker.Base.Text.{before, split_on, join}
use external_task_worker.Result.{Result, failure, ok, err, and_then}
use external_task_worker.Model.{Value, str, MarshallerModel}
use external_task_worker.Messages.{CamundaExternalTask, CamundaVariable, Command, Overwrite}
use external_task_worker.Messages.Aspects.{set_aspects}
use external_task_worker.Requests.SetVarOnPath.{Floats, set_var_on_path}

-- `task.Variables[name]` with its `ok`
unfoldable pub variable : String → List (String × CamundaVariable) → Option CamundaVariable
variable name [] = none
variable name ((k, v) ∷ rest) = if k == name then some v else variable name rest

-- `.Value.(string)` of an entry; a missing entry has the value nil
abbrev pub as_string : Option CamundaVariable → Option String
as_string none = none
as_string (some v) = elim v.value [ str s ↦ some s | _ ↦ none ]

-- util/config.go
abbrev pub camunda_variables_incident : String
camunda_variables_incident = "incident"

abbrev pub camunda_variables_payload : String
camunda_variables_payload = "payload"

abbrev pub camunda_variables_overwrite : String
camunda_variables_overwrite = "overwrite"

unfoldable pub get_incident : CamundaExternalTask → Option String
unfolding variable
get_incident task = as_string (variable camunda_variables_incident task.variables)

-- the fields that an overwrite replaces, nil and empty ones too
abbrev pub overwritten : Command → Overwrite → Command
overwritten command o = record command {
  device_id = o.device_id;
  device = o.device;
  service_id = o.service_id;
  service = o.service;
  protocol = o.protocol;
  protocol_id = o.protocol_id;
}

-- `result[key] = v`
unfoldable pub put_parameter : String → Value → List (String × Value) → List (String × Value)
put_parameter k v [] = (k, v) ∷ []
put_parameter k v ((j, u) ∷ rest) =
    if j == k then (k, v) ∷ rest else (j, u) ∷ put_parameter k v rest

-- `strings.SplitN(key, ".", 2)`: what follows the first dot, if there is one
unfoldable pub after_dot : String → Option String
after_dot key = rest_of (split_on b'.' key)
  where
    rest_of : List String → Option String
    rest_of [] = none
    rest_of (first ∷ []) = none
    rest_of (first ∷ second ∷ more) = some (join "." (second ∷ more))

module _ (unmarshal_value : String → Result Value) where
  -- a string that is JSON is read, any other stays
  abbrev pub parsed : Value → Value
  parsed (str s) = elim (unmarshal_value s) [ ok v ↦ v | err e ↦ str s ]
  parsed v = v

  abbrev parameter_name : Option String → String
  parameter_name none = ""
  parameter_name (some name) = name

  -- the loop of getPayloadParameter, in the order in which the map is walked
  unfoldable pub payload_parameter :
      List (String × CamundaVariable) → List (String × Value) → List (String × Value)
  unfolding after_dot put_parameter
  payload_parameter [] result = result
  payload_parameter ((key, v) ∷ rest) result = payload_parameter rest (
      if before b'.' key == "inputs"
      then put_parameter (parameter_name (after_dot key)) (parsed v.value) result
      else result)

  unfoldable pub get_payload_parameter : CamundaExternalTask → List (String × Value)
  unfolding payload_parameter
  get_payload_parameter task = payload_parameter task.variables []

module _ (floats : Floats) (unmarshal_value : String → Result Value) where
  -- For the empty name the result becomes the input, also beside an error; for any other name the
  -- result is the input itself, changed in place. Errors are logged only.
  unfoldable pub set_payload_parameter : Command → List (String × Value) → Command
  unfolding set_var_on_path
  set_payload_parameter command [] = command
  set_payload_parameter command ((name, value) ∷ rest) =
      let path = if name == "" then [] else split_on b'.' name in
      let (input, _) = set_var_on_path floats unmarshal_value command.input path value in
      set_payload_parameter (record command { input = input }) rest

module _ (marshaller_model : MarshallerModel) (unmarshal_command : String → Result Command)
    (unmarshal_overwrite : String → Result Overwrite) (unmarshal_value : String → Result Value)
    (floats : Floats) where
  -- the command after setDeviceOverwrite, by what `task.Variables["overwrite"]` is
  abbrev pub overwrite_with : Command → Option CamundaVariable → Result Command
  overwrite_with command none = ok command
  overwrite_with command (some v) = elim v.value [
    | str s ↦ and_then (λ o. ok (overwritten command o)) (unmarshal_overwrite s)
    | _ ↦ err (failure "overwrite variable is not a string")
  ]

  unfoldable pub set_device_overwrite : Command → CamundaExternalTask → Result Command
  unfolding variable
  set_device_overwrite command task =
      overwrite_with command (variable camunda_variables_overwrite task.variables)

  abbrev payload_of : Option String → Result String
  payload_of none = err (failure "ERROR: payload is not a string")
  payload_of (some s) = ok s

  infixl 10 ◌>>=◌
  abbrev ◌>>=◌ : {A B : Type 0} → Result A → (A → Result B) → Result B
  m >>= f = and_then f m

  unfoldable pub get_command_request : CamundaExternalTask → Result Command
  unfolding set_device_overwrite get_payload_parameter set_payload_parameter set_aspects
  get_command_request task = do
    payload ← payload_of (as_string (variable camunda_variables_payload task.variables))
    command ← unmarshal_command payload
    addressed ← set_device_overwrite (set_aspects marshaller_model.aspect_nodes_alias command) task
    ok (
        set_payload_parameter floats unmarshal_value addressed
          (get_payload_parameter unmarshal_value task))
