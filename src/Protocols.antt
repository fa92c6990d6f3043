-- ===== src/Protocols.antt =====
-- lib/protocol.go: the message for the protocol handler of a sub-task, or the request of an event.
-- The marshaller service and the JSON text of a message are other code, and parameters.
use Prim.Native.String.{◌++◌}
use external_task_worker.Base.{
  ℕ, ◌-◌, ◌/◌, ◌*◌, String, Bool, true, false, Option, none, some, List, [], ◌∷◌, map, not, ◌&&◌,
  ◌||◌, ◌==◌, ◌++◌ as ◌++ᴸ◌, if◌then◌else◌,
}
use external_task_worker.Base.Int.{pos, ltbℤ}
use external_task_worker.Base.Text.{has_prefix, itoa}
use external_task_worker.Result.{failure, Result, ok, err, and_then, error_text}
use external_task_worker.Model.{
  Value, null, MarshallerModel, AspectNode, Function, Device, Service, Protocol, Interaction, event,
  event_and_request, ses_ontology_controlling_function, controlling_function_prefix,
}
use external_task_worker.Messages.{
  CamundaExternalTask, Command, ConfigurableV2, Metadata, ProtocolMsg, Trace, KafkaMessage,
  EventRequest,
}
use external_task_worker.Messages.Aspects.{get_aspects, set_output_aspect_nodes}
use external_task_worker.DeviceGroups.Storage.{Repo}

-- `marshaller.MarshallingV2RequestData`
pub record MarshallingV2RequestData : Type 0 where
  pub value : Value
  pub characteristic_id : String
  pub paths : List String
  pub function_id : String
  pub aspect_nodes : List AspectNode

-- The fields of CmdWorker and its configuration that CreateProtocolMessage reads.
pub record ProtocolConfig : Type 0 where
  pub worker_id : String
  pub completion_strategy : String
  pub metadata_response_to : String
  pub metadata_error_to : String
  pub repository : Repo
  pub marshaller_model : MarshallerModel
  pub marshal_from_service_and_protocol :
      String → Service → Protocol → Value → List Value → Result (List (String × String))
  pub marshal_v2 :
      Service → Protocol → List MarshallingV2RequestData → Result (List (String × String))
  pub marshal_message : ProtocolMsg → Result String

unfoldable pub is_controlling_function : Function → Bool
is_controlling_function f =
    if f.rdf_type == ses_ontology_controlling_function
    then true
    else if has_prefix f.id controlling_function_prefix
    then true
    else false

-- `service.Interaction == EVENT || (service.Interaction == EVENT_AND_REQUEST && command.PreferEvent)`
abbrev pub wants_event : Interaction → Bool → Bool
wants_event event prefer = true
wants_event event_and_request prefer = prefer
wants_event _ prefer = false

-- the unix time of Go's zero time is -62135596800
abbrev pub unix : ℕ → ℕ
unix now = now / 1_000_000_000 - 62_135_596_800

abbrev pub unix_nano : ℕ → ℕ
unix_nano now = now - 62_135_596_800 * 1_000_000_000

abbrev trace_at : ℕ → String → Trace
trace_at now location = record {
  time_unit = "unix_nano";
  timestamp = unix_nano now;
  location = location;
}

abbrev is_empty : List String → Bool
is_empty [] = true
is_empty (x ∷ xs) = false

abbrev is_nil : Value → Bool
is_nil null = true
is_nil _ = false

infixl 10 ◌>>=◌
abbrev ◌>>=◌ : {A B : Type 0} → Result A → (A → Result B) → Result B
m >>= f = and_then f m

-- `x` where it is set, else what is loaded
abbrev or_load : {A : Type 0} → Option A → Result A → Result A
or_load (some a) load = ok a
or_load none load = load

abbrev is_none : {A : Type 0} → Option A → Bool
is_none none = true
is_none (some a) = false

module _ (this : ProtocolConfig) where
  open this use {repository, marshaller_model}

  -- the token is fetched only if something has to be loaded
  abbrev token_for : Command → CamundaExternalTask → Result String
  token_for command task =
      if is_none command.device || is_none command.service || is_none command.protocol
      then repository.get_token task.tenant_id
      else ok ""

  abbrev protocol_id_of : Command → Service → String
  protocol_id_of command service =
      if command.protocol_id == "" then service.protocol_id else command.protocol_id

  abbrev configurable_data : ConfigurableV2 → MarshallingV2RequestData
  configurable_data c = record {
    value = c.value;
    characteristic_id = c.characteristic_id;
    paths = if not (c.path == "") then c.path ∷ [] else [];
    function_id = c.function_id;
    aspect_nodes = marshaller_model.aspect_nodes_alias c.aspect_node c.aspect_nodes;
  }

  -- the data of a marshalling request of version 3
  unfoldable pub marshalling_data : Command → String → List MarshallingV2RequestData
  unfolding is_controlling_function
  marshalling_data command input_characteristic_id =
      let something_to_set =
        not (command.function.concept_id == "") || not (is_nil command.input) in
      (if something_to_set
          && (not (is_empty command.input_paths) || is_controlling_function command.function)
        then record {
          value = command.input;
          characteristic_id = input_characteristic_id;
          paths = command.input_paths;
          function_id = command.function.id;
          aspect_nodes = get_aspects marshaller_model.aspect_nodes_alias command;
        }
          ∷ []
        else [])
      ++ᴸ map configurable_data command.configurables_v2

  unfoldable pub marshalled_input :
      Command → Service → Protocol → String → Result (List (String × String))
  unfolding marshalling_data
  marshalled_input command service protocol input_characteristic_id =
      if ltbℤ command.version (pos 3)
      then this.marshal_from_service_and_protocol input_characteristic_id service protocol
          command.input command.configurables
      else this.marshal_v2 service protocol (marshalling_data command input_characteristic_id)

  abbrev version_metadata : Command → String → Metadata → Metadata
  version_metadata command output_characteristic_id m =
      if ltbℤ command.version (pos 3)
      then m
      else if output_characteristic_id == ""
      then record m { version = command.version }
      else set_output_aspect_nodes (get_aspects marshaller_model.aspect_nodes_alias command)
          (record m {
            version = command.version;
            output_path = command.output_path;
            output_function_id = command.function.id;
          })

  unfoldable pub protocol_msg :
      ℕ
      → Command
      → CamundaExternalTask
      → Device
      → Service
      → Protocol
      → String
      → String
      → List (String × String)
      → ProtocolMsg
  protocol_msg now command task device service protocol input_characteristic_id
        output_characteristic_id input =
      record {
        request = input;
        response = [];
        task_info = record {
          worker_id = this.worker_id;
          task_id = task.id;
          process_instance_id = task.process_instance_id;
          process_definition_id = task.process_definition_id;
          completion_strategy = this.completion_strategy;
          time = itoa (unix now);
          tenant_id = task.tenant_id;
          business_key = task.business_key;
        };
        metadata = version_metadata command output_characteristic_id (record {
          version = pos 0;
          device = device;
          service = service;
          protocol = protocol;
          output_path = "";
          output_function_id = "";
          output_aspect_node = none;
          output_aspect_nodes = [];
          input_characteristic = input_characteristic_id;
          output_characteristic = output_characteristic_id;
          content_variable_hints = command.content_variable_hints;
          response_to = this.metadata_response_to;
          error_to = this.metadata_error_to;
        });
        trace =
            trace_at now
              "github.com/SENERGY-Platform/external-task-worker createMessageForProtocolHandler() start"
            ∷ trace_at now
                "github.com/SENERGY-Platform/external-task-worker createMessageForProtocolHandler() end"
            ∷ [];
      }

  abbrev event_request : Command → Device → Service → Protocol → EventRequest
  event_request command device service protocol = record {
    device = device;
    service = service;
    protocol = protocol;
    characteristic_id = command.characteristic_id;
    function_id = command.function.id;
    aspect_nodes = get_aspects marshaller_model.aspect_nodes_alias command;
  }

  unfoldable pub create_message_for_protocol_handler :
      ℕ → Command → CamundaExternalTask → Result (Option ProtocolMsg × Option EventRequest)
  unfolding is_controlling_function marshalled_input protocol_msg
  create_message_for_protocol_handler now command task = do
    token ← token_for command task
    device ← or_load command.device (repository.get_device token command.device_id)
    service ← or_load command.service (repository.get_service token device command.service_id)
    protocol ←
        or_load command.protocol (repository.get_protocol token (protocol_id_of command service))
    let controlling = is_controlling_function command.function
    let input_characteristic_id = if controlling then command.characteristic_id else ""
    let output_characteristic_id = if controlling then "" else command.characteristic_id
    if not controlling && wants_event service.interaction command.prefer_event
        then ok (none, some (event_request command device service protocol))
        else (do
          input ← marshalled_input command service protocol input_characteristic_id
          ok (
            some (
                protocol_msg now command task device service protocol input_characteristic_id
                  output_characteristic_id input),
            none,
          ))

  abbrev as_kafka :
      Option ProtocolMsg × Option EventRequest → Result (Option KafkaMessage × Option EventRequest)
  as_kafka (none, wanted) = ok (none, wanted)
  as_kafka (some value, wanted) = do
    payload ← this.marshal_message value
    ok (
      some (record {
        topic = value.metadata.protocol.handler;
        key = value.metadata.device.id;
        payload = payload;
      }),
      wanted,
    )

  abbrev format_error : {A : Type 0} → Result A → Result A
  format_error (ok a) = ok a
  format_error (err e) = err (failure ("internal format error: " ++ error_text e))

  -- `CreateProtocolMessage`, the callback of the device groups
  unfoldable pub create_protocol_message :
      ℕ → Command → CamundaExternalTask → Result (Option KafkaMessage × Option EventRequest)
  unfolding create_message_for_protocol_handler
  create_protocol_message now command task = do
    message ← format_error (create_message_for_protocol_handler now command task)
    as_kafka message
