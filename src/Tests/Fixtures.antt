-- ===== src/Tests/Fixtures.antt =====
-- A store in memory that never fails, codecs that keep the value, and a group of two sub-tasks.
use Prim.Native.String.{◌++◌}
use external_task_worker.Base.{
  String, ◌≡◌, refl, true, false, Option, none, some, List, [], ◌∷◌, ◌==◌, if◌then◌else◌, arith,
}
use external_task_worker.Base.Text.{differ, first_code-append}
use external_task_worker.DeviceGroups.Collect.{Results, Holds}
use external_task_worker.Base.Int.{pos}
use external_task_worker.Result.{Result, ok, err, failure, err_not_fount}
use external_task_worker.Model.{null, MarshallerModel, Device, Service, request, Function}
use external_task_worker.Messages.{
  CamundaExternalTask, Command, GroupTaskMetadata, GroupTaskMetadataElement, SubTaskState,
}
use external_task_worker.World.{World}
use external_task_worker.DeviceGroups.Db.{Item, Db, IsReliable, value_of, found}
use external_task_worker.DeviceGroups.Storage.{
  DeviceGroups, Codec, IsCodec, Repo, SubResultWrapper, LastCallInfo,
}

-- the other way round than in the proofs about responses
meta-result : (a b : String) → (("meta." ++ a) == ("result." ++ b)) ≡ false
meta-result a b =
    differ _ _ (rw (first_code-append "m" "eta." a, first_code-append "r" "esult." b) (omega arith))

pub data Doc : Type 0 where
  metadata_doc : GroupTaskMetadata → Doc
  result_doc : SubResultWrapper → Doc
  state_doc : SubTaskState → Doc
  call_doc : LastCallInfo → Doc

abbrev pub Memory : Type 0
Memory = String → Option Doc

abbrev pub hit : String → Option Doc → Result (Item Doc)
hit key none = err err_not_fount
hit key (some d) = ok (record { key = key; value = d; expiration = pos 0 })

abbrev pub memory : Db Memory Doc
memory = record {
  get = λ key s. (hit key (s key), s);
  set = λ i s. (ok tt, λ k. if i.key == k then some i.value else s k);
  delete = λ key s. (ok tt, λ k. if key == k then none else s k);
}

abbrev pub contents : Memory → String → Option Doc
contents s = s

hit-found : (key : String) (o : Option Doc) → value_of (hit key o) ≡ found o
hit-found key none = refl
hit-found key (some d) = refl

pub memory-IsReliable : IsReliable memory contents
memory-IsReliable = record {
  get_answer = λ k s. hit-found k (s k);
  get_state = λ k s. refl;
  set_answer = λ i s. refl;
  set_view = λ i s k. refl;
  delete_view = λ j s k. refl;
}

abbrev other_type : {A : Type 0} → Result A
other_type = err (failure "json: cannot unmarshal")

abbrev read_metadata : Doc → Result GroupTaskMetadata
read_metadata (metadata_doc m) = ok m
read_metadata _ = other_type

abbrev read_result : Doc → Result SubResultWrapper
read_result (result_doc r) = ok r
read_result _ = other_type

abbrev read_state : Doc → Result SubTaskState
read_state (state_doc r) = ok r
read_state _ = other_type

abbrev read_call : Doc → Result LastCallInfo
read_call (call_doc r) = ok r
read_call _ = other_type

abbrev pub result_codec : Codec Doc SubResultWrapper
result_codec = record { marshal = λ r. ok (result_doc r); unmarshal = read_result }

pub result_codec-IsCodec : IsCodec result_codec
result_codec-IsCodec = record {
  encode = result_doc;
  marshal_encode = λ r. refl;
  unmarshal_encode = λ r. refl;
}

abbrev pub state_codec : Codec Doc SubTaskState
state_codec = record { marshal = λ r. ok (state_doc r); unmarshal = read_state }

pub state_codec-IsCodec : IsCodec state_codec
state_codec-IsCodec = record {
  encode = state_doc;
  marshal_encode = λ r. refl;
  unmarshal_encode = λ r. refl;
}

abbrev pub call_codec : Codec Doc LastCallInfo
call_codec = record { marshal = λ r. ok (call_doc r); unmarshal = read_call }

pub call_codec-IsCodec : IsCodec call_codec
call_codec-IsCodec = record {
  encode = call_doc;
  marshal_encode = λ r. refl;
  unmarshal_encode = λ r. refl;
}

abbrev pub device : Device
device = record { id = "d"; device_type_id = "dt" }

abbrev pub service : Service
service = record { id = "s"; interaction = request; protocol_id = "pr"; inputs = []; outputs = [] }

abbrev pub repo : Repo
repo = record {
  get_token = λ user. ok "token";
  get_device = λ token id. ok (record { id = id; device_type_id = "dt" });
  get_device_type = λ token id. ok (record { id = id; services = [] });
  get_device_group = λ token id. ok (record { id = id; device_ids = "d" ∷ [] });
  get_service = λ token device id. ok (record service { id = id });
  get_protocol = λ token id. ok (record { id = id; handler = "topic"; protocol_segments = [] });
}

abbrev pub model : MarshallerModel
model = record {
  aspect_nodes_alias = λ a rest. a ∷ rest;
  aspect_match_level = λ ids nodes. pos 0;
  content_variable_aspect_ids = λ v. [];
}

-- 10 s as the timeout of a running sub-task
abbrev pub groups : String → DeviceGroups Memory Doc
groups scheduler = record {
  protocol_message_callback = λ now command task.
      ok (some (record { topic = "topic"; key = "d"; payload = task.id }), none);
  repo = repo;
  db = memory;
  expiration_in_seconds = pos 3600;
  scheduler = scheduler;
  currently_running_timeout = pos 10_000_000_000;
  filter_events = false;
  marshaller_model = model;
  metadata_codec = record { marshal = λ r. ok (metadata_doc r); unmarshal = read_metadata };
  sub_result_codec = result_codec;
  sub_task_state_codec = state_codec;
  last_call_codec = call_codec;
}

abbrev pub function : Function
function = record { id = "urn:infai:ses:measuring-function:f"; rdf_type = ""; concept_id = "" }

abbrev pub command : Command
command = record {
  version = pos 3;
  function = function;
  characteristic_id = "c";
  device_class = none;
  aspect = none;
  aspects = [];
  device_group_id = "g";
  device_id = "";
  device = none;
  service_id = "";
  service = none;
  protocol = none;
  protocol_id = "";
  configurables = [];
  content_variable_hints = [];
  input_paths = [];
  output_path = "";
  configurables_v2 = [];
  prefer_event = false;
  input = null;
  output = null;
  retries = pos 2;
}

abbrev pub task : String → CamundaExternalTask
task id = record {
  id = id;
  variables = [];
  activity_id = "a";
  retries = pos 0;
  execution_id = "e";
  process_instance_id = "p";
  process_definition_id = "pd";
  tenant_id = "user";
  error = "";
  business_key = "b";
}

abbrev pub element : String → GroupTaskMetadataElement
element id = record { command = command; task = task id }

abbrev pub group : List GroupTaskMetadataElement → GroupTaskMetadata
group children = record { parent = element "t"; children = children }

-- the store after a group of these sub-tasks was started as task t
abbrev pub started : GroupTaskMetadata → Memory
started meta k =
    if "meta.t" == k
    then some (metadata_doc meta)
    else if "meta.t_0_0" == k
    then some (metadata_doc meta)
    else if "meta.t_1_0" == k
    then some (metadata_doc meta)
    else none

abbrev pub at : Memory → World Memory
at s = record {
  store = s;
  now = 100_000_000_000;
  effects = [];
  last_producer_call_success = true;
  last_successful_camunda_call = 0;
}

abbrev pub no_results_yet : Results
no_results_yet id = none

started-Holds : (meta : GroupTaskMetadata) (id : String) → started meta ("result." ++ id) ≡ none
started-Holds meta id = rw (meta-result "t" id, meta-result "t_0_0" id, meta-result "t_1_0" id)

pub started-Holds_memory :
    (scheduler : String) (meta : GroupTaskMetadata)
    → Holds (groups scheduler) contents memory-IsReliable (started meta) no_results_yet
started-Holds_memory scheduler meta = record { at_id = λ id. rw (started-Holds meta id) }
