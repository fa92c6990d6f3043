-- ===== src/Messages.antt =====
-- lib/messages: the records that the worker passes between camunda, its storage and the protocols.
pub mod Aspects
use external_task_worker.Base.{ℕ, String, Bool, Option, List}
use external_task_worker.Base.Int.{ℤ}
use external_task_worker.Model.{Value, AspectNode, DeviceClass, Function, Device, Service, Protocol}

-- lib/messages/camunda.go

pub record CamundaVariable : Type 0 where
  pub type : String
  pub value : Value

pub record CamundaExternalTask : Type 0 where
  pub id : String
  pub variables : List (String × CamundaVariable)
  pub activity_id : String
  pub retries : ℤ
  pub execution_id : String
  pub process_instance_id : String
  pub process_definition_id : String
  pub tenant_id : String
  pub error : String
  pub business_key : String

-- `client.IncidentMessage`, without its time
pub record Incident : Type 0 where
  pub id : String
  pub external_task_id : String
  pub process_instance_id : String
  pub process_definition_id : String
  pub worker_id : String
  pub error_message : String
  pub tenant_id : String
  pub business_key : String

pub record TaskWithDuplicateIndex : Type 0 where
  pub task : CamundaExternalTask
  pub duplicate_index : ℕ

-- lib/messages/task.go; the configurables of version <= 2 go to the marshaller as they are

pub record ConfigurableV2 : Type 0 where
  pub path : String
  pub characteristic_id : String
  pub aspect_node : AspectNode
  pub aspect_nodes : List AspectNode
  pub function_id : String
  pub value : Value

pub record Command : Type 0 where
  pub version : ℤ
  pub function : Function
  pub characteristic_id : String
  pub device_class : Option DeviceClass
  pub aspect : Option AspectNode
  pub aspects : List AspectNode
  pub device_group_id : String
  pub device_id : String
  pub device : Option Device
  pub service_id : String
  pub service : Option Service
  pub protocol : Option Protocol
  pub protocol_id : String
  pub configurables : List Value
  pub content_variable_hints : List String
  pub input_paths : List String
  pub output_path : String
  pub configurables_v2 : List ConfigurableV2
  pub prefer_event : Bool
  pub input : Value
  pub output : Value
  pub retries : ℤ

pub record Overwrite : Type 0 where
  pub device_id : String
  pub device : Option Device
  pub service_id : String
  pub service : Option Service
  pub protocol : Option Protocol
  pub protocol_id : String

-- lib/messages/groups.go

pub record GroupTaskMetadataElement : Type 0 where
  pub command : Command
  pub task : CamundaExternalTask

pub record GroupTaskMetadata : Type 0 where
  pub parent : GroupTaskMetadataElement
  pub children : List GroupTaskMetadataElement

-- lib/messages/protocol.go; maps are association lists

pub record TaskInfo : Type 0 where
  pub worker_id : String
  pub task_id : String
  pub process_instance_id : String
  pub process_definition_id : String
  pub completion_strategy : String
  pub time : String
  pub tenant_id : String
  pub business_key : String

pub record Metadata : Type 0 where
  pub version : ℤ
  pub device : Device
  pub service : Service
  pub protocol : Protocol
  pub output_path : String
  pub output_function_id : String
  pub output_aspect_node : Option AspectNode
  pub output_aspect_nodes : List AspectNode
  pub input_characteristic : String
  pub output_characteristic : String
  pub content_variable_hints : List String
  pub response_to : String
  pub error_to : String

pub record Trace : Type 0 where
  pub time_unit : String
  pub timestamp : ℕ
  pub location : String

pub record ProtocolMsg : Type 0 where
  pub request : List (String × String)
  pub response : List (String × String)
  pub task_info : TaskInfo
  pub metadata : Metadata
  pub trace : List Trace

pub record KafkaMessage : Type 0 where
  pub topic : String
  pub key : String
  pub payload : String

pub record EventRequest : Type 0 where
  pub device : Device
  pub service : Service
  pub protocol : Protocol
  pub characteristic_id : String
  pub function_id : String
  pub aspect_nodes : List AspectNode

-- `LastTry` in nanoseconds since Go's zero time
pub record SubTaskState : Type 0 where
  pub last_try : ℕ
  pub try_count : ℤ

pub record RequestInfo : Type 0 where
  pub request : Option KafkaMessage
  pub event : Option EventRequest
  pub metadata : GroupTaskMetadataElement
  pub sub_task_state : SubTaskState

pub record TimescaleRequest : Type 0 where
  pub device : Device
  pub service : Service
  pub column_name : String

pub record TimescaleResponse : Type 0 where
  pub time : Option String
  pub value : Value
