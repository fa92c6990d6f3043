-- ===== src/Model.antt =====
-- lib/devicerepository/model: the device model. The Go types are aliases of
-- github.com/SENERGY-Platform/models; each record holds the fields that this repository names.
use external_task_worker.Base.{ℕ, String, Bool, List}
use external_task_worker.Base.Int.{ℤ}

-- `interface{}` as the worker meets it: JSON data, and the int of Go. A float64 is its bit pattern.
mutual
  pub data Value : Type 0 where
    null : Value
    bool : Bool → Value
    int : ℤ → Value
    float : ℕ → Value
    str : String → Value
    arr : Items → Value
    obj : Fields → Value

  pub data Items : Type 0 where
    nil : Items
    item : Value → Items → Items

  pub data Fields : Type 0 where
    end : Fields
    field : String → Value → Fields → Fields

pub record AspectNode : Type 0 where
  pub id : String
  pub child_ids : List String
  pub descendent_ids : List String

pub record DeviceClass : Type 0 where
  pub id : String

pub record Function : Type 0 where
  pub id : String
  pub rdf_type : String
  pub concept_id : String

pub data Interaction : Type 0 where
  event request event_and_request : Interaction
  other_interaction : String → Interaction

-- `Type` of a content variable: only `List` is looked at.
pub data VariableType : Type 0 where
  list_type : VariableType
  other_type : String → VariableType

-- A content variable: name, type, function id, aspect ids, sub content variables.
mutual
  pub data ContentVariable : Type 0 where
    content_variable :
        String → VariableType → String → List String → ContentVariables → ContentVariable

  pub data ContentVariables : Type 0 where
    no_variables : ContentVariables
    variable : ContentVariable → ContentVariables → ContentVariables

abbrev pub variable_name : ContentVariable → String
variable_name (content_variable n t f a subs) = n

abbrev pub variable_type : ContentVariable → VariableType
variable_type (content_variable n t f a subs) = t

abbrev pub variable_function_id : ContentVariable → String
variable_function_id (content_variable n t f a subs) = f

abbrev pub sub_content_variables : ContentVariable → ContentVariables
sub_content_variables (content_variable n t f a subs) = subs

pub record Content : Type 0 where
  pub content_variable : ContentVariable
  pub serialization : String
  pub protocol_segment_id : String

pub record Service : Type 0 where
  pub id : String
  pub interaction : Interaction
  pub protocol_id : String
  pub inputs : List Content
  pub outputs : List Content

pub record Device : Type 0 where
  pub id : String
  pub device_type_id : String

pub record DeviceType : Type 0 where
  pub id : String
  pub services : List Service

pub record DeviceGroup : Type 0 where
  pub id : String
  pub device_ids : List String

pub record ProtocolSegment : Type 0 where
  pub id : String
  pub name : String

pub record Protocol : Type 0 where
  pub id : String
  pub handler : String
  pub protocol_segments : List ProtocolSegment

abbrev pub ses_ontology_controlling_function : String
ses_ontology_controlling_function = "https://senergy.infai.org/ontology/ControllingFunction"

abbrev pub measuring_function_prefix : String
measuring_function_prefix = "urn:infai:ses:measuring-function:"

abbrev pub controlling_function_prefix : String
controlling_function_prefix = "urn:infai:ses:controlling-function:"

-- `NullCharacteristic.Id`
abbrev pub null_characteristic_id : String
null_characteristic_id = "null"

-- The functions of github.com/SENERGY-Platform/marshaller/lib/marshaller/model that are called here.
pub record MarshallerModel : Type 0 where
  pub aspect_nodes_alias : AspectNode → List AspectNode → List AspectNode
  pub aspect_match_level : List String → List AspectNode → ℤ
  pub content_variable_aspect_ids : ContentVariable → List String
