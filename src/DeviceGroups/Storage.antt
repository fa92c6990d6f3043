-- ===== src/DeviceGroups/Storage.antt =====
-- lib/devicegroups/storage.go: typed access to the database, with retries. `encoding/json` is a pair
-- of functions for each stored type; `IsCodec` is the round trip that the code relies on.
use external_task_worker.Base.{
  ℕ, zero, suc, ◌*◌, String, ◌≡◌, Bool, true, false, Option, if◌then◌else◌,
}
use Prim.Native.String.{◌++◌}
use external_task_worker.Base.Int.{ℤ}
use external_task_worker.Result.{failure, Result, ok, err, is_not_fount, and_then, Exec}
use external_task_worker.Model.{
  Value, MarshallerModel, Device, DeviceType, DeviceGroup, Service, Protocol,
}
use external_task_worker.Messages.{
  CamundaExternalTask, Command, GroupTaskMetadata, KafkaMessage, EventRequest, SubTaskState,
}
use external_task_worker.World.{World, sleep, millisecond}
use external_task_worker.DeviceGroups.Db.{Db, value_of}

pub record SubResultWrapper : Type 0 where
  pub failed : Bool
  pub value : Value

pub record LastCallInfo : Type 0 where
  pub caller : String
  pub time : ℕ

pub record Codec (B A : Type 0) : Type 0 where
  pub marshal : A → Result B
  pub unmarshal : B → Result A

-- Every value is written, and read back as it was.
pub record IsCodec {B A : Type 0} (c : Codec B A) : Type 0 where
  pub encode : A → B
  pub marshal_encode : (a : A) → c.marshal a ≡ ok (encode a)
  pub unmarshal_encode : (a : A) → c.unmarshal (encode a) ≡ ok a

-- devicerepository.RepoInterface: its answers during one call.
pub record Repo : Type 0 where
  pub get_token : String → Result String
  pub get_device : String → String → Result Device
  pub get_device_type : String → String → Result DeviceType
  pub get_device_group : String → String → Result DeviceGroup
  pub get_service : String → Device → String → Result Service
  pub get_protocol : String → String → Result Protocol

-- The struct DeviceGroups. The callback is CmdWorker.CreateProtocolMessage, called at a time.
pub record DeviceGroups (S B : Type 0) : Type 0 where
  pub protocol_message_callback :
      ℕ → Command → CamundaExternalTask → Result (Option KafkaMessage × Option EventRequest)
  pub repo : Repo
  pub db : Db S B
  pub expiration_in_seconds : ℤ
  pub scheduler : String
  pub currently_running_timeout : ℤ
  pub filter_events : Bool
  pub marshaller_model : MarshallerModel
  pub metadata_codec : Codec B GroupTaskMetadata
  pub sub_result_codec : Codec B SubResultWrapper
  pub sub_task_state_codec : Codec B SubTaskState
  pub last_call_codec : Codec B LastCallInfo

abbrev pub metadata_key_prefix : String
metadata_key_prefix = "meta."

abbrev pub result_key_prefix : String
result_key_prefix = "result."

abbrev pub sub_task_state_key_prefix : String
sub_task_state_key_prefix = "ststate."

abbrev pub last_call_info : String
last_call_info = "lastcall."

abbrev pub max_retries : ℕ
max_retries = 10

-- `err == nil || err == ErrNotFount`
abbrev pub is_settled : {A : Type 0} → Result A → Bool
is_settled (ok a) = true
is_settled (err e) = is_not_fount e

abbrev pub is_ok : {A : Type 0} → Result A → Bool
is_ok (ok a) = true
is_ok (err e) = false

-- a call of the database in the world
abbrev pub call : {S A : Type 0} → Exec S A → Exec (World S) A
call m w = let (r, s) = m w.store in (r, record w { store = s })

-- `for i := 0; i < MaxRetries; i++`: stop at a settled answer, else sleep 200 ms. `last` is the
-- answer of the round before.
unfoldable pub attempts :
    {S A : Type 0}
    → (Result A → Bool)
    → Exec (World S) A
    → ℕ
    → Result A
    → World S
    → Result A × World S
attempts settled m zero last w = (last, w)
attempts settled m (suc rounds) last w =
    let (r, w') = m w in
    let again = attempts settled m rounds r (sleep (200 * millisecond) w') in
    if settled r then (r, w') else again

-- the error variable before the first round: never read, as the loop runs at least once
abbrev pub no_round : {A : Type 0} → Result A
no_round = err (failure "")

module _ {S B : Type 0} (this : DeviceGroups S B) where
  open this use {db, metadata_codec, sub_result_codec, sub_task_state_codec, last_call_codec}

  unfoldable pub db_get : {A : Type 0} → Codec B A → String → Exec (World S) A
  db_get c key w =
      let (r, w') = attempts is_settled (call (db.get key)) max_retries no_round w in
      (and_then c.unmarshal (value_of r), w')

  unfoldable pub store_value : String → Result B → Exec (World S) (Unit {0})
  store_value key (err e) w = (err e, w)
  store_value key (ok b) w =
      attempts is_ok
        (call (db.set (record { key = key; value = b; expiration = this.expiration_in_seconds })))
        max_retries no_round w

  unfoldable pub db_set : {A : Type 0} → Codec B A → String → A → Exec (World S) (Unit {0})
  unfolding store_value
  db_set c key value = store_value key (c.marshal value)

  abbrev pub get_group_metadata : String → Exec (World S) GroupTaskMetadata
  get_group_metadata task_id = db_get metadata_codec (metadata_key_prefix ++ task_id)

  abbrev pub set_group_metadata : String → GroupTaskMetadata → Exec (World S) (Unit {0})
  set_group_metadata task_id = db_set metadata_codec (metadata_key_prefix ++ task_id)

  abbrev pub get_sub_result : String → Exec (World S) SubResultWrapper
  get_sub_result task_id = db_get sub_result_codec (result_key_prefix ++ task_id)

  abbrev pub set_sub_result : String → SubResultWrapper → Exec (World S) (Unit {0})
  set_sub_result task_id = db_set sub_result_codec (result_key_prefix ++ task_id)

  abbrev pub get_sub_task_state : String → Exec (World S) SubTaskState
  get_sub_task_state task_id = db_get sub_task_state_codec (sub_task_state_key_prefix ++ task_id)

  abbrev pub set_sub_task_state : String → SubTaskState → Exec (World S) (Unit {0})
  set_sub_task_state task_id = db_set sub_task_state_codec (sub_task_state_key_prefix ++ task_id)
