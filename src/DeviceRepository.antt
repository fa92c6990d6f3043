-- ===== src/DeviceRepository.antt =====
-- lib/devicerepository/devicerepository.go: the client of the device repository, with its cache. What
-- the repository and keycloak answer, and the cache of service-commons, are parameters; an entry of
-- the cache carries the type as which it was stored.
pub mod Answers
pub mod Refinement
use Prim.Native.String.{◌++◌}
use external_task_worker.Base.{
  String, ◌≡◌, Bool, true, false, not, ◌⊎◌, Option, none, some, List, [], ◌∷◌, ◌==◌, if◌then◌else◌,
}
use external_task_worker.Base.Int.{ℤ}
use external_task_worker.Result.{Err, failure, Result, ok, err, and_then}
use external_task_worker.Model.{Device, DeviceType, DeviceGroup, Service, Protocol}
use external_task_worker.DeviceGroups.Storage.{Repo}

pub data Entry : Type 0 where
  token_entry : String → Entry
  device_entry : Device → Entry
  device_type_entry : DeviceType → Entry
  device_group_entry : DeviceGroup → Entry
  protocol_entry : Protocol → Entry
  service_entry : Service → Entry

-- `cache.Use` (and UseWithExpInGet), `cache.Get` and `Set`, with a check of what is loaded, and the
-- entry that stands under a key and has not expired.
pub record Cache (C : Type 0) : Type 0 where
  pub use_or_get : String → Result Entry → (Entry → Bool) → C → Result Entry × C
  pub get : String → (Entry → Bool) → C → Result Entry
  pub set : String → Entry → C → C
  pub view : C → String → Option Entry

-- An entry that passes the check is used, or the value is fetched; what was fetched is stored. Entries
-- may expire at any time.
pub record IsCache {C : Type 0} (c : Cache C) : Type 0 where
  pub use_answer :
      (key : String) (fetch : Result Entry) (valid : Entry → Bool) (s : C)
      → ((e : Entry) × (c.view s key ≡ some e)
          × (valid e ≡ true)
          × ((c.use_or_get key fetch valid s).0 ≡ ok e))
        ⊎ ((c.use_or_get key fetch valid s).0 ≡ fetch)
  pub use_view :
      (key : String) (fetch : Result Entry) (valid : Entry → Bool) (s : C) (k : String) (e : Entry)
      → c.view (c.use_or_get key fetch valid s).1 k ≡ some e
      → (c.view s k ≡ some e) ⊎ ((key ≡ k) × (fetch ≡ ok e))
  pub get_answer :
      (key : String) (valid : Entry → Bool) (s : C)
      → ((e : Entry) × (c.view s key ≡ some e) × (valid e ≡ true) × (c.get key valid s ≡ ok e))
        ⊎ ((x : Err) × (c.get key valid s ≡ err x))
  pub set_view :
      (key : String) (d : Entry) (s : C) (k : String) (e : Entry)
      → c.view (c.set key d s) k ≡ some e
      → (c.view s k ≡ some e) ⊎ ((key ≡ k) × (d ≡ e))

-- The answers to `keycloak.GetUserToken` (a token and its expiration), and to the four requests of
-- the repository, for a token and an id.
pub record Server : Type 0 where
  pub get_user_token : String → Result (String × ℤ)
  pub devices : String → String → Result Device
  pub device_types : String → String → Result DeviceType
  pub device_groups : String → String → Result DeviceGroup
  pub protocols : String → String → Result Protocol

-- how a type of values is stored, and what its check of a loaded value looks at
pub record Stored (A : Type 0) : Type 0 where
  pub wrap : A → Entry
  pub unwrap : Entry → Option A
  pub id_of : A → String

abbrev pub tokens : Stored String
tokens = record {
  wrap = token_entry;
  unwrap = λ e. elim e [ token_entry t ↦ some t | _ ↦ none ];
  id_of = λ t. t;
}

abbrev pub devices : Stored Device
devices = record {
  wrap = device_entry;
  unwrap = λ e. elim e [ device_entry d ↦ some d | _ ↦ none ];
  id_of = λ d. d.id;
}

abbrev pub device_types : Stored DeviceType
device_types = record {
  wrap = device_type_entry;
  unwrap = λ e. elim e [ device_type_entry d ↦ some d | _ ↦ none ];
  id_of = λ d. d.id;
}

abbrev pub device_groups : Stored DeviceGroup
device_groups = record {
  wrap = device_group_entry;
  unwrap = λ e. elim e [ device_group_entry d ↦ some d | _ ↦ none ];
  id_of = λ d. d.id;
}

abbrev pub protocols : Stored Protocol
protocols = record {
  wrap = protocol_entry;
  unwrap = λ e. elim e [ protocol_entry d ↦ some d | _ ↦ none ];
  id_of = λ d. d.id;
}

abbrev pub services : Stored Service
services = record {
  wrap = service_entry;
  unwrap = λ e. elim e [ service_entry d ↦ some d | _ ↦ none ];
  id_of = λ d. d.id;
}

module _ {A : Type 0} (t : Stored A) where
  -- of the type, and with an id that is not empty
  abbrev pub is_valid : Entry → Bool
  is_valid e = elim (t.unwrap e) [ none ↦ false | some a ↦ not (t.id_of a == "") ]

  abbrev pub fetched : Result A → Result Entry
  fetched (ok a) = ok (t.wrap a)
  fetched (err e) = err e

  abbrev pub loaded : Result Entry → Result A
  loaded (err e) = err e
  loaded (ok e) = elim (t.unwrap e) [ none ↦ err (failure "unexpected type") | some a ↦ ok a ]

-- `for _, service := range dt.Services`
unfoldable pub find_service : String → List Service → Option Service
find_service id [] = none
find_service id (s ∷ ss) = if s.id == id then some s else find_service id ss

module _ {C : Type 0} (cache : Cache C) (server : Server) where
  abbrev pub use_stored : {A : Type 0} → Stored A → String → Result A → C → Result A × C
  use_stored t key answer s =
      let (r, s') = cache.use_or_get key (fetched t answer) (is_valid t) s in (loaded t r, s')

  unfoldable pub get_token : String → C → Result String × C
  get_token user s =
      use_stored tokens ("user_token." ++ user)
        (and_then (λ t. ok t.0) (server.get_user_token user)) s

  unfoldable pub get_device : String → String → C → Result Device × C
  get_device token id s = use_stored devices ("device." ++ id) (server.devices token id) s

  unfoldable pub get_protocol : String → String → C → Result Protocol × C
  get_protocol token id s = use_stored protocols ("protocol." ++ id) (server.protocols token id) s

  unfoldable pub get_device_type : String → String → C → Result DeviceType × C
  get_device_type token id s =
      use_stored device_types ("device-type." ++ id) (server.device_types token id) s

  unfoldable pub get_device_group : String → String → C → Result DeviceGroup × C
  get_device_group token id s =
      use_stored device_groups ("device-group." ++ id) (server.device_groups token id) s

  unfoldable pub get_service_from_cache : String → C → Result Service
  get_service_from_cache id s = loaded services (cache.get ("service." ++ id) (is_valid services) s)

  unfoldable pub save_service_to_cache : Service → C → C
  save_service_to_cache service s = cache.set ("service." ++ service.id) (service_entry service) s

  -- the device type that was loaded, or the error of loading it
  abbrev pub from_type : String → Result DeviceType × C → Result Service × C
  unfolding find_service save_service_to_cache
  from_type id (err e, s) = (err e, s)
  from_type id (ok dt, s) = elim (find_service id dt.services) [
    | none ↦ (err (failure "service not found"), s)
    | some service ↦ (ok service, save_service_to_cache service s)
  ]

  unfoldable pub get_service : String → Device → String → C → Result Service × C
  unfolding get_service_from_cache get_device_type find_service save_service_to_cache
  get_service token device id s = elim (get_service_from_cache id s) [
    | ok service ↦ (ok service, s)
    | err e ↦ from_type id (get_device_type token device.device_type_id s)
  ]

-- the service of a device type, or the error of there being none
abbrev pub service_of : String → DeviceType → Result Service
unfolding find_service
service_of id dt = elim (find_service id dt.services) [
  | none ↦ err (failure "service not found")
  | some service ↦ ok service
]

-- What the client stands for: the same answers, asked of the repository each time.
unfoldable pub uncached : Server → Repo
unfolding find_service
uncached server = record {
  get_token = λ user. and_then (λ t. ok t.0) (server.get_user_token user);
  get_device = server.devices;
  get_device_type = server.device_types;
  get_device_group = server.device_groups;
  get_protocol = server.protocols;
  get_service =
      λ token device id. and_then (service_of id) (server.device_types token device.device_type_id);
}
