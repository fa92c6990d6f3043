-- ===== src/Tests/Repository.antt =====
-- A cache in memory, and a repository that has one device type.
use external_task_worker.Base.{
  String, ◌≡◌, refl, sym, ◌∙◌, ap, Bool, true, inl, inr, ◌⊎◌, Option, none, some, [], ◌∷◌, ◌==◌,
  if◌then◌else◌, Bool-cases, eq_iff,
}
use external_task_worker.Base.Int.{pos}
use external_task_worker.Result.{Err, Result, failure, ok, err}
use external_task_worker.Model.{Device, DeviceType}
use external_task_worker.DeviceRepository.{
  Entry, device_entry, Cache, IsCache, Server, find_service, get_service, get_device, get_token,
  get_protocol, get_device_type, get_device_group, uncached,
}
use external_task_worker.DeviceRepository.Answers.{Agrees, of_device}
use external_task_worker.DeviceRepository.Refinement.{
  HasOneService, Gives, answers_uncached, get_service_uncached,
}
use external_task_worker.Tests.Fixtures.{device, service}

abbrev Entries : Type 0
Entries = String → Option Entry

abbrev store : String → Entry → Entries → Entries
store key e s k = if key == k then some e else s k

abbrev store_ok : String → Result Entry → Entries → Entries
store_ok key (ok e) s = store key e s
store_ok key (err x) s = s

abbrev use_entry :
    String → Result Entry → (Entry → Bool) → Entries → Option Entry → Result Entry × Entries
use_entry key fetch valid s none = (fetch, store_ok key fetch s)
use_entry key fetch valid s (some e) = if valid e then (ok e, s) else (fetch, store_ok key fetch s)

abbrev get_entry : (Entry → Bool) → Option Entry → Result Entry
get_entry valid none = err (failure "not found")
get_entry valid (some e) = if valid e then ok e else err (failure "invalid")

abbrev cache : Cache Entries
cache = record {
  use_or_get = λ key fetch valid s. use_entry key fetch valid s (s key);
  get = λ key valid s. get_entry valid (s key);
  set = store;
  view = λ s k. s k;
}

store_view :
    (key : String) (d : Entry) (s : Entries) (k : String) (e : Entry)
    → store key d s k ≡ some e
    → (s k ≡ some e) ⊎ ((key ≡ k) × (d ≡ e))
store_view key d s k e h = elim (Bool-cases (key == k)) [
  | inl same ↦ let new : some d ≡ some e = rw (store, same) at h in inr ((eq_iff key k).0 same, cc)
  | inr other ↦ inl (rw (store, other) at h)
]

store_ok_view :
    (key : String) (fetch : Result Entry) (s : Entries) (k : String) (e : Entry)
    → store_ok key fetch s k ≡ some e
    → (s k ≡ some e) ⊎ ((key ≡ k) × (fetch ≡ ok e))
store_ok_view key (ok d) s k e h = elim (store_view key d s k e h) [
  | inl old ↦ inl old
  | inr (same, new) ↦ inr (same, ap ok new)
]
store_ok_view key (err x) s k e h = inl h

use_entry_answer :
    (key : String) (fetch : Result Entry) (valid : Entry → Bool) (s : Entries) (o : Option Entry)
    → ((e : Entry) × (o ≡ some e) × (valid e ≡ true) × ((use_entry key fetch valid s o).0 ≡ ok e))
      ⊎ ((use_entry key fetch valid s o).0 ≡ fetch)
use_entry_answer key fetch valid s none = inr refl
use_entry_answer key fetch valid s (some e) = elim (Bool-cases (valid e)) [
  | inl h ↦ inl (e, refl, h, rw h refl)
  | inr h ↦ inr (rw h refl)
]

use_entry_view :
    (key : String) (fetch : Result Entry) (valid : Entry → Bool) (s : Entries) (o : Option Entry)
    (k : String) (e : Entry)
    → (use_entry key fetch valid s o).1 k ≡ some e
    → (s k ≡ some e) ⊎ ((key ≡ k) × (fetch ≡ ok e))
use_entry_view key fetch valid s none k e h = store_ok_view key fetch s k e h
use_entry_view key fetch valid s (some d) k e h = elim (Bool-cases (valid d)) [
  | inl v ↦ inl (rw (use_entry, v) at h)
  | inr v ↦ store_ok_view key fetch s k e (rw (use_entry, v) at h)
]

get_entry_answer :
    (valid : Entry → Bool) (o : Option Entry)
    → ((e : Entry) × (o ≡ some e) × (valid e ≡ true) × (get_entry valid o ≡ ok e))
      ⊎ ((x : Err) × (get_entry valid o ≡ err x))
get_entry_answer valid none = inr (failure "not found", refl)
get_entry_answer valid (some e) = elim (Bool-cases (valid e)) [
  | inl h ↦ inl (e, refl, h, rw h refl)
  | inr h ↦ inr (failure "invalid", rw h refl)
]

cache-IsCache : IsCache cache
cache-IsCache = record {
  use_answer = λ key fetch valid s. use_entry_answer key fetch valid s (s key);
  use_view = λ key fetch valid s k e h. use_entry_view key fetch valid s (s key) k e h;
  get_answer = λ key valid s. get_entry_answer valid (s key);
  set_view = store_view;
}

abbrev server : Server
server = record {
  get_user_token = λ user. ok ("token", pos 60);
  devices = λ token id. ok (record device { id = id });
  device_types = λ token id.
      if id == "dt"
      then ok (record { id = id; services = service ∷ [] })
      else err (failure "not found");
  device_groups = λ token id. err (failure "not found");
  protocols = λ token id. ok (record { id = id; handler = "topic"; protocol_segments = [] });
}

abbrev empty : Entries
empty k = none

empty-Agrees : Agrees cache server "token" empty
empty-Agrees key e h = cc

-- the cache after the device d was asked for
abbrev cached_device : Device
cached_device = record device { id = "d" }

abbrev holding : Entries
holding = store "device.d" (device_entry cached_device) empty

holding-Agrees : Agrees cache server "token" holding
holding-Agrees key e h = elim (store_view "device.d" (device_entry cached_device) empty key e h) [
  | inl old ↦ empty-Agrees key e old
  | inr (same, new) ↦ of_device "d" cached_device (sym same) (sym new) refl
]

-- A repository that gives the devices to one user only; the cache gives them to every user.
abbrev guarded : Server
guarded = record server {
  devices = λ token id.
      if token == "token" then ok (record device { id = id }) else err (failure "access denied");
}

denied : (uncached guarded).get_device "other" "d" ≡ err (failure "access denied")
unfolding uncached
denied = refl

given_from_cache : (get_device cache guarded "other" "d" holding).0 ≡ ok cached_device
unfolding get_device
given_from_cache = refl

answers_uncached_example :
    Gives cache server "token"
      (get_token cache server "d" holding)
      ((uncached server).get_token "d")
    × Gives cache server "token"
        (get_device cache server "token" "d" holding)
        ((uncached server).get_device "token" "d")
    × Gives cache server "token"
        (get_protocol cache server "token" "d" holding)
        ((uncached server).get_protocol "token" "d")
    × Gives cache server "token"
        (get_device_type cache server "token" "d" holding)
        ((uncached server).get_device_type "token" "d")
    × Gives cache server "token"
        (get_device_group cache server "token" "d" holding)
        ((uncached server).get_device_group "token" "d")
answers_uncached_example =
    answers_uncached cache server "token" holding cache-IsCache holding-Agrees "d"

only_type :
    (c : String) (v : DeviceType) → server.device_types "token" c ≡ ok v → v.services ≡ service ∷ []
only_type c v h = elim (Bool-cases (c == "dt")) [
  | inl e ↦
      let h' : ok (record { id = c; services = service ∷ [] }) ≡ ok v = rw e at h in
      let same : (record { id = c; services = service ∷ [] }) ≡ v = cc in
      sym (ap (λ (d : DeviceType). d.services) same)
  | inr e ↦ let h' : err (failure "not found") ≡ ok v = rw e at h in cc
]

server-HasOneService : HasOneService server "token"
server-HasOneService id a b t u s r ht hu hs hr =
    let same : some s ≡ some r =
      sym hs ∙ ap (find_service id) (only_type a t ht ∙ sym (only_type b u hu)) ∙ hr in
    cc

has_service : (uncached server).get_service "token" device "s" ≡ ok service
unfolding uncached
has_service = refl

get_service_uncached_example :
    Gives cache server "token" (get_service cache server "token" device "s" holding) (ok service)
get_service_uncached_example =
    get_service_uncached cache server "token" holding device "s" service cache-IsCache
      holding-Agrees server-HasOneService has_service
