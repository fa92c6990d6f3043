-- ===== src/DeviceGroups/Db.antt =====
-- lib/devicegroups/storage.go (DbInterface) and localdb.go. memcached and go-cache are third-party
-- code: a database is its three operations over a state of its own, and `IsReliable` says what the
-- callers rely on: no item expires and no operation fails in the time considered.
use external_task_worker.Base.{suc, ◌*◌, ◌-◌, String, ◌≡◌, Option, none, some, ◌==◌, if◌then◌else◌}
use external_task_worker.Base.Int.{ℤ, pos, negsuc}
use external_task_worker.Result.{err_not_fount, failure, Result, ok, err, Exec}

-- `memcache.Item`; `B` stands for `[]byte`
pub record Item (B : Type 0) : Type 0 where
  pub key : String
  pub value : B
  pub expiration : ℤ

pub record Db (S B : Type 0) : Type 0 where
  pub get : String → Exec S (Item B)
  pub set : Item B → Exec S (Unit {0})
  pub delete : String → Exec S (Unit {0})

abbrev pub value_of : {B : Type 0} → Result (Item B) → Result B
value_of (ok i) = ok i.value
value_of (err e) = err e

-- The answer of `Get`, given what the store holds.
abbrev pub found : {B : Type 0} → Option B → Result B
found none = err err_not_fount
found (some b) = ok b

-- `view s k` is what the store in state `s` holds under the key `k`.
pub record IsReliable {S B : Type 0} (db : Db S B) (view : S → String → Option B) : Type 0 where
  pub get_answer : (k : String) (s : S) → value_of (db.get k s).0 ≡ found (view s k)
  pub get_state : (k : String) (s : S) → (db.get k s).1 ≡ s
  pub set_answer : (i : Item B) (s : S) → (db.set i s).0 ≡ ok tt
  pub set_view :
      (i : Item B) (s : S) (k : String)
      → view (db.set i s).1 k ≡ (if i.key == k then some i.value else view s k)
  pub delete_view :
      (j : String) (s : S) (k : String)
      → view (db.delete j s).1 k ≡ (if j == k then none else view s k)

-- go-cache, as localdb.go calls it: an entry may hold a value that is not a byte slice.
pub record GoCache (S B : Type 0) : Type 0 where
  pub lookup : String → S → Option (Option B)
  pub put : String → B → ℤ → S → S
  pub remove : String → S → S

-- `time.Second * time.Duration(item.Expiration)` of an int32
abbrev seconds : ℤ → ℤ
seconds (pos n) = pos (n * 1_000_000_000)
seconds (negsuc n) = negsuc (suc n * 1_000_000_000 - 1)

abbrev local_answer : {B : Type 0} → String → Option (Option B) → Result (Item B)
local_answer key none = err err_not_fount
local_answer key (some none) = err (failure "value is not bytes")
local_answer key (some (some b)) = ok (record { key = key; value = b; expiration = pos 0 })

-- `LocalDb`. `Set` is never called with a nil item; the expiration in nanoseconds.
unfoldable pub local_db : {S B : Type 0} → GoCache S B → Db S B
local_db c = record {
  get = λ key s. (local_answer key (c.lookup key s), s);
  set = λ i s. (ok tt, c.put i.key i.value (seconds i.expiration) s);
  delete = λ key s. (ok tt, c.remove key s);
}
