-- ===== src/Tests/Shards.antt =====
-- Two shards, one of which has a user; a cache in memory.
use external_task_worker.Base.{
  ℕ, ◌≤◌, String, ◌≡◌, ◌≢◌, refl, sym, ◌∙◌, Bool, true, false, false≢true, ◌⊎◌, inl, inr, Option,
  none, some, [], ◌∷◌, ◌==◌, if◌then◌else◌, eq_refl, eq_iff, All, eqb, arith,
}
use external_task_worker.Result.{Err, failure, Result, ok, err, Exec}
use external_task_worker.Camunda.Shards.Tables.{Tables, address_of, has_address, users_of}
use external_task_worker.Camunda.Shards.Database.{
  Sql, UserCache, IsUserCache, Shards, get_shard_for_user, set_shard_for_user,
  ensure_shard_for_user,
}
use external_task_worker.Camunda.Shards.Atomic.{added, removed}
use external_task_worker.Camunda.Shards.Assigned.{
  set_shard_for_user-get_shard_for_user, set_shard_for_user-atomic,
}
use external_task_worker.Camunda.Shards.Others.{IsSameForOthers, others_keep_shards}
use external_task_worker.Camunda.Shards.Ensured.{ensure_shard_for_user-atomic}
use external_task_worker.Camunda.Shards.Fewest.{ensure_shard_for_user-fewest}

abbrev Entries : Type 0
Entries = String → Option String

abbrev remember : String → Result String → Entries → Entries
remember key (ok a) s k = if key == k then some a else s k
remember key (err e) s k = s k

abbrev use_value :
    String
    → Exec Sql String
    → (String → Bool)
    → Entries
    → Sql
    → Option String
    → Result String × Entries × Sql
use_value key get valid s sql none = let (r, sql') = get sql in (r, remember key r s, sql')
use_value key get valid s sql (some a) =
    let (r, sql') = get sql in if valid a then (ok a, s, sql) else (r, remember key r s, sql')

abbrev cache : UserCache Entries
cache = record {
  is_nil = false;
  use_or_get = λ key get valid s sql. use_value key get valid s sql (s key);
  remove = λ key s. (ok tt, λ k. if key == k then none else s k);
  view = λ s k. s k;
}

use_value_miss :
    (key : String) (get : Exec Sql String) (valid : String → Bool) (s : Entries) (sql : Sql)
    (o : Option String)
    → (o ≡ none) ⊎ ((a : String) × (o ≡ some a) × (valid a ≡ false))
    → ((use_value key get valid s sql o).0 ≡ (get sql).0)
      × ((use_value key get valid s sql o).2 ≡ (get sql).1)
use_value_miss key get valid s sql o (inl h) = rw h (refl, refl)
use_value_miss key get valid s sql o (inr (a, h, v)) = rw (h, use_value, v) (refl, refl)

cache-IsUserCache : IsUserCache cache
cache-IsUserCache = record {
  use_hit = λ key get valid s sql a h v. rw (h, use_value, v) refl;
  use_miss = λ key get valid s sql m. use_value_miss key get valid s sql (s key) m;
  remove_view = λ key s h. rw (eq_refl key) refl;
  nil_view = λ n s key. absurd (false≢true n);
}

abbrev tables : Tables
tables = record { shard = "one" ∷ "two" ∷ []; shards_mapping = ("alice", "one") ∷ [] }

abbrev shards : Shards Entries
shards = record { cache = λ k. none; sql = record { tables = tables; calls = 0 } }

abbrev all_work : ℕ → Option Err
all_work n = none

-- the commit of a transaction of two statements fails
abbrev commit_breaks : ℕ → Option Err
commit_breaks n = if eqb n 3 then some (failure "connection lost") else none

set_shard_for_user-get_shard_for_user_example :
    (get_shard_for_user all_work cache "alice"
      (set_shard_for_user all_work cache "alice" "two" shards).1).0
    ≡ ok "two"
unfolding set_shard_for_user
set_shard_for_user-get_shard_for_user_example =
    set_shard_for_user-get_shard_for_user all_work cache "alice" "two" shards cache-IsUserCache refl
      refl

set_breaks :
    (set_shard_for_user commit_breaks cache "alice" "two" shards).0
    ≡ err (failure "connection lost")
unfolding set_shard_for_user
set_breaks = refl

set_shard_for_user-atomic_example :
    ((set_shard_for_user commit_breaks cache "alice" "two" shards).1.sql.tables ≡ tables)
    ⊎ (((set_shard_for_user commit_breaks cache "alice" "two" shards).1.sql.tables
          ≡ added "alice" "two" (removed "alice" tables))
        × ((cache.remove "user-shard.alice" shards.cache).0 ≡ err (failure "connection lost")))
set_shard_for_user-atomic_example =
    set_shard_for_user-atomic commit_breaks cache "alice" "two" shards (failure "connection lost")
      set_breaks

abbrev insert_breaks : ℕ → Option Err
insert_breaks n = if eqb n 3 then some (failure "timeout") else none

ensure_breaks : (ensure_shard_for_user insert_breaks cache "bob" shards).0 ≡ err (failure "timeout")
unfolding ensure_shard_for_user
ensure_breaks = refl

ensure_shard_for_user-atomic_example :
    (ensure_shard_for_user insert_breaks cache "bob" shards).1.sql.tables ≡ tables
ensure_shard_for_user-atomic_example =
    ensure_shard_for_user-atomic insert_breaks cache cache-IsUserCache "bob" shards
      (failure "timeout") ensure_breaks

ensure_gives : (ensure_shard_for_user all_work cache "bob" shards).0 ≡ ok "two"
unfolding ensure_shard_for_user
ensure_gives = refl

named : (name : String) → (name == "") ≡ false → name ≢ ""
named name h e = false≢true (sym h ∙ (eq_iff name "").1 e)

bob_is_new : address_of "bob" tables.shards_mapping ≡ none
unfolding address_of
bob_is_new = refl

ensure_shard_for_user-fewest_example :
    (has_address "two" tables.shard ≡ true)
    × All
        (λ a. users_of "two" tables.shards_mapping ≤ users_of a tables.shards_mapping)
        tables.shard
    × ((ensure_shard_for_user all_work cache "bob" shards).1.sql.tables ≡ added "bob" "two" tables)
ensure_shard_for_user-fewest_example =
    ensure_shard_for_user-fewest all_work cache "bob" "two" shards cache-IsUserCache refl bob_is_new
      (named "one" refl, (named "two" refl, tt)) (omega arith) ensure_gives

others_keep_shards_example :
    IsSameForOthers "bob" tables (set_shard_for_user all_work cache "bob" "two" shards).1.sql.tables
    × IsSameForOthers "bob" tables (ensure_shard_for_user all_work cache "bob" shards).1.sql.tables
others_keep_shards_example = others_keep_shards all_work cache cache-IsUserCache "bob" "two" shards
