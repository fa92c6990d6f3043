-- ===== src/Camunda/Shards/Database.antt =====
-- lib/camunda/shards/shards.go: the operations of Shards on its tables and its cache. `breaks n` says
-- whether the n-th call of the database fails, and how; a transaction whose Commit fails has written
-- nothing. The cache is the one of service-commons.
use Prim.Native.String.{◌++◌}
use external_task_worker.Base.{
  ℕ, ◌+◌, String, ◌≡◌, Bool, true, false, not, ◌⊎◌, Option, none, some, List, [], ◌==◌,
  if◌then◌else◌,
}
use external_task_worker.Result.{
  Err, error_not_found, Result, ok, err, Exec, pure, raise, ◌>>=◌, ◌>>◌,
}
use external_task_worker.Camunda.Shards.{select_shard, count_users}
use external_task_worker.Camunda.Shards.Tables.{
  Tables, sql_select_shard_by_user, sql_delete_user_shard, sql_create_user_shard, sql_ensure_shard,
  sql_shard_user_count, sql_list_shards, address_of, has_address, without_user, users_of,
}

pub record Sql : Type 0 where
  pub tables : Tables
  -- the calls so far
  pub calls : ℕ

-- `cache.Use` on the values of a getter, `Remove`, and the entry that stands under a key and has not
-- expired.
pub record UserCache (C : Type 0) : Type 0 where
  pub is_nil : Bool
  pub use_or_get : String → Exec Sql String → (String → Bool) → C → Sql → Result String × C × Sql
  pub remove : String → C → Result (Unit {0}) × C
  pub view : C → String → Option String

-- An entry that passes the check is used; else the getter is called, and the entries are the ones
-- before, or what the getter gave. What is removed is gone. No cache holds nothing.
pub record IsUserCache {C : Type 0} (c : UserCache C) : Type 0 where
  pub use_hit :
      (key : String) (get : Exec Sql String) (valid : String → Bool) (s : C) (sql : Sql)
      (a : String)
      → c.view s key ≡ some a
      → valid a ≡ true
      → c.use_or_get key get valid s sql ≡ (ok a, s, sql)
  pub use_miss :
      (key : String) (get : Exec Sql String) (valid : String → Bool) (s : C) (sql : Sql)
      → (c.view s key ≡ none) ⊎ ((a : String) × (c.view s key ≡ some a) × (valid a ≡ false))
      → ((c.use_or_get key get valid s sql).0 ≡ (get sql).0)
        × ((c.use_or_get key get valid s sql).2 ≡ (get sql).1)
  pub remove_view :
      (key : String) (s : C) → (c.remove key s).0 ≡ ok tt → c.view (c.remove key s).1 key ≡ none
  pub nil_view : c.is_nil ≡ true → (s : C) (key : String) → c.view s key ≡ none

pub record Shards (C : Type 0) : Type 0 where
  pub cache : C
  pub sql : Sql

abbrev pub cache_prefix : String
cache_prefix = "user-shard."

-- the check of what is loaded from the cache
abbrev pub is_shard : String → Bool
is_shard s = not (s == "")

module _ (breaks : ℕ → Option Err) where
  -- a call of the database
  abbrev pub perform : {A : Type 0} → (Tables → Result A × Tables) → Exec Sql A
  perform statement s = elim (breaks s.calls) [
    | some e ↦ (err e, record s { calls = s.calls + 1 })
    | none ↦ let (r, t) = statement s.tables in (r, record { tables = t; calls = s.calls + 1 })
  ]

  -- `resp.Scan`, with `sql.ErrNoRows`
  abbrev pub scan : Option String → Exec Sql String
  scan none = raise error_not_found
  scan (some address) = pure address

  -- getShardForUser
  unfoldable pub get_shard : String → Exec Sql String
  unfolding address_of
  get_shard user_id = perform (sql_select_shard_by_user user_id) >>= scan

  unfoldable pub remove_shard_for_user : String → Exec Sql (Unit {0})
  unfolding without_user
  remove_shard_for_user user_id = perform (sql_delete_user_shard user_id)

  unfoldable pub add_shard_for_user : String → String → Exec Sql (Unit {0})
  unfolding address_of has_address
  add_shard_for_user user_id address = perform (sql_create_user_shard user_id address)

  unfoldable pub get_shard_user_count : Exec Sql (List (String × ℕ))
  unfolding users_of count_users
  get_shard_user_count = perform sql_shard_user_count >>= λ rows. pure (count_users rows [])

  -- selectShard
  unfoldable pub select_shard_tx : Exec Sql String
  unfolding select_shard get_shard_user_count
  select_shard_tx s = let (counts, s') = get_shard_user_count s in (select_shard counts, s')

  unfoldable pub begin_tx : Exec Sql (Unit {0})
  begin_tx = perform (λ t. (ok tt, t))

  -- a transaction that is given up, from the tables before it
  abbrev pub rollback : Tables → Sql → Sql
  rollback before tx = record tx { tables = before }

  unfoldable pub commit : Tables → Exec Sql (Unit {0})
  commit before tx = elim (breaks tx.calls) [
    | some e ↦ (err e, record { tables = before; calls = tx.calls + 1 })
    | none ↦ (ok tt, record tx { calls = tx.calls + 1 })
  ]

  -- what is left of a transaction: it is committed if its statements succeed
  abbrev pub end_tx : {A : Type 0} → Tables → Result A × Sql → Result A × Sql
  unfolding commit
  end_tx before (err e, tx) = (err e, rollback before tx)
  end_tx before (ok a, tx) = (commit before >> pure a) tx

  -- the transaction of SetShardForUser
  unfoldable pub set_tx : String → String → Exec Sql (Unit {0})
  unfolding remove_shard_for_user add_shard_for_user commit
  set_tx user_id address s =
      end_tx s.tables ((remove_shard_for_user user_id >> add_shard_for_user user_id address) s)

  -- the statements of EnsureShardForUser for a user without a shard
  unfoldable pub assign : String → Exec Sql String
  unfolding select_shard_tx add_shard_for_user
  assign user_id = select_shard_tx >>= λ url. add_shard_for_user user_id url >> pure url

  -- by what the cache, or the query, gives: only ErrorNotFound leaves more to do; else the transaction
  -- is committed to free locks, whose error is dropped
  abbrev pub ensured :
      {C : Type 0} → String → Tables → Result String × C × Sql → Result String × Shards C
  unfolding commit assign
  ensured user_id before (err error_not_found, c, tx) =
      let (r, s) = end_tx before (assign user_id tx) in (r, record { cache = c; sql = s })
  ensured user_id before (r, c, tx) = (r, record { cache = c; sql = (commit before tx).1 })

  module _ {C : Type 0} (cache : UserCache C) where
    unfoldable pub get_shard_for_user : String → Exec (Shards C) String
    unfolding get_shard
    get_shard_for_user user_id w =
        let (r, c, s) =
          cache.use_or_get (cache_prefix ++ user_id) (get_shard user_id) is_shard w.cache w.sql in
        (r, record { cache = c; sql = s })

    abbrev pub forget : String → Shards C → Result (Unit {0}) × Shards C
    forget user_id w =
        if cache.is_nil
        then (ok tt, w)
        else let (r, c) = cache.remove (cache_prefix ++ user_id) w.cache in
          (r, record w { cache = c })

    unfoldable pub set_shard_for_user : String → String → Exec (Shards C) (Unit {0})
    unfolding begin_tx set_tx
    set_shard_for_user user_id address w =
        let (r, s) = (begin_tx >> set_tx user_id address) w.sql in
        elim r [
          | err e ↦ (err e, record w { sql = s })
          | ok _ ↦ forget user_id (record w { sql = s })
        ]

    unfoldable pub ensure_shard_for_user : String → Exec (Shards C) String
    unfolding begin_tx get_shard commit assign
    ensure_shard_for_user user_id w =
        let (r, s) = begin_tx w.sql in
        elim r [
          | err e ↦ (err e, record w { sql = s })
          | ok _ ↦
              ensured user_id s.tables
                (cache.use_or_get (cache_prefix ++ user_id) (get_shard user_id) is_shard w.cache s)
        ]

  unfoldable pub ensure_shard : String → Exec Sql (Unit {0})
  unfolding has_address
  ensure_shard address = perform (sql_ensure_shard address)

  -- getShards
  unfoldable pub list_shards : Exec Sql (List String)
  list_shards = perform sql_list_shards
