-- ===== src/Camunda/Shards/Tables.antt =====
-- lib/camunda/shards/sql.go: the two tables, and the statements on them. A `VARCHAR(255)` is any string
-- here; the rows of a query come in the order of the tables.
use external_task_worker.Base.{
  ℕ, ◌+◌, String, Bool, true, false, Option, none, some, List, [], ◌∷◌, ◌++◌ as ◌++ᴸ◌, map, ◌==◌,
  if◌then◌else◌,
}
use external_task_worker.Result.{failure, Result, ok, err}

-- Shard (Address), and ShardsMapping (UserId, ShardAddress)
pub record Tables : Type 0 where
  pub shard : List String
  pub shards_mapping : List (String × String)

unfoldable pub address_of : String → List (String × String) → Option String
address_of user_id [] = none
address_of user_id ((u, a) ∷ rows) = if u == user_id then some a else address_of user_id rows

unfoldable pub has_address : String → List String → Bool
has_address address [] = false
has_address address (a ∷ rows) = if a == address then true else has_address address rows

abbrev pub has_user : Option String → Bool
has_user none = false
has_user (some a) = true

-- `SELECT ShardAddress FROM ShardsMapping WHERE UserId = $1`
abbrev pub sql_select_shard_by_user : String → Tables → Result (Option String) × Tables
unfolding address_of
sql_select_shard_by_user user_id t = (ok (address_of user_id t.shards_mapping), t)

unfoldable pub without_user : String → List (String × String) → List (String × String)
without_user user_id [] = []
without_user user_id ((u, a) ∷ rows) =
    if u == user_id then without_user user_id rows else (u, a) ∷ without_user user_id rows

-- `DELETE FROM ShardsMapping WHERE UserId = $1`
abbrev pub sql_delete_user_shard : String → Tables → Result (Unit {0}) × Tables
unfolding without_user
sql_delete_user_shard user_id t =
    (ok tt, record t { shards_mapping = without_user user_id t.shards_mapping })

-- `INSERT INTO ShardsMapping (UserId, ShardAddress) VALUES ($1, $2)`: UserId is a primary key, and
-- ShardAddress references Shard
abbrev pub sql_create_user_shard : String → String → Tables → Result (Unit {0}) × Tables
unfolding address_of has_address
sql_create_user_shard user_id address t =
    if has_user (address_of user_id t.shards_mapping)
    then (err (failure "duplicate key value violates unique constraint"), t)
    else if has_address address t.shard
    then (ok tt, record t { shards_mapping = t.shards_mapping ++ᴸ (user_id, address) ∷ [] })
    else (err (failure "violates foreign key constraint"), t)

-- `INSERT INTO Shard(Address) VALUES ($1) ON CONFLICT DO NOTHING`
abbrev pub sql_ensure_shard : String → Tables → Result (Unit {0}) × Tables
unfolding has_address
sql_ensure_shard address t =
    if has_address address t.shard
    then (ok tt, t)
    else (ok tt, record t { shard = t.shard ++ᴸ address ∷ [] })

-- `COUNT(ShardsMapping.UserId)` of the rows that join with an address
unfoldable pub users_of : String → List (String × String) → ℕ
users_of address [] = 0
users_of address ((u, a) ∷ rows) =
    if a == address then 1 + users_of address rows else users_of address rows

-- `SELECT COUNT(ShardsMapping.UserId), Shard.Address FROM Shard LEFT JOIN ShardsMapping ...`
abbrev pub sql_shard_user_count : Tables → Result (List (ℕ × String)) × Tables
unfolding users_of
sql_shard_user_count t = (ok (map (λ a. (users_of a t.shards_mapping, a)) t.shard), t)

-- `SELECT Address FROM Shard`
abbrev pub sql_list_shards : Tables → Result (List String) × Tables
sql_list_shards t = (ok t.shard, t)
