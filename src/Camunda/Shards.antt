-- ===== src/Camunda/Shards.antt =====
-- lib/camunda/shards/shards.go (selectShard, getShardUserCount): a shard with the fewest users.
pub mod Least
pub mod Tables
pub mod Others
pub mod Database
pub mod Atomic
pub mod Assigned
pub mod Ensured
pub mod Fewest
use external_task_worker.Base.{
  ℕ, ◌≤◌, String, ◌≡◌, Bool, Option, none, some, List, [], ◌∷◌, ◌==◌, leb, if◌then◌else◌,
}
use external_task_worker.Result.{Err, failure, Result, ok, err, and_then}

-- `MaxInt`
abbrev pub max_int : ℕ
max_int = 9_223_372_036_854_775_807

-- the loop of selectShard, in the order in which the map is walked
unfoldable pub select_least : List (String × ℕ) → ℕ → String → String
select_least [] least shard = shard
select_least ((s, n) ∷ rest) least shard =
    select_least rest (if leb n least then n else least) (if leb n least then s else shard)

abbrev chosen : String → Result String
chosen shard = if shard == "" then err (failure "no shard found") else ok shard

-- `selectShard`, given what getShardUserCount answers
unfoldable pub select_shard : Result (List (String × ℕ)) → Result String
unfolding select_least
select_shard (err e) = err e
select_shard (ok counts) = chosen (select_least counts max_int "")

-- `result[shard] = userCount`
abbrev pub put_count : String → ℕ → List (String × ℕ) → List (String × ℕ)
put_count s n [] = (s, n) ∷ []
put_count s n ((t, m) ∷ rest) = if t == s then (s, n) ∷ rest else (t, m) ∷ put_count s n rest

-- the loop of getShardUserCount over its rows
unfoldable pub count_users : List (ℕ × String) → List (String × ℕ) → List (String × ℕ)
count_users [] result = result
count_users ((n, s) ∷ rows) result = count_users rows (put_count s n result)
