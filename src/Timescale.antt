-- ===== src/Timescale.antt =====
-- lib/timescale/timescale.go: the query for last values and the cast of its answer. The HTTP call of
-- QueryTimescale is not modelled; an index out of range, at which Go panics, is the value `panics`.
pub mod Columns
pub mod Values
pub mod Order
pub mod Request
use external_task_worker.Base.{
  ℕ, zero, suc, ◌+◌, String, Bool, true, false, Option, none, some, List, [], ◌∷◌, ◌++◌, ◌&&◌, ◌==◌,
  ltb, length, get_elem?, if◌then◌else◌,
}
use external_task_worker.Base.Int.{ℤ, pos}
use external_task_worker.Result.{Err, failure, Result, ok, err, and_then}
use external_task_worker.Model.{Value, null}
use external_task_worker.Messages.{TimescaleRequest, TimescaleResponse}

-- A column is its name.
pub record QueriesRequestElement : Type 0 where
  pub device_id : String
  pub service_id : String
  pub limit : ℤ
  pub columns : List String

abbrev pub TimescaleQuery : Type 0
TimescaleQuery = List QueriesRequestElement

-- by query, by row, by column, the first column being a timestamp
abbrev pub TimescaleQueryResponse : Type 0
TimescaleQueryResponse = List (List (List Value))

abbrev pub is_for : String → String → QueriesRequestElement → Bool
is_for device_id service_id q = (q.device_id == device_id) && (q.service_id == service_id)

-- `groupedRequests[device][service] = append(..., column)`, the groups in the order in which they begin
unfoldable pub group_request : TimescaleRequest → TimescaleQuery → TimescaleQuery
group_request r [] =
    record {
      device_id = r.device.id;
      service_id = r.service.id;
      limit = pos 1;
      columns = r.column_name ∷ [];
    }
    ∷ []
group_request r (q ∷ qs) =
    if is_for r.device.id r.service.id q
    then record q { columns = q.columns ++ r.column_name ∷ [] } ∷ qs
    else q ∷ group_request r qs

unfoldable pub group_requests : List TimescaleRequest → TimescaleQuery → TimescaleQuery
unfolding group_request
group_requests [] query = query
group_requests (r ∷ rs) query = group_requests rs (group_request r query)

-- `CastRequest`. Go ranges over the two maps in an order that it chooses anew each time, the services of a
-- device one after the other: the order is the parameter `walk`, which is given every group once.
unfoldable pub cast_request :
    (TimescaleQuery → TimescaleQuery) → List TimescaleRequest → TimescaleQuery
unfolding group_requests
cast_request walk requests = walk (group_requests requests [])

abbrev or_else : {A : Type 0} → Option A → Option A → Option A
or_else (some a) b = some a
or_else none b = b

-- `deviceServiceToIndex[device][service]`: the last query wins
unfoldable pub query_index : String → String → TimescaleQuery → ℕ → Option ℕ
query_index d s [] i = none
query_index d s (q ∷ qs) i =
    or_else (query_index d s qs (suc i)) (if is_for d s q then some i else none)

unfoldable pub name_index : String → List String → ℕ → Option ℕ
name_index name [] j = none
name_index name (c ∷ cs) j =
    or_else (name_index name cs (suc j)) (if c == name then some j else none)

-- `deviceServiceColumnToIndex[device][service][column]`
unfoldable pub column_index : String → String → String → TimescaleQuery → Option ℕ
unfolding name_index
column_index d s name [] = none
column_index d s name (q ∷ qs) =
    or_else (column_index d s name qs) (if is_for d s q then name_index name q.columns 0 else none)

unfoldable pub knows_device : String → TimescaleQuery → Bool
knows_device d [] = false
knows_device d (q ∷ qs) = if q.device_id == d then true else knows_device d qs

-- `getIndexes`; the timestamp is skipped
abbrev pub indexes_of : Bool → Option ℕ → Option ℕ → Result (ℕ × ℕ)
indexes_of known (some i) (some j) = ok (i, j + 1)
indexes_of known (some i) none = err (failure "column name not found in timescale query")
indexes_of known none j = err (
    failure (
      if known
      then "service not found in timescale query"
      else "device not found in timescale query"))

unfoldable pub get_indexes : TimescaleQuery → TimescaleRequest → Result (ℕ × ℕ)
unfolding query_index column_index knows_device
get_indexes query r =
    let d = r.device.id in
    let s = r.service.id in
    indexes_of (knows_device d query) (query_index d s query 0)
      (column_index d s r.column_name query)

-- What the body of the loop comes to, and what the loop does.
pub data Cast (A : Type 0) : Type 0 where
  panics : Cast A
  fails : Err → Cast A
  casts : A → Cast A

-- `response[i][0][j]`, with the two checks before it
abbrev pub in_row : Option Value → Cast Value
in_row none = panics
in_row (some v) = casts v

abbrev pub in_rows : ℕ → Option (List (List Value)) → Cast Value
in_rows j none = panics
in_rows j (some (row ∷ [])) =
    if ltb (length row + 1) j
    then fails (failure "timescale: request j index to large for response")
    else in_row (get_elem? row j)
in_rows j (some _) = casts null

abbrev pub value_at : TimescaleQueryResponse → Result (ℕ × ℕ) → Cast Value
value_at response (err e) = fails e
value_at response (ok (i, j)) =
    if ltb (length response + 1) i
    then fails (failure "timescale: request i index to large for response")
    else in_rows j (get_elem? response i)

abbrev pub prepend : Cast Value → Cast (List Value) → Cast (List Value)
prepend panics rest = panics
prepend (fails e) rest = fails e
prepend (casts v) panics = panics
prepend (casts v) (fails e) = fails e
prepend (casts v) (casts vs) = casts (v ∷ vs)

-- `castQueryResponse`; the result beside an error is not read
unfoldable pub cast_query_response :
    List TimescaleRequest → TimescaleQuery → TimescaleQueryResponse → Cast (List Value)
unfolding get_indexes
cast_query_response [] query response = casts []
cast_query_response (r ∷ rs) query response =
    prepend (value_at response (get_indexes query r)) (cast_query_response rs query response)
