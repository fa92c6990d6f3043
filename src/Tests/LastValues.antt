-- ===== src/Tests/LastValues.antt =====
-- Two columns of one service, and an answer for them; and an answer without entries.
use external_task_worker.Base.{
  zero, suc, ◌<◌, String, ◌≡◌, ◌≢◌, refl, sym, ap, List, [], ◌∷◌, arith, length,
}
use external_task_worker.Base.Int.{pos}
use external_task_worker.Model.{Value, str}
use external_task_worker.Messages.{TimescaleRequest}
use external_task_worker.Timescale.{
  QueriesRequestElement, TimescaleQuery, TimescaleQueryResponse, cast_request, get_indexes, panics,
  casts, cast_query_response,
}
use external_task_worker.Timescale.Columns.{some-inj, IsApart, HasRows, cast_query_response_safe}
use external_task_worker.Timescale.Values.{AreValuesOf, cast_query_response_values}
use external_task_worker.Timescale.Order.{IsWalk, unchanged, swapped}
use external_task_worker.Timescale.Request.{cast_request-cast_query_response}
use external_task_worker.Tests.Fixtures.{device, service}

abbrev last : String → TimescaleRequest
last name = record { device = device; service = service; column_name = name }

abbrev requests : List TimescaleRequest
requests = last "temperature" ∷ last "level" ∷ []

abbrev element : QueriesRequestElement
element = record {
  device_id = "d";
  service_id = "s";
  limit = pos 1;
  columns = "temperature" ∷ "level" ∷ [];
}

abbrev query : TimescaleQuery
query = element ∷ []

query_of_requests : cast_request (λ qs. qs) requests ≡ query
unfolding cast_request
query_of_requests = refl

abbrev response_rows : List (List Value)
response_rows = (str "now" ∷ str "20" ∷ str "high" ∷ []) ∷ []

abbrev response : TimescaleQueryResponse
response = response_rows ∷ []

query-IsApart : IsApart query
query-IsApart zero zero p q d s h g a b = refl
query-IsApart zero (suc j) p q d s h g a b = ground (arith, g)
query-IsApart (suc i) j p q d s h g a b = ground (arith, h)

abbrev first_of : List (List Value) → List Value
first_of [] = []
first_of (row ∷ rows) = row

row_of :
    {row : List Value} → response_rows ≡ row ∷ [] → str "now" ∷ str "20" ∷ str "high" ∷ [] ≡ row
row_of e = ap first_of e

enough :
    (q : QueriesRequestElement) (row : List Value)
    → element ≡ q
    → str "now" ∷ str "20" ∷ str "high" ∷ [] ≡ row
    → length q.columns < length row
enough q row a b = rw (sym a, sym b) (omega arith)

rows_in : HasRows query response
rows_in zero q h = (
  (str "now" ∷ str "20" ∷ str "high" ∷ []) ∷ [],
  refl,
  λ row e. enough q row (some-inj _ _ h) (row_of e),
)
rows_in (suc i) q h = ground (arith, h)

cast_query_response_values_example :
    (vs : List Value) × (cast_query_response requests query response ≡ casts vs)
    × AreValuesOf query response requests vs
cast_query_response_values_example =
    cast_query_response_values requests query response query-IsApart rows_in
      ((0, 0, (element, refl, refl, refl)), ((0, 1, (element, refl, refl, refl)), tt))

-- An answer without entries is not refused by the check of the index.
no_entries : cast_query_response requests query [] ≡ panics
unfolding cast_query_response get_indexes
no_entries = refl

-- Nor is a row that has only its timestamp and one value, where the query asks for two.
short_row : cast_query_response requests query (((str "now" ∷ str "20" ∷ []) ∷ []) ∷ []) ≡ panics
unfolding cast_query_response get_indexes
short_row = refl

cast_query_response_safe_example : cast_query_response requests query response ≢ panics
cast_query_response_safe_example =
    cast_query_response_safe requests query response query-IsApart rows_in

-- Requests for two services of a device, with one for another device between them, and Go ranging over the
-- other device first.
abbrev last_of : String → String → TimescaleRequest
last_of d s = record {
  device = record device { id = d };
  service = record service { id = s };
  column_name = "c";
}

abbrev mixed : List TimescaleRequest
mixed = last_of "a" "1" ∷ last_of "b" "1" ∷ last_of "a" "2" ∷ []

abbrev second_first : TimescaleQuery → TimescaleQuery
second_first (p ∷ q ∷ qs) = q ∷ p ∷ qs
second_first (p ∷ []) = p ∷ []
second_first [] = []

second_first-IsWalk : IsWalk second_first
second_first-IsWalk [] = unchanged []
second_first-IsWalk (p ∷ []) = unchanged (p ∷ [])
second_first-IsWalk (p ∷ q ∷ qs) = swapped p q qs

abbrev one_column : String → String → QueriesRequestElement
one_column d s = record { device_id = d; service_id = s; limit = pos 1; columns = "c" ∷ [] }

abbrev mixed_query : TimescaleQuery
mixed_query = one_column "b" "1" ∷ one_column "a" "1" ∷ one_column "a" "2" ∷ []

query_of_mixed : cast_request second_first mixed ≡ mixed_query
unfolding cast_request
query_of_mixed = refl

abbrev cell : String → List (List Value)
cell v = (str "now" ∷ str v ∷ []) ∷ []

abbrev mixed_response : TimescaleQueryResponse
mixed_response = cell "b1" ∷ cell "a1" ∷ cell "a2" ∷ []

cell_row : (v : String) (row : List Value) → cell v ≡ row ∷ [] → str "now" ∷ str v ∷ [] ≡ row
cell_row v row e = ap first_of e

cell_enough :
    (d s v : String) (q : QueriesRequestElement) (row : List Value)
    → one_column d s ≡ q
    → str "now" ∷ str v ∷ [] ≡ row
    → length q.columns < length row
cell_enough d s v q row a b = rw (sym a, sym b) (omega arith)

mixed_rows : HasRows mixed_query mixed_response
mixed_rows zero q h = (
  cell "b1",
  refl,
  λ row e. cell_enough "b" "1" "b1" q row (some-inj _ _ h) (cell_row "b1" row e),
)
mixed_rows (suc zero) q h = (
  cell "a1",
  refl,
  λ row e. cell_enough "a" "1" "a1" q row (some-inj _ _ h) (cell_row "a1" row e),
)
mixed_rows (suc (suc zero)) q h = (
  cell "a2",
  refl,
  λ row e. cell_enough "a" "2" "a2" q row (some-inj _ _ h) (cell_row "a2" row e),
)
mixed_rows (suc (suc (suc i))) q h = ground (arith, h)

cast_request-cast_query_response_example :
    (vs : List Value) × (cast_query_response mixed (cast_request second_first mixed) mixed_response
      ≡ casts vs)
    × AreValuesOf (cast_request second_first mixed) mixed_response mixed vs
unfolding cast_request
cast_request-cast_query_response_example =
    cast_request-cast_query_response second_first mixed mixed_response second_first-IsWalk
      mixed_rows
