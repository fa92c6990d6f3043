-- ===== src/Timescale/Values.antt =====
-- Each request whose column is in the query gets a value, and it is the one of its own column.
use external_task_worker.Base.{
  ℕ, zero, suc, ◌+◌, ◌<◌, String, ◌≡◌, refl, sym, subst, true, false, Option, none, some, List, [],
  ◌∷◌, ltb, length, get_elem?, arith, eq_refl, All,
}
use external_task_worker.Result.{Result, ok}
use external_task_worker.Model.{Value, null}
use external_task_worker.Messages.{TimescaleRequest}
use external_task_worker.Timescale.{
  QueriesRequestElement, TimescaleQuery, TimescaleQueryResponse, is_for, query_index, name_index,
  column_index, get_indexes, casts, value_at, in_rows, cast_query_response, or_else,
}
use external_task_worker.Timescale.Columns.{
  IsColumn, IsApart, HasRows, get_elem?-bound, some-inj, get_indexes-IsColumn,
}

or_else-some : {A : Type 0} (o : Option A) (a : A) → (b : A) × (or_else o (some a) ≡ some b)
or_else-some none a = (a, refl)
or_else-some (some b) a = (b, refl)

or_else_left : {A : Type 0} (o p : Option A) (a : A) → o ≡ some a → (b : A) × (or_else o p ≡ some b)
or_else_left o p a h = (a, rw h)

name_index_total :
    (name : String) (cs : List String) (n k : ℕ)
    → get_elem? cs n ≡ some name
    → (j : ℕ) × (name_index name cs k ≡ some j)
unfolding name_index
name_index_total name [] n k h = ground (arith, h)
name_index_total name (c ∷ cs) zero k h =
    rw (sym (some-inj c name h), eq_refl c) (or_else-some (name_index name cs (suc k)) k)
name_index_total name (c ∷ cs) (suc n) k h =
    let (j, e) = name_index_total name cs n (suc k) h in
    or_else_left (name_index name cs (suc k)) _ j e

query_index_total :
    (d s : String) (qs : TimescaleQuery) (n k : ℕ) (q : QueriesRequestElement)
    → get_elem? qs n ≡ some q
    → is_for d s q ≡ true
    → (i : ℕ) × (query_index d s qs k ≡ some i)
unfolding query_index
query_index_total d s [] n k q h f = ground (arith, h)
query_index_total d s (p ∷ qs) zero k q h f =
    let here : is_for d s p ≡ true = rw (some-inj p q h) f in
    rw here (or_else-some (query_index d s qs (suc k)) k)
query_index_total d s (p ∷ qs) (suc n) k q h f =
    let (j, e) = query_index_total d s qs n (suc k) q h f in
    or_else_left (query_index d s qs (suc k)) _ j e

column_index_total :
    (d s name : String) (qs : TimescaleQuery) (n c : ℕ) (q : QueriesRequestElement)
    → get_elem? qs n ≡ some q
    → is_for d s q ≡ true
    → get_elem? q.columns c ≡ some name
    → (j : ℕ) × (column_index d s name qs ≡ some j)
unfolding column_index
column_index_total d s name [] n c q h f g = ground (arith, h)
column_index_total d s name (p ∷ qs) zero c q h f g =
    let same = some-inj p q h in
    let (j, e) = name_index_total name p.columns c 0 (rw same g) in
    let here : is_for d s p ≡ true = rw same f in
    rw (here, e) (or_else-some (column_index d s name qs) j)
column_index_total d s name (p ∷ qs) (suc n) c q h f g =
    let (j, e) = column_index_total d s name qs n c q h f g in
    or_else_left (column_index d s name qs) _ j e

-- the cell of a query's rows that a value is taken from, nil unless there is one row
abbrev pub IsCell : List (List Value) → ℕ → Value → Type 0
IsCell (row ∷ []) j v = get_elem? row j ≡ some v
IsCell _ j v = v ≡ null

in_range : {A : Type 0} (xs : List A) (i : ℕ) → i < length xs → (a : A) × (get_elem? xs i ≡ some a)
in_range [] i l = absurd (omega (arith, l))
in_range (x ∷ xs) zero l = (x, refl)
in_range (x ∷ xs) (suc i) l = in_range xs i (omega (arith, l))

guard_open : (n i : ℕ) → i < n → ltb (n + 1) i ≡ false
guard_open n i l = ground arith

in_rows_casts :
    (rows : List (List Value)) (j : ℕ)
    → ((row : List Value) → rows ≡ row ∷ [] → j < length row)
    → (v : Value) × (in_rows j (some rows) ≡ casts v) × IsCell rows j v
in_rows_casts [] j h = (null, refl, refl)
in_rows_casts (row ∷ []) j h =
    let (v, e) = in_range row j (h row refl) in
    (v, rw (guard_open (length row) j (h row refl), e), e)
in_rows_casts (row ∷ other ∷ rows) j h = (null, refl, refl)

-- v is the value of the request's own column in the response
abbrev pub IsValueOf : TimescaleQuery → TimescaleQueryResponse → TimescaleRequest → Value → Type 0
IsValueOf query response r v =
    (i : ℕ) × (c : ℕ) × (rows : List (List Value)) × IsColumn query r i c
    × (get_elem? response i ≡ some rows)
    × IsCell rows (c + 1) v

abbrev pub AreValuesOf :
    TimescaleQuery → TimescaleQueryResponse → List TimescaleRequest → List Value → Type 0
AreValuesOf query response [] [] = Unit
AreValuesOf query response (r ∷ rs) (v ∷ vs) =
    IsValueOf query response r v × AreValuesOf query response rs vs
AreValuesOf query response _ _ = ⊥

-- the column of a request is in the query
abbrev pub IsAsked : TimescaleQuery → TimescaleRequest → Type 0
IsAsked query r = (i : ℕ) × (c : ℕ) × IsColumn query r i c

indexes_ok :
    (query : TimescaleQuery) (r : TimescaleRequest) (i k : ℕ)
    → query_index r.device.id r.service.id query 0 ≡ some i
    → column_index r.device.id r.service.id r.column_name query ≡ some k
    → get_indexes query r ≡ ok (i, k + 1)
unfolding get_indexes
indexes_ok query r i k e f = rw (e, f)

value_here :
    (response : TimescaleQueryResponse) (i j c : ℕ) (entry : List (List Value)) (v : Value)
    (r : Result (ℕ × ℕ))
    → r ≡ ok (i, j)
    → j ≡ c
    → get_elem? response i ≡ some entry
    → in_rows c (some entry) ≡ casts v
    → value_at response r ≡ casts v
value_here response i j c entry v r a b there o =
    rw (a, guard_open (length response) i (get_elem?-bound response i entry there), there)
      (subst (λ x. in_rows x (some entry) ≡ casts v) (sym b) o)

value_at_casts :
    (query : TimescaleQuery) (response : TimescaleQueryResponse) (r : TimescaleRequest)
    → IsApart query
    → HasRows query response
    → IsAsked query r
    → (v : Value) × (value_at response (get_indexes query r) ≡ casts v)
      × IsValueOf query response r v
value_at_casts query response r apart rows (n, m, (q, at, for_r, named)) =
    let d = r.device.id in
    let s = r.service.id in
    let (i, e) = query_index_total d s query n 0 q at for_r in
    let (k, f) = column_index_total d s r.column_name query n m q at for_r named in
    let found = indexes_ok query r i k e f in
    let (c, g, (p, here, x, y)) = get_indexes-IsColumn query r i (k + 1) apart found in
    let (entry, there, enough) = rows i p here in
    let (v, o, cell) =
      in_rows_casts entry (c + 1)
        (λ row one. omega (arith, enough row one, get_elem?-bound p.columns c r.column_name y)) in
    (
      v,
      value_here response i (k + 1) (c + 1) entry v (get_indexes query r) found g there o,
      (i, c, entry, (p, here, x, y), there, cell),
    )

-- Where no two queries are for the same service of the same device, each request's column is in the
-- query, the response has an entry for each query, and each entry that is one row has a value more
-- than its query has columns, castQueryResponse gives one value for each request, in order: the value of the
-- request's own column in the row of its own device and service, or nil where there is not one row.
pub cast_query_response_values :
    (requests : List TimescaleRequest) (query : TimescaleQuery) (response : TimescaleQueryResponse)
    → IsApart query
    → HasRows query response
    → All (IsAsked query) requests
    → (vs : List Value) × (cast_query_response requests query response ≡ casts vs)
      × AreValuesOf query response requests vs
unfolding cast_query_response
cast_query_response_values [] query response apart rows asked = ([], refl, tt)
cast_query_response_values (r ∷ rs) query response apart rows asked =
    let (v, e, one) = value_at_casts query response r apart rows asked.0 in
    let (vs, f, more) = cast_query_response_values rs query response apart rows asked.1 in
    (v ∷ vs, rw (e, f), (one, more))
