-- ===== src/Timescale/Columns.antt =====
-- Each request for a last value gets the value of its own column.
use external_task_worker.Base.{
  ℕ, zero, suc, ◌+◌, ◌<◌, String, ◌≡◌, ◌≢◌, refl, sym, ap, Bool, true, false, Option, none, some,
  List, [], ◌∷◌, ◌==◌, length, get_elem?, if◌then◌else◌, arith, inl, inr, Option-cases, eq_iff,
}
use external_task_worker.Result.{Err, Result, ok, err}
use external_task_worker.Model.{Value}
use external_task_worker.Messages.{TimescaleRequest}
use external_task_worker.Timescale.{
  QueriesRequestElement, TimescaleQuery, TimescaleQueryResponse, is_for, query_index, name_index,
  column_index, get_indexes, Cast, panics, fails, casts, value_at, in_row, in_rows, prepend,
  cast_query_response, indexes_of,
}

-- query i is for the device and service of a request, and its column j has the request's name
abbrev pub IsColumn : TimescaleQuery → TimescaleRequest → ℕ → ℕ → Type 0
IsColumn query r i j =
    (q : QueriesRequestElement) × (get_elem? query i ≡ some q)
    × (is_for r.device.id r.service.id q ≡ true)
    × (get_elem? q.columns j ≡ some r.column_name)

pub some-inj : {A : Type 0} (a b : A) → some a ≡ some b → a ≡ b
some-inj a b h = cc

if_some : (b : Bool) (k j : ℕ) → (if b then some k else none) ≡ some j → (b ≡ true) × (k ≡ j)
if_some true k j h = (refl, some-inj k j h)
if_some false k j h = ground (arith, h)

from_zero : (j n : ℕ) → j ≡ 0 + n → j ≡ n
from_zero j n h = omega (arith, h)

name_index_found :
    (name : String) (cs : List String) (k j : ℕ)
    → name_index name cs k ≡ some j
    → (n : ℕ) × (j ≡ k + n) × (get_elem? cs n ≡ some name)
unfolding name_index
name_index_found name [] k j h = cc
name_index_found name (c ∷ cs) k j h = elim (Option-cases (name_index name cs (suc k))) [
  | inl e ↦
      let (a, b) = if_some (c == name) k j (rw e at h) in
      (0, omega (arith, b), ap some ((eq_iff c name).0 a))
  | inr (m, e) ↦
      let (n, f, g) = name_index_found name cs (suc k) m e in
      (suc n, omega (arith, f, some-inj m j (rw e at h)), g)
]

query_index_found :
    (d s : String) (qs : TimescaleQuery) (k i : ℕ)
    → query_index d s qs k ≡ some i
    → (n : ℕ) × (q : QueriesRequestElement) × (i ≡ k + n)
      × (get_elem? qs n ≡ some q)
      × (is_for d s q ≡ true)
unfolding query_index
query_index_found d s [] k i h = cc
query_index_found d s (q ∷ qs) k i h = elim (Option-cases (query_index d s qs (suc k))) [
  | inl e ↦ let (a, b) = if_some (is_for d s q) k i (rw e at h) in (0, q, omega (arith, b), refl, a)
  | inr (m, e) ↦
      let (n, p, f, g, a) = query_index_found d s qs (suc k) m e in
      (suc n, p, omega (arith, f, some-inj m i (rw e at h)), g, a)
]

if_found :
    (b : Bool) (o : Option ℕ) (j : ℕ) → (if b then o else none) ≡ some j → (b ≡ true) × (o ≡ some j)
if_found true o j h = (refl, h)
if_found false o j h = ground (arith, h)

column_index_found :
    (d s name : String) (qs : TimescaleQuery) (j : ℕ)
    → column_index d s name qs ≡ some j
    → (n : ℕ) × (q : QueriesRequestElement) × (get_elem? qs n ≡ some q)
      × (is_for d s q ≡ true)
      × (get_elem? q.columns j ≡ some name)
unfolding column_index
column_index_found d s name [] j h = cc
column_index_found d s name (q ∷ qs) j h = elim (Option-cases (column_index d s name qs)) [
  | inl e ↦
      let (a, b) = if_found (is_for d s q) (name_index name q.columns 0) j (rw e at h) in
      let (n, f, g) = name_index_found name q.columns 0 j b in
      (0, q, refl, a, rw (from_zero j n f) g)
  | inr (m, e) ↦
      let (n, p, f, g, c) = column_index_found d s name qs m e in
      (suc n, p, f, g, rw (sym (some-inj m j (rw e at h))) c)
]

-- No two queries are for the same service of the same device.
abbrev pub IsApart : TimescaleQuery → Type 0
IsApart query =
    (i j : ℕ) (p q : QueriesRequestElement) (d s : String)
    → get_elem? query i ≡ some p
    → get_elem? query j ≡ some q
    → is_for d s p ≡ true
    → is_for d s q ≡ true
    → i ≡ j

pub ok-inj : {A : Type 0} (a b : A) → ok a ≡ ok b → a ≡ b
ok-inj a b h = cc

indexes_of_found :
    (known : Bool) (a b : Option ℕ) (i j : ℕ)
    → indexes_of known a b ≡ ok (i, j)
    → (c : ℕ) × (a ≡ some i) × (b ≡ some c) × (j ≡ c + 1)
indexes_of_found known none b i j h = ground (arith, h)
indexes_of_found known (some x) none i j h = ground (arith, h)
indexes_of_found known (some x) (some y) i j h = (
  y,
  ap some (ap (λ (p : ℕ × ℕ). p.0) (ok-inj (x, y + 1) (i, j) h)),
  refl,
  sym (ap (λ (p : ℕ × ℕ). p.1) (ok-inj (x, y + 1) (i, j) h)),
)

-- Where no two queries are for the same service of the same device, the indexes that getIndexes gives for
-- a request are those of a query for its device and service, and of the request's column in that query,
-- moved by one for the timestamp.
pub get_indexes-IsColumn :
    (query : TimescaleQuery) (r : TimescaleRequest) (i j : ℕ)
    → IsApart query
    → get_indexes query r ≡ ok (i, j)
    → (c : ℕ) × (j ≡ c + 1) × IsColumn query r i c
unfolding get_indexes
get_indexes-IsColumn query r i j apart h =
    let d = r.device.id in
    let s = r.service.id in
    let (c, a, b, e) =
      indexes_of_found _ (query_index d s query 0) (column_index d s r.column_name query) i j h in
    let (n, p, f, g, x) = query_index_found d s query 0 i a in
    let (m, q, k, y, z) = column_index_found d s r.column_name query c b in
    (c, e, (q, rw (from_zero i n f, apart n m p q d s g k x y) k, y, z))

-- The response has an entry for each query, and where the entry is one row, the row has a timestamp and
-- a value for each column.
abbrev pub HasRows : TimescaleQuery → TimescaleQueryResponse → Type 0
HasRows query response =
    (i : ℕ) (q : QueriesRequestElement)
    → get_elem? query i ≡ some q
    → (rows : List (List Value)) × (get_elem? response i ≡ some rows)
      × ((row : List Value) → rows ≡ row ∷ [] → length q.columns < length row)

pub get_elem?-bound :
    {A : Type 0} (xs : List A) (i : ℕ) (a : A) → get_elem? xs i ≡ some a → i < length xs
get_elem?-bound [] i a h = ground (arith, h)
get_elem?-bound (x ∷ xs) zero a h = omega arith
get_elem?-bound (x ∷ xs) (suc i) a h = omega (arith, get_elem?-bound xs i a h)

pub in_row_safe : (row : List Value) (j : ℕ) → j < length row → in_row (get_elem? row j) ≢ panics
in_row_safe [] j l = absurd (omega (arith, l))
in_row_safe (v ∷ vs) zero l = λ h. ground (arith, h)
in_row_safe (v ∷ vs) (suc j) l = in_row_safe vs j (omega (arith, l))

if_safe :
    {A : Type 0} (b : Bool) (e : Err) (x : Cast A)
    → x ≢ panics
    → (if b then fails e else x) ≢ panics
if_safe true e x n = λ h. ground (arith, h)
if_safe false e x n = n

in_rows_safe :
    (rows : List (List Value)) (j : ℕ)
    → ((row : List Value) → rows ≡ row ∷ [] → j < length row)
    → in_rows j (some rows) ≢ panics
in_rows_safe [] j h = λ e. ground (arith, e)
in_rows_safe (row ∷ []) j h = if_safe _ _ _ (in_row_safe row j (h row refl))
in_rows_safe (row ∷ other ∷ rows) j h = λ e. ground (arith, e)

value_at_safe :
    (response : TimescaleQueryResponse) (r : Result (ℕ × ℕ))
    → ((i j : ℕ) → r ≡ ok (i, j) → in_rows j (get_elem? response i) ≢ panics)
    → value_at response r ≢ panics
value_at_safe response (err e) h = λ f. ground (arith, f)
value_at_safe response (ok (i, j)) h = if_safe _ _ _ (h i j refl)

prepend_safe :
    (v : Cast Value) (vs : Cast (List Value)) → v ≢ panics → vs ≢ panics → prepend v vs ≢ panics
prepend_safe panics vs n m = absurd (n refl)
prepend_safe (fails e) vs n m = λ f. ground (arith, f)
prepend_safe (casts v) panics n m = absurd (m refl)
prepend_safe (casts v) (fails e) n m = λ f. ground (arith, f)
prepend_safe (casts v) (casts vs) n m = λ f. ground (arith, f)

-- castQueryResponse never uses an index that is out of range where no two queries are for the
-- same service of the same device, the response has an entry for each query, and each entry that
-- is one row has a value more than its query has columns.
pub cast_query_response_safe :
    (requests : List TimescaleRequest) (query : TimescaleQuery) (response : TimescaleQueryResponse)
    → IsApart query
    → HasRows query response
    → cast_query_response requests query response ≢ panics
unfolding cast_query_response
cast_query_response_safe [] query response apart rows = λ e. ground (arith, e)
cast_query_response_safe (r ∷ rs) query response apart rows =
    prepend_safe (value_at response (get_indexes query r)) (cast_query_response rs query response)
      (value_at_safe response (get_indexes query r) (λ i j h. found i j h))
      (cast_query_response_safe rs query response apart rows)
  where
    found : (i j : ℕ) → get_indexes query r ≡ ok (i, j) → in_rows j (get_elem? response i) ≢ panics
    found i j h =
        let (c, e, (q, at, y, z)) = get_indexes-IsColumn query r i j apart h in
        let (entry, there, enough) = rows i q at in
        rw there (
          in_rows_safe entry j (λ row one.
            omega (arith, e, enough row one, get_elem?-bound q.columns c r.column_name z)))
