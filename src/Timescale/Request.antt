-- ===== src/Timescale/Request.antt =====
-- The query of CastRequest asks for each column, and once for each service of each device.
use external_task_worker.Base.{
  ℕ, zero, suc, String, ◌≡◌, refl, true, some, List, [], ◌∷◌, ◌++◌, ◌&&◌, ◌||◌, ◌==◌, length,
  get_elem?, arith, inl, inr, Bool-cases, eq_iff, eq_refl, All,
}
use external_task_worker.Model.{Value}
use external_task_worker.Messages.{TimescaleRequest}
use external_task_worker.Timescale.{
  QueriesRequestElement, TimescaleQuery, TimescaleQueryResponse, is_for, group_request,
  group_requests, cast_request, casts, cast_query_response,
}
use external_task_worker.Timescale.Order.{
  asks, IsDistinct, IsDistinct-IsApart, IsWalk, Reordered-IsDistinct, Reordered-IsAsked,
}
use external_task_worker.Timescale.Columns.{some-inj, HasRows}
use external_task_worker.Timescale.Values.{IsAsked, AreValuesOf, cast_query_response_values}

asks-group_request :
    (d s : String) (r : TimescaleRequest) (qs : TimescaleQuery)
    → asks d s (group_request r qs) ≡ ((r.device.id == d && r.service.id == s) || asks d s qs)
unfolding asks group_request
asks-group_request d s r [] = refl
asks-group_request d s r (q ∷ qs) = ground (
  arith,
  asks-group_request d s r qs,
  eq_iff q.device_id r.device.id,
  eq_iff q.service_id r.service.id,
)

group_request-IsDistinct :
    (r : TimescaleRequest) (qs : TimescaleQuery) → IsDistinct qs → IsDistinct (group_request r qs)
unfolding asks group_request
group_request-IsDistinct r [] h = (refl, tt)
group_request-IsDistinct r (q ∷ qs) h = elim (Bool-cases (is_for r.device.id r.service.id q)) [
  | inl e ↦ rw e (h.0, h.1)
  | inr e ↦ rw e (
    ground (
      arith,
      e,
      h.0,
      asks-group_request q.device_id q.service_id r qs,
      eq_iff r.device.id q.device_id,
      eq_iff r.service.id q.service_id,
      eq_iff q.device_id r.device.id,
      eq_iff q.service_id r.service.id,
    ),
    group_request-IsDistinct r qs h.1,
  )
]

group_requests-IsDistinct :
    (rs : List TimescaleRequest) (qs : TimescaleQuery)
    → IsDistinct qs
    → IsDistinct (group_requests rs qs)
unfolding group_requests
group_requests-IsDistinct [] qs h = h
group_requests-IsDistinct (r ∷ rs) qs h =
    group_requests-IsDistinct rs (group_request r qs) (group_request-IsDistinct r qs h)

get_elem?-left :
    {A : Type 0} (xs ys : List A) (i : ℕ) (a : A)
    → get_elem? xs i ≡ some a
    → get_elem? (xs ++ ys) i ≡ some a
get_elem?-left [] ys i a h = ground (arith, h)
get_elem?-left (x ∷ xs) ys zero a h = h
get_elem?-left (x ∷ xs) ys (suc i) a h = get_elem?-left xs ys i a h

get_elem?-last : {A : Type 0} (xs : List A) (a : A) → get_elem? (xs ++ a ∷ []) (length xs) ≡ some a
get_elem?-last [] a = refl
get_elem?-last (x ∷ xs) a = get_elem?-last xs a

IsAsked-later :
    (x : QueriesRequestElement) (qs : TimescaleQuery) (r : TimescaleRequest)
    → IsAsked qs r
    → IsAsked (x ∷ qs) r
IsAsked-later x qs r (i, c, p) = (suc i, c, p)

IsAsked-new : (r : TimescaleRequest) (qs : TimescaleQuery) → IsAsked (group_request r qs) r
unfolding group_request
IsAsked-new r [] = (0, 0, (_, refl, rw (eq_refl r.device.id, eq_refl r.service.id), refl))
IsAsked-new r (q ∷ qs) = elim (Bool-cases (is_for r.device.id r.service.id q)) [
  | inl e ↦ rw e (0, length q.columns, (_, refl, e, get_elem?-last q.columns r.column_name))
  | inr e ↦ rw e (IsAsked-later q (group_request r qs) r (IsAsked-new r qs))
]

IsAsked-still :
    (r other : TimescaleRequest) (qs : TimescaleQuery)
    → IsAsked qs other
    → IsAsked (group_request r qs) other
unfolding group_request
IsAsked-still r other [] (i, c, (p, h, f, g)) = ground (arith, h)
IsAsked-still r other (q ∷ qs) (zero, c, (p, h, f, g)) =
    let here : is_for other.device.id other.service.id q ≡ true = rw (some-inj q p h) f in
    let column : get_elem? q.columns c ≡ some other.column_name = rw (some-inj q p h) g in
    elim (Bool-cases (is_for r.device.id r.service.id q)) [
      | inl e ↦ rw e (
        0,
        c,
        (_, refl, here, get_elem?-left q.columns (r.column_name ∷ []) c other.column_name column),
      )
      | inr e ↦ rw e (0, c, (q, refl, here, column))
    ]
IsAsked-still r other (q ∷ qs) (suc i, c, (p, h, f, g)) =
    elim (Bool-cases (is_for r.device.id r.service.id q)) [
      | inl e ↦ rw e (suc i, c, (p, h, f, g))
      | inr e ↦ rw e (
          IsAsked-later q (group_request r qs) other
            (IsAsked-still r other qs (i, c, (p, h, f, g))))
    ]

IsAsked-to_end :
    (other : TimescaleRequest) (rs : List TimescaleRequest) (qs : TimescaleQuery)
    → IsAsked qs other
    → IsAsked (group_requests rs qs) other
unfolding group_requests
IsAsked-to_end other [] qs h = h
IsAsked-to_end other (r ∷ rs) qs h =
    IsAsked-to_end other rs (group_request r qs) (IsAsked-still r other qs h)

group_requests-IsAsked :
    (rs : List TimescaleRequest) (qs : TimescaleQuery) → All (IsAsked (group_requests rs qs)) rs
unfolding group_requests
group_requests-IsAsked [] qs = tt
group_requests-IsAsked (r ∷ rs) qs = (
  IsAsked-to_end r rs (group_request r qs) (IsAsked-new r qs),
  group_requests-IsAsked rs (group_request r qs),
)

-- In whatever order Go ranges over the maps of CastRequest, which give each of their entries once: a response
-- to the query that CastRequest makes, which has an entry for each query and, where the entry is one
-- row, a value more than the query has columns, is cast to one value for each request, in order: the
-- value of the request's own column in the row of its own device and service, or nil where there
-- is not one row.
pub cast_request-cast_query_response :
    (walk : TimescaleQuery → TimescaleQuery) (requests : List TimescaleRequest)
    (response : TimescaleQueryResponse)
    → IsWalk walk
    → HasRows (cast_request walk requests) response
    → (vs : List Value) × (cast_query_response requests (cast_request walk requests) response
        ≡ casts vs)
      × AreValuesOf (cast_request walk requests) response requests vs
unfolding cast_request
cast_request-cast_query_response walk requests response is_walk rows =
    let groups = group_requests requests [] in
    let order = is_walk groups in
    cast_query_response_values requests (walk groups) response
      (IsDistinct-IsApart (walk groups)
        (Reordered-IsDistinct order (group_requests-IsDistinct requests [] tt)))
      rows (Reordered-IsAsked order requests (group_requests-IsAsked requests []))
