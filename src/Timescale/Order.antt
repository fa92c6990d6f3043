-- ===== src/Timescale/Order.antt =====
-- lib/timescale/timescale.go (CastRequest): the order in which Go ranges over the groups of the requests.
use external_task_worker.Base.{
  ℕ, zero, suc, String, ◌≡◌, refl, sym, ap, ◌∙◌, Bool, true, false, some, List, [], ◌∷◌, ◌||◌,
  get_elem?, arith, eq_iff, All, false≢true,
}
use external_task_worker.Messages.{TimescaleRequest}
use external_task_worker.Timescale.{QueriesRequestElement, TimescaleQuery, is_for}
use external_task_worker.Timescale.Columns.{some-inj, IsApart}
use external_task_worker.Timescale.Values.{IsAsked}

-- whether some query is for a service of a device
unfoldable pub asks : String → String → TimescaleQuery → Bool
asks d s [] = false
asks d s (q ∷ qs) = is_for d s q || asks d s qs

abbrev pub IsDistinct : TimescaleQuery → Type 0
IsDistinct [] = Unit
IsDistinct (q ∷ qs) = (asks q.device_id q.service_id qs ≡ false) × IsDistinct qs

asks_at :
    (d s : String) (qs : TimescaleQuery) (i : ℕ) (q : QueriesRequestElement)
    → get_elem? qs i ≡ some q
    → is_for d s q ≡ true
    → asks d s qs ≡ true
unfolding asks
asks_at d s [] i q h f = ground (arith, h)
asks_at d s (p ∷ qs) zero q h f = let here : is_for d s p ≡ true = rw (some-inj p q h) f in rw here
asks_at d s (p ∷ qs) (suc i) q h f = rw (asks_at d s qs i q h f) (ground arith)

same_service :
    (d s : String) (q : QueriesRequestElement)
    → is_for d s q ≡ true
    → (d ≡ q.device_id) × (s ≡ q.service_id)
same_service d s q f =
    (ground (arith, f, eq_iff q.device_id d), ground (arith, f, eq_iff q.service_id s))

head_apart :
    (d s : String) (p : QueriesRequestElement) (qs : TimescaleQuery) (i : ℕ)
    (q : QueriesRequestElement)
    → asks p.device_id p.service_id qs ≡ false
    → get_elem? qs i ≡ some q
    → is_for d s p ≡ true
    → is_for d s q ≡ true
    → ⊥
head_apart d s p qs i q n h f g =
    let same = same_service d s p f in
    false≢true (sym n ∙ rw (sym same.0, sym same.1) (asks_at d s qs i q h g))

pub IsDistinct-IsApart : (qs : TimescaleQuery) → IsDistinct qs → IsApart qs
IsDistinct-IsApart [] h i j p q d s a b f g = ground (arith, a)
IsDistinct-IsApart (x ∷ qs) h zero zero p q d s a b f g = refl
IsDistinct-IsApart (x ∷ qs) h zero (suc j) p q d s a b f g =
    let here : is_for d s x ≡ true = rw (some-inj x p a) f in
    absurd (head_apart d s x qs j q h.0 b here g)
IsDistinct-IsApart (x ∷ qs) h (suc i) zero p q d s a b f g =
    let here : is_for d s x ≡ true = rw (some-inj x q b) g in
    absurd (head_apart d s x qs i p h.0 a here f)
IsDistinct-IsApart (x ∷ qs) h (suc i) (suc j) p q d s a b f g =
    ap suc (IsDistinct-IsApart qs h.1 i j p q d s a b f g)

-- the second list has the queries of the first, each as often, in some order
pub data Reordered : TimescaleQuery → TimescaleQuery → Type 0 where
  unchanged : (qs : TimescaleQuery) → Reordered qs qs
  behind :
      (q : QueriesRequestElement) {xs ys : TimescaleQuery}
      → Reordered xs ys
      → Reordered (q ∷ xs) (q ∷ ys)
  swapped :
      (p q : QueriesRequestElement) (qs : TimescaleQuery) → Reordered (p ∷ q ∷ qs) (q ∷ p ∷ qs)
  in_steps : {xs ys zs : TimescaleQuery} → Reordered xs ys → Reordered ys zs → Reordered xs zs

-- What Go says of a range over a map: each entry is visited once, in no fixed order.
abbrev pub IsWalk : (TimescaleQuery → TimescaleQuery) → Type 0
IsWalk walk = (qs : TimescaleQuery) → Reordered qs (walk qs)

Reordered-asks :
    {xs ys : TimescaleQuery} → Reordered xs ys → (d s : String) → asks d s xs ≡ asks d s ys
unfolding asks
Reordered-asks (unchanged qs) d s = refl
Reordered-asks (behind q r) d s = rw (Reordered-asks r d s) refl
Reordered-asks (swapped p q qs) d s = ground arith
Reordered-asks (in_steps r t) d s = Reordered-asks r d s ∙ Reordered-asks t d s

swapped-IsDistinct :
    (p q : QueriesRequestElement) (qs : TimescaleQuery)
    → IsDistinct (p ∷ q ∷ qs)
    → IsDistinct (q ∷ p ∷ qs)
unfolding asks
swapped-IsDistinct p q qs (h, (g, more)) = (
  ground (
    arith,
    h,
    g,
    eq_iff q.device_id p.device_id,
    eq_iff q.service_id p.service_id,
    eq_iff p.device_id q.device_id,
    eq_iff p.service_id q.service_id,
  ),
  (ground (arith, h), more),
)

pub Reordered-IsDistinct :
    {xs ys : TimescaleQuery} → Reordered xs ys → IsDistinct xs → IsDistinct ys
Reordered-IsDistinct (unchanged qs) h = h
Reordered-IsDistinct (behind q r) (h, more) =
    (sym (Reordered-asks r q.device_id q.service_id) ∙ h, Reordered-IsDistinct r more)
Reordered-IsDistinct (swapped p q qs) h = swapped-IsDistinct p q qs h
Reordered-IsDistinct (in_steps r t) h = Reordered-IsDistinct t (Reordered-IsDistinct r h)

still-IsAsked :
    {xs ys : TimescaleQuery} (r : TimescaleRequest) → Reordered xs ys → IsAsked xs r → IsAsked ys r
still-IsAsked r (unchanged qs) h = h
still-IsAsked r (behind q t) (zero, c, p) = (zero, c, p)
still-IsAsked r (behind q t) (suc i, c, p) =
    let (j, c', p') = still-IsAsked r t (i, c, p) in (suc j, c', p')
still-IsAsked r (swapped p q qs) (zero, c, e) = (1, c, e)
still-IsAsked r (swapped p q qs) (suc zero, c, e) = (0, c, e)
still-IsAsked r (swapped p q qs) (suc (suc i), c, e) = (suc (suc i), c, e)
still-IsAsked r (in_steps t u) h = still-IsAsked r u (still-IsAsked r t h)

pub Reordered-IsAsked :
    {xs ys : TimescaleQuery}
    → Reordered xs ys
    → (rs : List TimescaleRequest) → All (IsAsked xs) rs
    → All (IsAsked ys) rs
Reordered-IsAsked t [] h = tt
Reordered-IsAsked t (r ∷ rs) h = (still-IsAsked r t h.0, Reordered-IsAsked t rs h.1)
