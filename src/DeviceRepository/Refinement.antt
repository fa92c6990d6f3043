-- ===== src/DeviceRepository/Refinement.antt =====
-- lib/devicerepository/devicerepository.go: the client with its cache answers what the repository
-- answers.
use Prim.Native.String.{◌++◌}
use text.Mathlib.TextLemmas.{append_cancel_left}
use external_task_worker.Base.{
  String, ◌≡◌, refl, sym, subst, ◌∙◌, ap, ◌⊎◌, inl, inr, some, List, [], ◌∷◌, ◌==◌, eq_iff,
  Option-cases, Bool-cases,
}
use external_task_worker.Result.{Err, failure, Result, ok, err, and_then}
use external_task_worker.Model.{Device, DeviceType, Service}
use external_task_worker.DeviceRepository.{
  Entry, service_entry, Cache, IsCache, Server, services, is_valid, loaded, find_service, get_token,
  get_device, get_protocol, get_device_type, get_device_group, get_service_from_cache,
  save_service_to_cache, from_type, get_service, service_of, uncached,
}
use external_task_worker.DeviceRepository.Answers.{
  IsAnswer, of_token, of_device, of_protocol, of_device_type, of_device_group, of_service, Agrees,
  unwrap-is_valid, token_lem, device_lem, protocol_lem, device_type_lem, device_group_lem,
}

-- A service is the same in each device type of the repository that has one with its id.
abbrev pub HasOneService : Server → String → Type 0
HasOneService server token =
    (id a b : String) (t u : DeviceType) (s r : Service)
    → server.device_types token a ≡ ok t
    → server.device_types token b ≡ ok u
    → find_service id t.services ≡ some s
    → find_service id u.services ≡ some r
    → s ≡ r

and_then-service_of :
    (answer : Result DeviceType) (id : String) (service : Service)
    → and_then (service_of id) answer ≡ ok service
    → (t : DeviceType) × (answer ≡ ok t) × (find_service id t.services ≡ some service)
unfolding find_service
and_then-service_of (err e) id service h = cc
and_then-service_of (ok t) id service h = elim (Option-cases (find_service id t.services)) [
  | inl e ↦ let h' : err (failure "service not found") ≡ ok service = rw (service_of, e) at h in cc
  | inr (r, e) ↦ let h' : ok r ≡ ok service = rw (service_of, e) at h in (t, refl, e ∙ cc)
]

find_service-id :
    (id : String) (ss : List Service) (s : Service) → find_service id ss ≡ some s → s.id ≡ id
unfolding find_service
find_service-id id [] s h = cc
find_service-id id (x ∷ xs) s h = elim (Bool-cases (x.id == id)) [
  | inl e ↦
      let same : some x ≡ some s = rw (find_service, e) at h in
      let found : x ≡ s = cc in subst (λ r. r.id ≡ id) found ((eq_iff x.id id).0 e)
  | inr e ↦ find_service-id id xs s (rw (find_service, e) at h)
]

module _ {C : Type 0} (cache : Cache C) (server : Server) (token : String) where
  from_type-found :
      (id : String) (t : DeviceType) (service : Service) (loads : Result DeviceType × C)
      → loads.0 ≡ ok t
      → find_service id t.services ≡ some service
      → (from_type cache server id loads).0 ≡ ok service
  unfolding find_service save_service_to_cache
  from_type-found id t service (ok u, s) h found =
      let same : u ≡ t = cc in rw (same, from_type, found) refl
  from_type-found id t service (err e, s) h found = cc

  from_type-Agrees :
      IsCache cache
      → (type_id id : String) (loads : Result DeviceType × C)
      → ((t : DeviceType) → loads.0 ≡ ok t → server.device_types token type_id ≡ ok t)
      → Agrees cache server token loads.1
      → Agrees cache server token (from_type cache server id loads).1
  unfolding find_service save_service_to_cache
  from_type-Agrees is_cache type_id id (ok t, s) typed agrees =
      elim (Option-cases (find_service id t.services)) [
        | inl e ↦ rw (from_type, e) agrees
        | inr (r, e) ↦
            rw (from_type, e)
              λ k x seen.
                elim (is_cache.set_view ("service." ++ r.id) (service_entry r) s k x seen) [
                  | inl old ↦ agrees k x old
                  | inr (here, new) ↦
                      of_service id type_id t r
                        (sym here ∙ ap (λ i. "service." ++ i) (find_service-id id t.services r e))
                        (sym new) (typed t refl) e
                ]
      ]
  from_type-Agrees is_cache type_id id (err e, s) typed agrees = agrees

  module _ (is_cache : IsCache cache) (s : C) (agrees : Agrees cache server token s) where
    -- what is cached under the id of a service is the service of some device type
    reads_service :
        (id : String) (e : Entry) (r : Service)
        → cache.view s ("service." ++ id) ≡ some e
        → services.unwrap e ≡ some r
        → (type_id : String) × (t : DeviceType) × (server.device_types token type_id ≡ ok t)
          × (find_service id t.services ≡ some r)
    reads_service id e r seen found = of_answer (agrees ("service." ++ id) e seen)
      where
        of_answer :
            IsAnswer server token ("service." ++ id) e
            → (type_id : String) × (t : DeviceType) × (server.device_types token type_id ≡ ok t)
              × (find_service id t.services ≡ some r)
        of_answer (of_token i c k h a) = absurd cc
        of_answer (of_device i c k h a) = absurd cc
        of_answer (of_protocol i c k h a) = absurd cc
        of_answer (of_device_type i c k h a) = absurd cc
        of_answer (of_device_group i c k h a) = absurd cc
        of_answer (of_service i j t c k h a b) = (
          j,
          t,
          a,
          subst (λ x. find_service x t.services ≡ some r)
              (sym (append_cancel_left "service." id i k)) (b ∙ cc),
        )

    -- either a cached service, or an error
    from_cache :
        (id : String)
        → ((r : Service) × (type_id : String) × (t : DeviceType) × (get_service_from_cache cache
                server id s
              ≡ ok r)
            × (server.device_types token type_id ≡ ok t)
            × (find_service id t.services ≡ some r))
          ⊎ ((x : Err) × (get_service_from_cache cache server id s ≡ err x))
    unfolding get_service_from_cache
    from_cache id = elim (is_cache.get_answer ("service." ++ id) (is_valid services) s) [
      | inl (e, seen, valid, got) ↦
          let (r, found) = unwrap-is_valid services e valid in
          let (type_id, t, a, b) = reads_service id e r seen found in
          inl (r, type_id, t, rw (got, loaded, found) refl, a, b)
      | inr (x, got) ↦ inr (x, rw got refl)
    ]

    service_lem :
        (device : Device) (id : String) (service : Service)
        → HasOneService server token
        → (uncached server).get_service token device id ≡ ok service
        → (get_service cache server token device id s).0 ≡ ok service
    unfolding get_service uncached
    service_lem device id service one h =
        let (t, typed, found) =
          and_then-service_of (server.device_types token device.device_type_id) id service h in
        elim (from_cache id) [
          | inl (r, j, u, cached, typed', found') ↦
              rw (get_service, cached)
                (ap ok (one id j device.device_type_id u t r service typed' typed found' found))
          | inr (x, missed) ↦
              let loads : (get_device_type cache server token device.device_type_id s).0 ≡ ok t =
                (device_type_lem cache server token is_cache s agrees device.device_type_id).0
                ∙ typed in
              rw (get_service, missed)
                (from_type-found id t service
                  (get_device_type cache server token device.device_type_id s) loads found)
        ]

    service-Agrees :
        (device : Device) (id : String)
        → Agrees cache server token (get_service cache server token device id s).1
    unfolding get_service uncached
    service-Agrees device id = elim (from_cache id) [
      | inl (r, j, u, cached, _, _) ↦ rw (get_service, cached) agrees
      | inr (x, missed) ↦
          let loads = get_device_type cache server token device.device_type_id s in
          rw (get_service, missed)
            (from_type-Agrees is_cache device.device_type_id id loads
              (λ t h.
                sym (device_type_lem cache server token is_cache s agrees device.device_type_id).0
                ∙ h)
              (device_type_lem cache server token is_cache s agrees device.device_type_id).1)
    ]

-- an answer, beside a cache that holds answers of the repository
abbrev pub Gives : {C A : Type 0} → Cache C → Server → String → Result A × C → Result A → Type 0
Gives cache server token given answer = (given.0 ≡ answer) × Agrees cache server token given.1

-- Where the cache uses an entry that passes its check or else fetches, and each of its entries is an answer
-- of keycloak, or of the repository to one and the same token, the client gives, for every user and
-- every id and for that token, the token, the device, the protocol, the device type and the device
-- group, or the error, that keycloak and the repository give, and its cache holds only such answers
-- afterwards. The keys of the cache do not name the token, so nothing follows for another one.
pub answers_uncached :
    {C : Type 0} (cache : Cache C) (server : Server) (token : String) (s : C)
    → IsCache cache
    → Agrees cache server token s
    → (id : String)
    → Gives cache server token (get_token cache server id s) ((uncached server).get_token id)
      × Gives cache server token
          (get_device cache server token id s)
          ((uncached server).get_device token id)
      × Gives cache server token
          (get_protocol cache server token id s)
          ((uncached server).get_protocol token id)
      × Gives cache server token
          (get_device_type cache server token id s)
          ((uncached server).get_device_type token id)
      × Gives cache server token
          (get_device_group cache server token id s)
          ((uncached server).get_device_group token id)
answers_uncached cache server token s is_cache agrees id = (
  token_lem cache server token is_cache s agrees id,
  device_lem cache server token is_cache s agrees id,
  protocol_lem cache server token is_cache s agrees id,
  device_type_lem cache server token is_cache s agrees id,
  device_group_lem cache server token is_cache s agrees id,
)

-- A service that the device type of a device has in the repository is what the client answers, cached
-- or not, where the cache uses an entry that passes its check or else fetches, its entries are answers of
-- keycloak, or of the repository to the token that asks, and a service is the same in each device type that has one with its id; the cache holds only such answers afterwards.
pub get_service_uncached :
    {C : Type 0} (cache : Cache C) (server : Server) (token : String) (s : C) (device : Device)
    (id : String) (service : Service)
    → IsCache cache
    → Agrees cache server token s
    → HasOneService server token
    → (uncached server).get_service token device id ≡ ok service
    → Gives cache server token (get_service cache server token device id s) (ok service)
get_service_uncached cache server token s device id service is_cache agrees one h = (
  service_lem cache server token is_cache s agrees device id service one h,
  service-Agrees cache server token is_cache s agrees device id,
)
