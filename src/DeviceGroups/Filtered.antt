-- ===== src/DeviceGroups/Filtered.antt =====
-- Which services getFilteredServices gives: those that serve the command, each id once.
use external_task_worker.Base.{
  String, ◌≡◌, refl, sym, ◌∙◌, Bool, false, List, [], ◌∷◌, ◌==◌, ◌||◌, inl, inr, arith,
  if◌then◌else◌, Bool-cases, eq_iff,
}
use external_task_worker.Base.Sort.{insert, sort_slice}
use external_task_worker.Model.{MarshallerModel, Service}
use external_task_worker.Messages.{Command}
use external_task_worker.DeviceGroups.Services.{
  index_service, serves, service_index, id_less, get_filtered_services,
}

-- whether some service has an id
unfoldable pub has_id : String → List Service → Bool
has_id id [] = false
has_id id (s ∷ ss) = s.id == id || has_id id ss

-- no two services have one id
abbrev pub IsDistinct : List Service → Type 0
IsDistinct [] = Unit
IsDistinct (s ∷ ss) = (has_id s.id ss ≡ false) × IsDistinct ss

has_id-index_service :
    (id : String) (s : Service) (ss : List Service)
    → has_id id (index_service s ss) ≡ (s.id == id || has_id id ss)
unfolding has_id index_service
has_id-index_service id s [] = refl
has_id-index_service id s (t ∷ ts) = ground (arith, has_id-index_service id s ts, eq_iff t.id s.id)

index_service-IsDistinct :
    (s : Service) (ss : List Service) → IsDistinct ss → IsDistinct (index_service s ss)
unfolding has_id index_service
index_service-IsDistinct s [] h = (refl, tt)
index_service-IsDistinct s (t ∷ ts) h = elim (Bool-cases (t.id == s.id)) [
  | inl e ↦ rw e ((rw (sym ((eq_iff t.id s.id).0 e)) h.0), h.1)
  | inr e ↦ rw e (
    ground (arith, has_id-index_service t.id s ts, h.0, eq_iff s.id t.id, eq_iff t.id s.id),
    index_service-IsDistinct s ts h.1,
  )
]

or_no : (b : Bool) (id : String) → (b || has_id id []) ≡ b
unfolding has_id
or_no b id = ground arith

module _ (less : Service → Service → Bool) where
  has_id-insert :
      (id : String) (s : Service) (ss : List Service)
      → has_id id (insert less s ss) ≡ (s.id == id || has_id id ss)
  unfolding has_id insert
  has_id-insert id s [] = refl
  has_id-insert id s (t ∷ ts) = ground (arith, has_id-insert id s ts)

  has_id-sort_slice :
      (id : String) (ss : List Service) → has_id id (sort_slice less ss) ≡ has_id id ss
  unfolding has_id sort_slice
  has_id-sort_slice id [] = refl
  has_id-sort_slice id (s ∷ ss) =
      has_id-insert id s (sort_slice less ss) ∙ rw (has_id-sort_slice id ss) refl

  insert-IsDistinct :
      (s : Service) (ss : List Service)
      → has_id s.id ss ≡ false
      → IsDistinct ss
      → IsDistinct (insert less s ss)
  unfolding has_id insert
  insert-IsDistinct s [] n h = (refl, tt)
  insert-IsDistinct s (t ∷ ts) n h = elim (Bool-cases (less t s)) [
    | inl e ↦ rw e (
      ground (arith, has_id-insert t.id s ts, n, h.0, eq_iff s.id t.id, eq_iff t.id s.id),
      insert-IsDistinct s ts (ground (arith, n)) h.1,
    )
    | inr e ↦ rw e (n, h)
  ]

  sort_slice-IsDistinct : (ss : List Service) → IsDistinct ss → IsDistinct (sort_slice less ss)
  unfolding sort_slice
  sort_slice-IsDistinct [] h = tt
  sort_slice-IsDistinct (s ∷ ss) h =
      insert-IsDistinct s (sort_slice less ss) (has_id-sort_slice s.id ss ∙ h.0)
        (sort_slice-IsDistinct ss h.1)

module _ (m : MarshallerModel) (filter_events : Bool) (command : Command) where
  -- whether one of the services serves the command under an id
  unfoldable pub serves_under : String → List Service → Bool
  serves_under id [] = false
  serves_under id (s ∷ ss) =
      (if serves m filter_events command s then s.id == id else false) || serves_under id ss

  service_index-IsDistinct :
      (ss index : List Service)
      → IsDistinct index
      → IsDistinct (service_index m filter_events command ss index)
  unfolding service_index
  service_index-IsDistinct [] index h = h
  service_index-IsDistinct (s ∷ ss) index h = elim (Bool-cases (serves m filter_events command s)) [
    | inl e ↦
        rw e
          (service_index-IsDistinct ss (index_service s index) (index_service-IsDistinct s index h))
    | inr e ↦ rw e (service_index-IsDistinct ss index h)
  ]

  has_id-service_index :
      (id : String) (ss index : List Service)
      → has_id id (service_index m filter_events command ss index)
        ≡ (serves_under id ss || has_id id index)
  unfolding service_index serves_under
  has_id-service_index id [] index = refl
  has_id-service_index id (s ∷ ss) index = elim (Bool-cases (serves m filter_events command s)) [
    | inl e ↦ rw e (
        ground (
          arith,
          has_id-service_index id ss (index_service s index),
          has_id-index_service id s index,
        ))
    | inr e ↦ rw e (has_id-service_index id ss index)
  ]

  -- For every id, getFilteredServices gives a service with the id exactly if some service of
  -- the device type with the id serves the command, and it gives no two services with one id.
  pub get_filtered_services_ids :
      (services : List Service)
      → ((id : String)
          → has_id id (get_filtered_services m filter_events command services)
            ≡ serves_under id services)
        × IsDistinct (get_filtered_services m filter_events command services)
  unfolding get_filtered_services
  get_filtered_services_ids services = (
    λ id.
        has_id-sort_slice id_less id (service_index m filter_events command services [])
        ∙ has_id-service_index id services []
        ∙ or_no (serves_under id services) id,
    sort_slice-IsDistinct id_less (service_index m filter_events command services [])
        (service_index-IsDistinct services [] tt),
  )
