-- ===== src/DeviceGroups/SubTasks/Distinct.antt =====
-- The ids of the sub-tasks of one task: the keys under which the group is stored.
use Prim.Native.String.{◌++◌}
use text.Mathlib.TextLemmas.{append_assoc, append_cancel_left}
use external_task_worker.Base.{
  ℕ, ◌+◌, ◌≤◌, String, ◌≡◌, ◌≢◌, refl, sym, ◌∙◌, List, [], ◌∷◌, ◌++◌ as ◌++ᴸ◌, map, ◌==◌, not, ◌&&◌,
  arith, inl, inr, Bool-cases, All, All-append,
}
use external_task_worker.Base.Text.{itoa}
use external_task_worker.Base.Text.Numerals.{itoa-pair_injective}
use external_task_worker.Result.{Result, ok, err, and_then}
use external_task_worker.Model.{Device, Service}
use external_task_worker.Messages.{CamundaExternalTask, Command, GroupTaskMetadataElement}
use external_task_worker.DeviceGroups.Storage.{DeviceGroups}
use external_task_worker.DeviceGroups.Services.{get_filtered_services}
use external_task_worker.DeviceGroups.SubTasks.{
  sub_task_id, service_sub_tasks, device_sub_tasks, devices_sub_tasks, get_group_sub_tasks,
  get_empty_service_sub_tasks, raw_sub_tasks, get_sub_tasks, remove_modifier,
}

-- No two sub-tasks have one id.
abbrev pub HasDistinctIds : List GroupTaskMetadataElement → Type 0
HasDistinctIds [] = Unit
HasDistinctIds (e ∷ es) = All (λ f. e.task.id ≢ f.task.id) es × HasDistinctIds es

sub_task_id_injective :
    (t : String) (i j k l : ℕ) → sub_task_id t i j ≡ sub_task_id t k l → (i ≡ k) × (j ≡ l)
unfolding sub_task_id
sub_task_id_injective t i j k l h = itoa-pair_injective i j k l (
    append_cancel_left (t ++ "_") (itoa i ++ ("_" ++ itoa j)) (itoa k ++ ("_" ++ itoa l)) (
      sym (append_assoc (t ++ "_") (itoa i) ("_" ++ itoa j))
      ∙ h
      ∙ append_assoc (t ++ "_") (itoa k) ("_" ++ itoa l)))

-- a sub-task of device i, whose service has index j or a later one
abbrev IsAt : String → ℕ → ℕ → GroupTaskMetadataElement → Type 0
IsAt t i j e = (n : ℕ) × (j ≤ n) × (e.task.id ≡ sub_task_id t i n)

-- a sub-task of device i or a later one
abbrev IsAfter : String → ℕ → GroupTaskMetadataElement → Type 0
IsAfter t i e = (k : ℕ) × (n : ℕ) × (i ≤ k) × (e.task.id ≡ sub_task_id t k n)

All-map_of {κ λ'} :
    {A : Type 0} {P : A → Type κ} {Q : A → Type λ'} (xs : List A)
    → ((a : A) → P a → Q a)
    → All P xs
    → All Q xs
All-map_of [] f h = tt
All-map_of (x ∷ xs) f h = (f x h.0, All-map_of xs f h.1)

module _ (request : Command) (task : CamundaExternalTask) where
  sub_tasks_of_services :
      (i j : ℕ) (id : String) (d : Device) (ss : List Service)
      → All (IsAt task.id i j) (service_sub_tasks request task i j id d ss)
  unfolding service_sub_tasks
  sub_tasks_of_services i j id d [] = tt
  sub_tasks_of_services i j id d (s ∷ ss) = (
    (j, omega arith, refl),
    All-map_of (service_sub_tasks request task i (j + 1) id d ss)
        (λ e (n, l, h). (n, omega (arith, l), h)) (sub_tasks_of_services i (j + 1) id d ss),
  )

  services-HasDistinctIds :
      (i j : ℕ) (id : String) (d : Device) (ss : List Service)
      → HasDistinctIds (service_sub_tasks request task i j id d ss)
  unfolding service_sub_tasks
  services-HasDistinctIds i j id d [] = tt
  services-HasDistinctIds i j id d (s ∷ ss) = (
    All-map_of (service_sub_tasks request task i (j + 1) id d ss)
        (λ e (n, l, h) same. omega (arith, l, (sub_task_id_injective task.id i j i n (same ∙ h)).1))
        (sub_tasks_of_services i (j + 1) id d ss),
    services-HasDistinctIds i (j + 1) id d ss,
  )

  -- what holds of the sub-tasks of devices i and later
  abbrev Fresh : ℕ → List GroupTaskMetadataElement → Type 0
  Fresh i es = All (IsAfter task.id i) es × HasDistinctIds es

append-HasDistinctIds :
    (xs ys : List GroupTaskMetadataElement)
    → HasDistinctIds xs
    → HasDistinctIds ys
    → All (λ x. All (λ y. x.task.id ≢ y.task.id) ys) xs
    → HasDistinctIds (xs ++ᴸ ys)
append-HasDistinctIds [] ys h g apart = g
append-HasDistinctIds (x ∷ xs) ys h g apart = (
  All-append (λ y. x.task.id ≢ y.task.id) xs ys h.0 apart.0,
  append-HasDistinctIds xs ys h.1 g apart.1,
)

and_then-eq-ok :
    {A B : Type 0} (m : Result A) (f : A → Result B) (b : B)
    → and_then f m ≡ ok b
    → (a : A) × (m ≡ ok a) × (f a ≡ ok b)
and_then-eq-ok (ok a) f b h = (a, refl, h)
and_then-eq-ok (err e) f b h = cc

ok-inj : {A : Type 0} (a b : A) → ok a ≡ ok b → a ≡ b
ok-inj a b h = cc

module _ {S B : Type 0} (this : DeviceGroups S B) (request : Command)
    (task : CamundaExternalTask) where
  device-services :
      (token : String) (i : ℕ) (id : String) (es : List GroupTaskMetadataElement)
      → device_sub_tasks this token request task i id ≡ ok es
      → All (IsAt task.id i 0) es × HasDistinctIds es
  unfolding device_sub_tasks
  device-services token i id es h =
      let (d, _, g) = and_then-eq-ok (this.repo.get_device token id) _ es h in
      let (dt, _, f) = and_then-eq-ok (this.repo.get_device_type token d.device_type_id) _ es g in
      let ss = get_filtered_services this.marshaller_model this.filter_events request dt.services in
      let e = ok-inj (service_sub_tasks request task i 0 id d ss) es f in
      rw (sym e) (
        sub_tasks_of_services request task i 0 id d ss,
        services-HasDistinctIds request task i 0 id d ss,
      )

  devices-Fresh :
      (token : String) (i : ℕ) (ids : List String) (es : List GroupTaskMetadataElement)
      → devices_sub_tasks this token request task i ids ≡ ok es
      → Fresh request task i es
  unfolding devices_sub_tasks
  devices-Fresh token i [] es h = rw (sym (ok-inj [] es h)) (tt, tt)
  devices-Fresh token i (id ∷ ids) es h =
      let (subs, p, g) = and_then-eq-ok (device_sub_tasks this token request task i id) _ es h in
      let (others, q, f) =
        and_then-eq-ok (devices_sub_tasks this token request task (i + 1) ids) _ es g in
      let (at, distinct) = device-services token i id subs p in
      let (after, apart) = devices-Fresh token (i + 1) ids others q in
      rw (sym (ok-inj (subs ++ᴸ others) es f)) (
        All-append (IsAfter task.id i) subs others
            (All-map_of subs (λ e (n, l, s). (i, n, omega arith, s)) at)
            (All-map_of others (λ e (k, n, l, s). (k, n, omega (arith, l), s)) after),
        append-HasDistinctIds subs others distinct apart (
            All-map_of subs
              (λ x (n, l, s).
                All-map_of others
                  (λ y (k, m, o, t) same.
                    omega (arith, o, (sub_task_id_injective task.id i n k m (sym s ∙ same ∙ t)).0))
                  after)
              at),
      )

  single_sub_task :
      (es : List GroupTaskMetadataElement)
      → ok (record { command = request; task = task } ∷ []) ≡ ok es
      → HasDistinctIds es
  single_sub_task es h =
      rw (sym (ok-inj (record { command = request; task = task } ∷ []) es h)) (tt, tt)

  group-HasDistinctIds :
      (es : List GroupTaskMetadataElement)
      → get_group_sub_tasks this request task ≡ ok es
      → HasDistinctIds es
  unfolding get_group_sub_tasks
  group-HasDistinctIds es h = elim (Bool-cases (request.device_group_id == "")) [
    | inl e ↦ single_sub_task es (rw e at h)
    | inr e ↦
        let (token, _, g) = and_then-eq-ok (this.repo.get_token task.tenant_id) _ es (rw e at h) in
        let (group, _, f) =
          and_then-eq-ok (this.repo.get_device_group token request.device_group_id) _ es g in
        (devices-Fresh token 0 group.device_ids es f).1
  ]

  services-of-device :
      (es : List GroupTaskMetadataElement)
      → get_empty_service_sub_tasks this request task ≡ ok es
      → HasDistinctIds es
  unfolding get_empty_service_sub_tasks
  services-of-device es h =
      let (token, _, g) = and_then-eq-ok (this.repo.get_token task.tenant_id) _ es h in
      (device-services token 0 request.device_id es g).1

  raw-HasDistinctIds :
      (es : List GroupTaskMetadataElement)
      → raw_sub_tasks this request task ≡ ok es
      → HasDistinctIds es
  unfolding raw_sub_tasks
  raw-HasDistinctIds es h = elim (Bool-cases (not (request.device_group_id == ""))) [
    | inl e ↦ group-HasDistinctIds es (rw e at h)
    | inr e ↦ elim (Bool-cases (not (request.device_id == "") && request.service_id == "")) [
      | inl f ↦ services-of-device es (rw (e, f) at h)
      | inr f ↦ single_sub_task es (rw (e, f) at h)
    ]
  ]

All-remove_modifier :
    (id : String) (es : List GroupTaskMetadataElement)
    → All (λ f. id ≢ f.task.id) es
    → All (λ f. id ≢ f.task.id) (map remove_modifier es)
unfolding remove_modifier
All-remove_modifier id [] h = tt
All-remove_modifier id (e ∷ es) h = (h.0, All-remove_modifier id es h.1)

remove_modifier-HasDistinctIds :
    (es : List GroupTaskMetadataElement)
    → HasDistinctIds es
    → HasDistinctIds (map remove_modifier es)
unfolding remove_modifier
remove_modifier-HasDistinctIds [] h = tt
remove_modifier-HasDistinctIds (e ∷ es) h =
    (All-remove_modifier e.task.id es h.0, remove_modifier-HasDistinctIds es h.1)

-- The sub-tasks that GetSubTasks makes of one task have different ids, for every group, every device
-- and every number of services; so none of them overwrites what is stored for another.
pub get_sub_tasks-HasDistinctIds :
    {S B : Type 0} (this : DeviceGroups S B) (request : Command) (task : CamundaExternalTask)
    (es : List GroupTaskMetadataElement)
    → get_sub_tasks this request task ≡ ok es
    → HasDistinctIds es
unfolding get_sub_tasks
get_sub_tasks-HasDistinctIds this request task es h =
    let (raw, p, g) = and_then-eq-ok (raw_sub_tasks this request task) _ es h in
    rw (sym (ok-inj (map remove_modifier raw) es g))
      (remove_modifier-HasDistinctIds raw (raw-HasDistinctIds this request task raw p))
