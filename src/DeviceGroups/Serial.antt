-- ===== src/DeviceGroups/Serial.antt =====
-- The schedulers `sequential` and `round_robin`: one sub-task at a time.
use external_task_worker.Base.{
  refl, ap, Option, none, some, ◌⊎◌, ◌≤◌, String, ◌≡◌, inl, inr, Bool, true, false, List, [], ◌∷◌,
  arith, ◌||◌, ◌==◌, false≢true, Bool-cases, length, keep, All, All-keep,
}
use external_task_worker.Base.Int.{ℤ, pos, negsuc, minus_one, eqbℤ, ◌≤ℤ◌}
use external_task_worker.Base.Sort.{insert, sort_slice}
use external_task_worker.Result.{Err, Result, ok, err, is_not_fount}
use external_task_worker.Model.{Value}
use external_task_worker.Messages.{CamundaExternalTask, Command, RequestInfo, SubTaskState}
use external_task_worker.World.{World}
use external_task_worker.DeviceGroups.Storage.{DeviceGroups, get_sub_task_state}
use external_task_worker.DeviceGroups.Results.{is_empty}
use external_task_worker.DeviceGroups.Sequential.{
  zero_state, state_or_zero, annotate_one, annotate_sub_task_states, may_retry, is_idle,
  filter_retries, filter_currently_running,
}
use external_task_worker.DeviceGroups.Commands.{
  Progress, sequential, round_robin, fewer_tries, send_first, one_at_a_time, by_scheduler, schedule,
  unless_ignored, process_command, get_next_requests, should_ignore_task, save_call_info,
}

abbrev pub IsSerial : String → Type 0
IsSerial scheduler = (scheduler == sequential || scheduler == round_robin) ≡ true

-- the sub-task of a message has not used up its tries
abbrev pub HasTries : ℤ → RequestInfo → Type 0
HasTries retries r = (retries ≡ minus_one) ⊎ (r.sub_task_state.try_count ≤ℤ retries)

minus_one_of : (n : ℤ) → eqbℤ n minus_one ≡ true → n ≡ minus_one
minus_one_of (pos n) h = absurd (ground arith)
minus_one_of (negsuc n) h = let zero_n : n ≡ 0 = ground arith in ap negsuc zero_n

may_retry-HasTries :
    (retries : ℤ) (r : RequestInfo) → may_retry retries r ≡ true → HasTries retries r
may_retry-HasTries retries r h = elim (Bool-cases (eqbℤ retries minus_one)) [
  | inl e ↦ inl (minus_one_of retries e)
  | inr e ↦ inr (ground arith)
]

module _ {ℓ κ} {A : Type ℓ} (P : A → Type κ) (less : A → A → Bool) where
  pub All-insert : (x : A) (ys : List A) → P x → All P ys → All P (insert less x ys)
  unfolding insert
  All-insert x [] px h = (px, tt)
  All-insert x (y ∷ ys) px h = elim (Bool-cases (less y x)) [
    | inl e ↦ rw e (h.0, All-insert x ys px h.1)
    | inr e ↦ rw e (px, (h.0, h.1))
  ]

  pub All-sort : (xs : List A) → All P xs → All P (sort_slice less xs)
  unfolding sort_slice
  All-sort [] h = tt
  All-sort (x ∷ xs) h = All-insert x (sort_slice less xs) h.0 (All-sort xs h.1)

All-keep_of {ℓ κ} :
    {A : Type ℓ} (P : A → Type κ) (p : A → Bool) (xs : List A) → All P xs → All P (keep p xs)
All-keep_of P p [] h = tt
All-keep_of P p (x ∷ xs) h = elim (Bool-cases (p x)) [
  | inl e ↦ rw e (h.0, All-keep_of P p xs h.1)
  | inr e ↦ rw e (All-keep_of P p xs h.1)
]

module _ {S B : Type 0} (this : DeviceGroups S B) where
  -- the sub-tasks that may be tried now
  abbrev pub candidates : Command → World S → List RequestInfo → List RequestInfo
  candidates command w annotated =
      filter_currently_running w.now this.currently_running_timeout
        (filter_retries command.retries annotated)

  -- the state in a message is what some read of the store gave for its sub-task: the stored one, or
  -- no tries where there was none
  abbrev pub IsRead : RequestInfo → Type 0
  IsRead r =
      (w : World S) × (((get_sub_task_state this r.metadata.task.id w).0 ≡ ok r.sub_task_state)
        ⊎ ((e : Err) × ((get_sub_task_state this r.metadata.task.id w).0 ≡ err e)
            × (is_not_fount e ≡ true)
            × (r.sub_task_state ≡ zero_state)))

  -- a message for a sub-task that has tries left, with the tries that the store has of it
  abbrev pub IsDue : ℤ → RequestInfo → Type 0
  IsDue retries r = HasTries retries r × IsRead r

  -- at most one message
  abbrev pub IsSmall : ℤ → Progress → Type 0
  IsSmall retries p = (length p.next_messages ≤ 1) × All (IsDue retries) p.next_messages

  annotate_one-IsRead :
      (e : RequestInfo) (v : World S) (answer : Result SubTaskState × World S)
      (rest : World S → (List RequestInfo × Option Err) × World S)
      → (get_sub_task_state this e.metadata.task.id v) ≡ answer
      → ((w : World S) → All IsRead (rest w).0.0)
      → All IsRead (annotate_one this e (let (r, w) = answer in (state_or_zero r, w)) rest).0.0
  annotate_one-IsRead e v (ok state, w) rest h more = ((v, inl (ap (λ a. a.0) h)), more w)
  annotate_one-IsRead e v (err x, w) rest h more = elim (Bool-cases (is_not_fount x)) [
    | inl missing ↦ rw missing ((v, inr (x, ap (λ a. a.0) h, missing, refl)), more w)
    | inr fails ↦ rw fails tt
  ]

  annotate-IsRead :
      (requests : List RequestInfo) (w : World S)
      → All IsRead (annotate_sub_task_states this requests w).0.0
  unfolding annotate_sub_task_states
  annotate-IsRead [] w = tt
  annotate-IsRead (e ∷ es) w =
      annotate_one-IsRead e w (get_sub_task_state this e.metadata.task.id w)
        (annotate_sub_task_states this es) refl (annotate-IsRead es)

  All-both :
      (P Q : RequestInfo → Type 0) (l : List RequestInfo)
      → All P l
      → All Q l
      → All (λ r. P r × Q r) l
  All-both P Q [] p q = tt
  All-both P Q (x ∷ xs) p q = ((p.0, q.0), All-both P Q xs p.1 q.1)

  All-map_of :
      (P Q : RequestInfo → Type 0)
      → ((r : RequestInfo) → P r → Q r)
      → (l : List RequestInfo) → All P l
      → All Q l
  All-map_of P Q f [] h = tt
  All-map_of P Q f (x ∷ xs) h = (f x h.0, All-map_of P Q f xs h.1)

  pub candidates-IsDue :
      (Q : RequestInfo → Type 0) (command : Command) (w : World S) (annotated : List RequestInfo)
      (order : List RequestInfo → List RequestInfo)
      → ((P : RequestInfo → Type 0) (l : List RequestInfo) → All P l → All P (order l))
      → All Q annotated
      → All (λ r. HasTries command.retries r × Q r) (order (candidates command w annotated))
  unfolding filter_retries filter_currently_running
  candidates-IsDue Q command w annotated order keeps read =
      let idle = is_idle w.now this.currently_running_timeout in
      let left = keep (may_retry command.retries) annotated in
      keeps _ _ (
        All-both (HasTries command.retries) Q (keep idle left)
          (All-map_of (λ r. may_retry command.retries r ≡ true) (HasTries command.retries)
            (may_retry-HasTries command.retries) (keep idle left)
            (All-keep_of _ idle left (All-keep (may_retry command.retries) annotated)))
          (All-keep_of Q idle left (All-keep_of Q (may_retry command.retries) annotated read)))

  send_first-IsSmall :
      (retries : ℤ) (requests : List RequestInfo) (results : List Value) (w : World S)
      → All (IsDue retries) requests
      → IsSmall retries (send_first this requests results w).0
  send_first-IsSmall retries [] results w h = (omega arith, tt)
  send_first-IsSmall retries (r ∷ rs) results w h = (omega arith, (h.0, tt))

  one_at_a_time-IsSmall :
      (order : List RequestInfo → List RequestInfo)
      → ((P : RequestInfo → Type 0) (l : List RequestInfo) → All P l → All P (order l))
      → (command : Command) (task : CamundaExternalTask) (results : List Value)
        (annotated : (List RequestInfo × Option Err) × World S)
      → All IsRead annotated.0.0
      → (one_at_a_time this order command task results annotated).0.error ≡ none
      → IsSmall command.retries (one_at_a_time this order command task results annotated).0
  one_at_a_time-IsSmall order keeps command task results ((l, some e), w) read good = cc
  one_at_a_time-IsSmall order keeps command task results ((l, none), w) read good =
      elim (Bool-cases (is_empty (filter_retries command.retries l))) [
        | inl e ↦ rw e (omega arith, tt)
        | inr e ↦ rw e (
            send_first-IsSmall command.retries (order (candidates command w l)) results w
              (candidates-IsDue IsRead command w l order keeps read))
      ]

  by_scheduler-IsSmall :
      (command : Command) (task : CamundaExternalTask) (requests : List RequestInfo)
      (results : List Value) (w : World S)
      → IsSerial this.scheduler
      → (by_scheduler this command task requests results w).0.error ≡ none
      → IsSmall command.retries (by_scheduler this command task requests results w).0
  by_scheduler-IsSmall command task requests results w serial =
      let annotated = annotate_sub_task_states this requests w in
      elim (Bool-cases (this.scheduler == sequential)) [
        | inl e ↦ rw e (
            one_at_a_time-IsSmall (λ l. l) (λ P l h. h) command task results annotated
              (annotate-IsRead requests w))
        | inr e ↦ elim (Bool-cases (this.scheduler == round_robin)) [
          | inl f ↦
              rw (e, f)
                (one_at_a_time-IsSmall (sort_slice fewer_tries) (λ P. All-sort P fewer_tries)
                  command task results annotated (annotate-IsRead requests w))
          | inr f ↦ absurd (false≢true (rw (e, f) at serial))
        ]
      ]

  schedule-IsSmall :
      (command : Command) (task : CamundaExternalTask) (error : Option Err)
      (requests : List RequestInfo) (results : List Value) (w : World S)
      → IsSerial this.scheduler
      → (schedule this command task
          (record { requests = requests; results = results; error = error }, w)).0.error
        ≡ none
      → IsSmall command.retries
          (schedule this command task
            (record { requests = requests; results = results; error = error }, w)).0
  unfolding schedule
  schedule-IsSmall command task (some e) requests results w serial good = cc
  schedule-IsSmall command task none requests results w serial good =
      by_scheduler-IsSmall command task requests results w serial good

  unless_ignored-IsSmall :
      (command : Command) (task : CamundaExternalTask) (caller : String) (r : Bool × World S)
      → IsSerial this.scheduler
      → (unless_ignored this command task caller r).0.error ≡ none
      → IsSmall command.retries (unless_ignored this command task caller r).0
  unless_ignored-IsSmall command task caller (true, w) serial good = (omega arith, tt)
  unless_ignored-IsSmall command task caller (false, w) serial good =
      let (next, v) = get_next_requests this command task (save_call_info this task caller w) in
      schedule-IsSmall command task next.error next.requests next.results v serial good

  -- Whatever the store does, under the schedulers `sequential` and `round_robin` a call of
  -- ProcessCommand that returns no error returns at most one message; the sub-task of that message has
  -- not used up its tries: its number of tries is at most the command's retries, or the retries are
  -- -1; and that number is what the store gave, in some state of it, for the sub-task, a missing
  -- entry counting as no try.
  pub process_command_one :
      (command : Command) (task : CamundaExternalTask) (caller : String) (w : World S)
      → IsSerial this.scheduler
      → (process_command this command task caller w).0.error ≡ none
      → IsSmall command.retries (process_command this command task caller w).0
  unfolding process_command
  process_command_one command task caller w serial good =
      unless_ignored-IsSmall command task caller (should_ignore_task this caller task w) serial good
