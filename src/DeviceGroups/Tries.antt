-- ===== src/DeviceGroups/Tries.antt =====
-- lib/devicegroups/sequential.go: what a try of a sub-task is, and when the tries are used up.
use Prim.Native.String.{◌++◌}
use external_task_worker.Base.{
  ℕ, zero, suc, String, ◌≡◌, refl, true, false, Option, none, some, List, [], ◌∷◌, inl, inr,
  if◌then◌else◌, Bool-cases, All, ◌==◌, map, ap, ◌∙◌, sym, All-keep, get_elem?,
}
use external_task_worker.Base.Int.{ltbℤ, succ64}
use external_task_worker.Base.Text.{==-append}
use external_task_worker.Model.{Value}
use external_task_worker.Messages.{CamundaExternalTask, Command, RequestInfo}
use external_task_worker.World.{World, since}
use external_task_worker.DeviceGroups.Db.{IsReliable}
use external_task_worker.DeviceGroups.Storage.{DeviceGroups, IsCodec, sub_task_state_key_prefix}
use external_task_worker.DeviceGroups.Reliable.{item}
use external_task_worker.DeviceGroups.Sequential.{is_idle, filter_currently_running, tried}
use external_task_worker.DeviceGroups.Commands.{
  Progress, requests_and_results, sequential, fewer_tries, schedule,
}
use external_task_worker.DeviceGroups.Serial.{
  IsSerial, HasTries, All-sort, candidates, candidates-IsDue,
}
use external_task_worker.DeviceGroups.Sending.{
  States, HoldsStates, state_of, with_state, in_order, left, next, after_try, first_of, List-cases,
  schedule_ends, schedule_sends,
}

-- the states after a try of r at a time: one more try, and the time
abbrev pub with_try : ℕ → RequestInfo → States → States
with_try now r st id =
    if r.metadata.task.id == id
    then some (record { last_try = now; try_count = succ64 (state_of st r).try_count })
    else st id

-- r stands for one of the requests, with the tries that are noted for its sub-task
abbrev pub IsOneOf : States → List RequestInfo → RequestInfo → Type 0
IsOneOf st requests r =
    (i : ℕ) × (q : RequestInfo) × (get_elem? requests i ≡ some q) × (r ≡ with_state st q)

IsOneOf-later :
    (st : States) (x : RequestInfo) (xs : List RequestInfo) (ys : List RequestInfo)
    → All (IsOneOf st xs) ys
    → All (IsOneOf st (x ∷ xs)) ys
IsOneOf-later st x xs [] h = tt
IsOneOf-later st x xs (y ∷ ys) ((i, q, at, same), more) =
    ((suc i, q, at, same), IsOneOf-later st x xs ys more)

map-IsOneOf :
    (st : States) (requests : List RequestInfo)
    → All (IsOneOf st requests) (map (with_state st) requests)
map-IsOneOf st [] = tt
map-IsOneOf st (x ∷ xs) =
    ((zero, x, refl, refl), IsOneOf-later st x xs (map (with_state st) xs) (map-IsOneOf st xs))

module _ {S B : Type 0} (this : DeviceGroups S B) (view : S → String → Option B)
    (reliable : IsReliable this.db view) (code : IsCodec this.sub_task_state_codec) where
  after_try-HoldsStates :
      (r : RequestInfo) (w : World S) (st : States)
      → r.sub_task_state ≡ state_of st r
      → HoldsStates this view reliable w.store st
      → HoldsStates this view reliable
          (after_try this view reliable code r w).store
          (with_try w.now r st)
  after_try-HoldsStates r w st same h = record {
    at_id = λ j.
        rw
          (
            reliable.set_view
                (item this view reliable (sub_task_state_key_prefix ++ r.metadata.task.id)
                  (code.encode (tried w.now r)))
                w.store (sub_task_state_key_prefix ++ j),
            ==-append sub_task_state_key_prefix r.metadata.task.id j,
          )
          (elim (Bool-cases (r.metadata.task.id == j)) [
            | inl e ↦ rw e (
                rw
                  (
                    same,
                    code.unmarshal_encode
                        (tried w.now (record r { sub_task_state = state_of st r })),
                  )
                  refl)
            | inr e ↦ rw e (h.at_id j)
          ]);
  }

  in_order_keeps :
      (P : RequestInfo → Type 0) (l : List RequestInfo)
      → All P l
      → All P (in_order this view reliable l)
  in_order_keeps P l h = elim (Bool-cases (this.scheduler == sequential)) [
    | inl e ↦ rw e h
    | inr e ↦ rw e (All-sort P fewer_tries l h)
  ]

  -- more than the timeout has passed since the last try
  abbrev pub IsIdle : World S → RequestInfo → Type 0
  IsIdle w r = ltbℤ this.currently_running_timeout (since w.now r.sub_task_state.last_try) ≡ true

  next-IsIdle :
      (command : Command) (requests : List RequestInfo) (w : World S) (st : States)
      → All (IsIdle w) (next this view reliable command st requests w)
  unfolding filter_currently_running
  next-IsIdle command requests w st =
      in_order_keeps (IsIdle w) (candidates this command w (map (with_state st) requests)) (
        All-keep (is_idle w.now this.currently_running_timeout)
          (left this view reliable command st requests))

  head_of :
      (P : RequestInfo → Type 0) (l : List RequestInfo) (r : RequestInfo) (rs : List RequestInfo)
      → l ≡ r ∷ rs
      → All P l
      → P r
  head_of P l r rs e h = let h' : All P (r ∷ rs) = rw e at h in h'.0

  -- What is so where the schedule has sent r.
  abbrev pub WasTried :
      Command → List RequestInfo → World S → States → RequestInfo → Progress × World S → Type 0
  WasTried command requests w st r done =
      IsOneOf st requests r
      × HasTries command.retries r
      × IsIdle w r
      × (done.0.completed ≡ false)
      × (done.0.error ≡ none)
      × HoldsStates this view reliable done.1.store (with_try w.now r st)

  -- On a reliable store, when a serial scheduler sends a message, it is the request of a missing
  -- sub-task with the tries that the store has of it; they are at most the command's retries, or the
  -- retries are -1; more than the timeout has passed since its last try; the task is not completed and
  -- no error is returned; and the store then has one more try of that sub-task, at the time of
  -- the call, and the same as before of every other.
  pub schedule_tries :
      (command : Command) (task : CamundaExternalTask) (requests : List RequestInfo)
      (results : List Value) (w : World S) (st : States) (r : RequestInfo)
      → IsSerial this.scheduler
      → HoldsStates this view reliable w.store st
      → (schedule this command task (requests_and_results requests results, w)).0.next_messages
        ≡ r ∷ []
      → WasTried command requests w st r
          (schedule this command task (requests_and_results requests results, w))
  schedule_tries command task requests results w st r serial h e =
      elim (List-cases (left this view reliable command st requests)) [
        | inl n ↦ cc (
          e,
          ap (λ (p : Progress × World S). p.0.next_messages)
              (schedule_ends this view reliable command task requests results w st serial h n),
        )
        | inr n ↦
            let sends =
              schedule_sends this view reliable code command task requests results w st serial h
                n in
            let (rs, f) =
              first_of (next this view reliable command st requests w) r
                (sym (ap (λ (p : Progress × World S). p.0.next_messages) sends) ∙ e) in
            let due = head_of _ _ r rs f (
              candidates-IsDue this (IsOneOf st requests) command w (map (with_state st) requests)
                (in_order this view reliable) in_order_keeps (map-IsOneOf st requests)) in
            let (i, q, at, same) = due.1 in
            let idle = head_of _ _ r rs f (next-IsIdle command requests w st) in
            rw (sends, f)
              (due.1, due.0, idle, refl, refl, after_try-HoldsStates r w st (rw same refl) h)
      ]
