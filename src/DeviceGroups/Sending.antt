-- ===== src/DeviceGroups/Sending.antt =====
-- What the serial schedulers send on a reliable store, and what they note about it.
use Prim.Native.String.{◌++◌}
use external_task_worker.Base.{
  String, ◌≡◌, refl, Bool, true, false, Option, none, some, List, [], ◌∷◌, arith, inl, inr,
  if◌then◌else◌, Bool-cases, Option-cases, All, ◌==◌, map, ap, ◌∙◌, ◌≢◌, take, ◌||◌, false≢true,
  ◌⊎◌, eq_iff, sym,
}
use external_task_worker.Base.Sort.{sort_slice}
use external_task_worker.Result.{and_then}
use external_task_worker.Model.{Value}
use external_task_worker.Messages.{CamundaExternalTask, Command, RequestInfo, SubTaskState}
use external_task_worker.World.{World}
use external_task_worker.DeviceGroups.Db.{IsReliable, found}
use external_task_worker.DeviceGroups.Storage.{
  DeviceGroups, IsCodec, sub_task_state_key_prefix, get_sub_task_state,
}
use external_task_worker.DeviceGroups.Reliable.{db_get_lem, db_set_lem, stored}
use external_task_worker.DeviceGroups.Results.{is_empty, clear_task_data}
use external_task_worker.DeviceGroups.Collect.{answer}
use external_task_worker.DeviceGroups.Sequential.{
  zero_state, tried, annotate_sub_task_states, filter_retries, update_sub_task_state,
}
use external_task_worker.DeviceGroups.Commands.{
  Progress, requests_and_results, sequential, round_robin, fewer_tries, send_first, one_at_a_time,
  schedule, at_end, no_results,
}
use external_task_worker.DeviceGroups.Completion.{not_empty_of}
use external_task_worker.DeviceGroups.Serial.{candidates, IsSerial}
use external_task_worker.DeviceGroups.RoundRobin.{sort_first, NoMoreTries}

-- The states of the sub-tasks as the specification sees them.
abbrev pub States : Type 0
States = String → Option SubTaskState

abbrev or_zero : Option SubTaskState → SubTaskState
or_zero none = zero_state
or_zero (some s) = s

abbrev pub state_of : States → RequestInfo → SubTaskState
state_of st e = or_zero (st e.metadata.task.id)

abbrev pub with_state : States → RequestInfo → RequestInfo
with_state st e = record e { sub_task_state = state_of st e }

or_true : (b : Bool) → (b || true) ≡ true
or_true true = refl
or_true false = refl

not_sequential : (s : String) → (s == round_robin) ≡ true → (s == sequential) ≡ false
not_sequential s h = rw ((eq_iff s round_robin).0 h)

pub first_of :
    (l : List RequestInfo) (r : RequestInfo)
    → take 1 l ≡ r ∷ []
    → (rs : List RequestInfo) × (l ≡ r ∷ rs)
first_of [] r h = cc
first_of (x ∷ xs) r h = (xs, ground arith)

pub List-cases : (l : List RequestInfo) → (l ≡ []) ⊎ (l ≢ [])
List-cases [] = inl refl
List-cases (x ∷ xs) = inr (λ e. cc)

module _ {S B : Type 0} (this : DeviceGroups S B) (view : S → String → Option B)
    (reliable : IsReliable this.db view) where
  -- the store holds these states, and nothing that is no state, under the state keys
  pub record HoldsStates (s : S) (st : States) : Type 0 where
    pub at_id :
        (id : String)
        → and_then this.sub_task_state_codec.unmarshal
            (found (view s (sub_task_state_key_prefix ++ id)))
          ≡ answer (st id)

  get_sub_task_state_lem :
      (w : World S) (st : States)
      → HoldsStates w.store st
      → (id : String) → get_sub_task_state this id w ≡ (answer (st id), w)
  get_sub_task_state_lem w st h id =
      db_get_lem this view reliable this.sub_task_state_codec (sub_task_state_key_prefix ++ id) w
      ∙ ap (λ r. (r, w)) (h.at_id id)

  pub annotate_lem :
      (w : World S) (st : States)
      → HoldsStates w.store st
      → (requests : List RequestInfo)
      → annotate_sub_task_states this requests w ≡ ((map (with_state st) requests, none), w)
  unfolding annotate_sub_task_states
  annotate_lem w st h [] = refl
  annotate_lem w st h (e ∷ es) = elim (Option-cases (st e.metadata.task.id)) [
    | inl n ↦ rw (get_sub_task_state_lem w st h e.metadata.task.id, n) (rw (annotate_lem w st h es))
    | inr (s, n) ↦
        rw (get_sub_task_state_lem w st h e.metadata.task.id, n) (rw (annotate_lem w st h es))
  ]

  -- the order in which the scheduler tries the candidates
  abbrev pub in_order : List RequestInfo → List RequestInfo
  in_order l = if this.scheduler == sequential then l else sort_slice fewer_tries l

  robin-IsSerial : (this.scheduler == round_robin) ≡ true → IsSerial this.scheduler
  robin-IsSerial h = rw h (or_true (this.scheduler == sequential))

  at_end_lem :
      (task : CamundaExternalTask) (results : List Value) (w : World S)
      → at_end this task results w ≡ (
        record {
          completed = true;
          next_messages = [];
          finished_results = results;
          error = if is_empty results then some no_results else none;
        },
        clear_task_data this task.id w,
      )
  at_end_lem task [] w = refl
  at_end_lem task (r ∷ rs) w = refl

  serial_step :
      (command : Command) (task : CamundaExternalTask) (requests : List RequestInfo)
      (results : List Value) (w : World S) (st : States)
      → IsSerial this.scheduler
      → HoldsStates w.store st
      → schedule this command task (requests_and_results requests results, w)
        ≡ one_at_a_time this in_order command task results ((map (with_state st) requests, none), w)
  unfolding schedule
  serial_step command task requests results w st serial h =
      rw (annotate_lem w st h requests) (elim (Bool-cases (this.scheduler == sequential)) [
        | inl e ↦ rw e
        | inr e ↦ elim (Bool-cases (this.scheduler == round_robin)) [
          | inl f ↦ rw (e, f)
          | inr f ↦ absurd (false≢true (rw (e, f) at serial))
        ]
      ])

  -- the sub-tasks with tries left, and those of them that do not run
  abbrev pub left : Command → States → List RequestInfo → List RequestInfo
  left command st requests = filter_retries command.retries (map (with_state st) requests)

  abbrev pub next : Command → States → List RequestInfo → World S → List RequestInfo
  next command st requests w = in_order (candidates this command w (map (with_state st) requests))

  -- no missing sub-task has tries left
  pub schedule_ends :
      (command : Command) (task : CamundaExternalTask) (requests : List RequestInfo)
      (results : List Value) (w : World S) (st : States)
      → IsSerial this.scheduler
      → HoldsStates w.store st
      → left command st requests ≡ []
      → schedule this command task (requests_and_results requests results, w) ≡ (
        record {
          completed = true;
          next_messages = [];
          finished_results = results;
          error = if is_empty results then some no_results else none;
        },
        clear_task_data this task.id w,
      )
  schedule_ends command task requests results w st serial h e =
      rw (serial_step command task requests results w st serial h, e, at_end_lem task results w)

  module _ (code : IsCodec this.sub_task_state_codec) where
    -- the world after a try of r was noted
    abbrev pub after_try : RequestInfo → World S → World S
    after_try r w =
        stored this view reliable (sub_task_state_key_prefix ++ r.metadata.task.id)
          (code.encode (tried w.now r)) w

    send_first_lem :
        (requests : List RequestInfo) (results : List Value) (w : World S)
        → send_first this requests results w ≡ (
          record {
            completed = false;
            next_messages = take 1 requests;
            finished_results = results;
            error = none;
          },
          elim requests [ [] ↦ w | r ∷ rs ↦ after_try r w ],
        )
    unfolding update_sub_task_state
    send_first_lem [] results w = refl
    send_first_lem (r ∷ rs) results w = rw (
        db_set_lem this view reliable this.sub_task_state_codec code
          (sub_task_state_key_prefix ++ r.metadata.task.id) (tried w.now r) w)

    -- some missing sub-task has tries left
    pub schedule_sends :
        (command : Command) (task : CamundaExternalTask) (requests : List RequestInfo)
        (results : List Value) (w : World S) (st : States)
        → IsSerial this.scheduler
        → HoldsStates w.store st
        → left command st requests ≢ []
        → schedule this command task (requests_and_results requests results, w) ≡ (
          record {
            completed = false;
            next_messages = take 1 (next command st requests w);
            finished_results = results;
            error = none;
          },
          elim (next command st requests w) [ [] ↦ w | r ∷ rs ↦ after_try r w ],
        )
    schedule_sends command task requests results w st serial h n =
        rw
          (
            serial_step command task requests results w st serial h,
            not_empty_of (left command st requests) n,
          )
          (send_first_lem (next command st requests w) results w)

    -- Under `round_robin`, on a reliable store, when the schedule sends a message for a sub-task, no
    -- sub-task that could be sent now has fewer tries.
    pub round_robin_fair :
        (command : Command) (task : CamundaExternalTask) (requests : List RequestInfo)
        (results : List Value) (w : World S) (st : States) (r : RequestInfo)
        → (this.scheduler == round_robin) ≡ true
        → HoldsStates w.store st
        → (schedule this command task (requests_and_results requests results, w)).0.next_messages
          ≡ r ∷ []
        → All (NoMoreTries r) (candidates this command w (map (with_state st) requests))
    round_robin_fair command task requests results w st r robin h e =
        elim (List-cases (left command st requests)) [
          | inl n ↦ cc (
            e,
            ap (λ (p : Progress × World S). p.0.next_messages)
                (schedule_ends command task requests results w st (robin-IsSerial robin) h n),
          )
          | inr n ↦
              let sent =
                ap (λ (p : Progress × World S). p.0.next_messages)
                  (schedule_sends command task requests results w st (robin-IsSerial robin) h n) in
              let (rs, f) = first_of (next command st requests w) r (sym sent ∙ e) in
              sort_first (candidates this command w (map (with_state st) requests)) r rs
                (rw (not_sequential this.scheduler robin) at f)
        ]
