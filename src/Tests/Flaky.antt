-- ===== src/Tests/Flaky.antt =====
-- A database that fails a number of times, and then answers.
use external_task_worker.Base.{ℕ, zero, suc, ◌+◌, ◌*◌, ◌≡◌, refl, true, false, [], arith}
use external_task_worker.Base.Int.{pos}
use external_task_worker.Result.{Result, ok, err, failure}
use external_task_worker.Messages.{SubTaskState}
use external_task_worker.World.{World, millisecond}
use external_task_worker.DeviceGroups.Db.{Db}
use external_task_worker.DeviceGroups.Storage.{DeviceGroups, is_settled, is_ok, db_get, store_value}
use external_task_worker.DeviceGroups.Attempts.{
  before_round, IsUnsettled, read, write, db_get_finds, store_value_succeeds,
}
use external_task_worker.Tests.Fixtures.{Doc, state_doc, state_codec, groups}

-- The store is the number of failures to come.
abbrev try_once : {A : Type 0} → A → ℕ → Result A × ℕ
try_once a zero = (ok a, 0)
try_once a (suc n) = (err (failure "timeout"), n)

abbrev state : SubTaskState
state = record { last_try = 0; try_count = pos 1 }

abbrev flaky : Db ℕ Doc
flaky = record {
  get = λ key. try_once (record { key = key; value = state_doc state; expiration = pos 0 });
  set = λ i. try_once tt;
  delete = λ key n. (ok tt, n);
}

abbrev handler : DeviceGroups ℕ Doc
handler = record {
  protocol_message_callback = (groups "parallel").protocol_message_callback;
  repo = (groups "parallel").repo;
  db = flaky;
  expiration_in_seconds = pos 3600;
  scheduler = "parallel";
  currently_running_timeout = pos 0;
  filter_events = false;
  marshaller_model = (groups "parallel").marshaller_model;
  metadata_codec = (groups "parallel").metadata_codec;
  sub_result_codec = (groups "parallel").sub_result_codec;
  sub_task_state_codec = state_codec;
  last_call_codec = (groups "parallel").last_call_codec;
}

abbrev with_failures : ℕ → ℕ → World ℕ
with_failures n now = record {
  store = n;
  now = now;
  effects = [];
  last_producer_call_success = true;
  last_successful_camunda_call = 0;
}

reads_fail : (n now : ℕ) → IsUnsettled is_settled (read handler "k") n (with_failures n now)
unfolding before_round
reads_fail zero now j l = absurd (omega (arith, l))
reads_fail (suc n) now zero l = refl
reads_fail (suc n) now (suc j) l = reads_fail n (now + 200 * millisecond) j (omega (arith, l))

writes_fail :
    (n now : ℕ) → IsUnsettled is_ok (write handler "k" (state_doc state)) n (with_failures n now)
unfolding before_round
writes_fail zero now j l = absurd (omega (arith, l))
writes_fail (suc n) now zero l = refl
writes_fail (suc n) now (suc j) l = writes_fail n (now + 200 * millisecond) j (omega (arith, l))

db_get_finds_example :
    db_get handler state_codec "k" (with_failures 3 0) ≡ (ok state, with_failures 0 600_000_000)
unfolding before_round
db_get_finds_example =
    db_get_finds handler state_codec "k" (with_failures 3 0) 3 (omega arith) (reads_fail 3 0) refl

store_value_succeeds_example :
    store_value handler "k" (ok (state_doc state)) (with_failures 3 0)
    ≡ (ok tt, with_failures 0 600_000_000)
unfolding before_round
store_value_succeeds_example =
    store_value_succeeds handler "k" (state_doc state) (with_failures 3 0) 3 (omega arith)
      (writes_fail 3 0) refl
