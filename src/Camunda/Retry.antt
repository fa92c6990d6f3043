-- ===== src/Camunda/Retry.antt =====
-- lib/camunda/camunda.go (retry): a call that is repeated until it succeeds.
use Prim.Native.String.{◌++◌}
use external_task_worker.Base.{ℕ, zero, suc, String}
use external_task_worker.Base.Int.{ℤ, pos, negsuc}
use external_task_worker.Base.Text.{itoa}
use external_task_worker.Result.{failure, Result, ok, err, error_text, Exec}
use external_task_worker.World.{World, sleep}

-- `for i := 0; i < attempts; i++`, with the rounds left; the error of the last round
unfoldable pub retry_loop :
    {S A : Type 0} → ℕ → ℕ → Exec (World S) A → Result A → World S → Result A × World S
retry_loop zero pause f last w = (last, w)
retry_loop (suc rounds) pause f last w =
    let (r, w') = f w in
    elim r [ ok a ↦ (ok a, w') | err e ↦ retry_loop rounds pause f (err e) (sleep pause w') ]

abbrev pub rounds_of : ℤ → ℕ
rounds_of (pos zero) = 1
rounds_of (pos (suc n)) = suc n
rounds_of (negsuc n) = 0

abbrev attempts_text : ℤ → String
attempts_text (pos zero) = "1"
attempts_text (pos (suc n)) = itoa (suc n)
attempts_text (negsuc n) = "-" ++ itoa (suc n)

abbrev after_attempts : {A : Type 0} → ℤ → Result A → Result A
after_attempts attempts (ok a) = ok a
after_attempts attempts (err e) =
    err (
      failure ((("after " ++ attempts_text attempts) ++ " attempts, last error: ") ++ error_text e))

-- `retry`; `attempts == 0` is one attempt, and a negative number none
unfoldable pub retry : {S A : Type 0} → ℤ → ℕ → Exec (World S) A → World S → Result A × World S
unfolding retry_loop
retry attempts pause f w =
    let (r, w') = retry_loop (rounds_of attempts) pause f (err (failure "%!w(<nil>)")) w in
    (after_attempts attempts r, w')
