-- ===== src/Result.antt =====
-- Go's errors as values, for code that returns `(x, err)`, and code with a state and an error.
-- Where a Go function returns values beside a non-nil error, and its callers drop them, they are
-- dropped here.
use external_task_worker.Base.{String, Bool, true, false, ◌≡◌, refl, ◌⊎◌, inl, inr}

-- `ErrNotFount` is `memcache.ErrCacheMiss`, and `ErrorNotFound` the error of lib/camunda/shards; any
-- other error is its text.
pub data Err : Type 0 where
  err_not_fount error_not_found : Err
  failure : String → Err

pub data Result {ℓ} (A : Type ℓ) : Type ℓ where
  ok : A → Result A
  err : Err → Result A

pub Result-cases {ℓ} :
    {A : Type ℓ} (r : Result A) → ((a : A) × (r ≡ ok a)) ⊎ ((e : Err) × (r ≡ err e))
Result-cases (ok a) = inl (a, refl)
Result-cases (err e) = inr (e, refl)

-- `err == ErrNotFount`, and `errors.Is(err, ErrNotFount)`: no error of the program wraps it
abbrev pub is_not_fount : Err → Bool
is_not_fount err_not_fount = true
is_not_fount error_not_found = false
is_not_fount (failure _) = false

-- `err.Error()`
abbrev pub error_text : Err → String
error_text err_not_fount = "memcache: cache miss"
error_text error_not_found = "no shard assigned to user"
error_text (failure text) = text

abbrev pub and_then {ℓ κ} : {A : Type ℓ} {B : Type κ} → (A → Result B) → Result A → Result B
and_then f (ok a) = f a
and_then f (err e) = err e

-- A method on shared state: what it did before an error stays done.
abbrev pub Exec {ℓ} : Type ℓ → Type ℓ → Type ℓ
Exec S A = S → Result A × S

module _ {ℓ} {S A : Type ℓ} where
  abbrev pub pure : A → Exec S A
  pure a s = (ok a, s)

  abbrev pub raise : Err → Exec S A
  raise e s = (err e, s)

  -- a call of something that has no part in the state
  abbrev pub lift : Result A → Exec S A
  lift r s = (r, s)

  abbrev pub gets : (S → A) → Exec S A
  gets f s = (ok (f s), s)

module _ {ℓ} {S A B : Type ℓ} where
  abbrev pub continue : (A → Exec S B) → Result A × S → Result B × S
  continue f (ok a, s) = f a s
  continue f (err e, s) = (err e, s)

  infixl 10 ◌>>=◌ ◌>>◌
  abbrev pub ◌>>=◌ : Exec S A → (A → Exec S B) → Exec S B
  ◌>>=◌ m f s = continue f (m s)

  abbrev pub ◌>>◌ : Exec S A → Exec S B → Exec S B
  ◌>>◌ m n s = continue (λ _. n) (m s)
