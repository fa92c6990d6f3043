-- ===== src/Base/Int.antt =====
-- Go's int64 and int: integers with a wrap-around at 2^63.
use Prim.Native.Nat.{ℕ, zero, suc, ◌+◌, ◌-◌, ◌^◌, ◌≤◌}
use mathlib.Core.Path.{◌≡◌}
use mathlib.Core.Bool.{Bool, true}
use native.Mathlib.Omega.{arith}
use external_task_worker.Base.Tests.{ltb, leb, eqb, if◌then◌else◌}

-- `negsuc n` is -(n + 1).
pub data ℤ : Type 0 where
  pos : ℕ → ℤ
  negsuc : ℕ → ℤ

abbrev pub pos_part : ℤ → ℕ
pos_part (pos n) = n
pos_part (negsuc n) = 0

abbrev pub neg_part : ℤ → ℕ
neg_part (pos n) = 0
neg_part (negsuc n) = suc n

abbrev pub lebℤ : ℤ → ℤ → Bool
lebℤ a b = leb (pos_part a + neg_part b) (pos_part b + neg_part a)

abbrev pub ltbℤ : ℤ → ℤ → Bool
ltbℤ a b = ltb (pos_part a + neg_part b) (pos_part b + neg_part a)

abbrev pub eqbℤ : ℤ → ℤ → Bool
eqbℤ a b = eqb (pos_part a + neg_part b) (pos_part b + neg_part a)

infix 50 ◌≤ℤ◌
abbrev pub ◌≤ℤ◌ : ℤ → ℤ → Type 0
a ≤ℤ b = pos_part a + neg_part b ≤ pos_part b + neg_part a

abbrev pub minus_one : ℤ
minus_one = negsuc 0

abbrev pub max_int64 : ℕ
max_int64 = 2 ^ 63 - 1

-- `x + 1` on an int64
abbrev pub succ64 : ℤ → ℤ
succ64 (pos n) = if eqb n max_int64 then negsuc max_int64 else pos (n + 1)
succ64 (negsuc zero) = pos 0
succ64 (negsuc (suc n)) = negsuc n

pub lebℤ→≤ℤ : (a b : ℤ) → lebℤ a b ≡ true → a ≤ℤ b
lebℤ→≤ℤ a b h = ground arith
