-- ===== src/Base/Text/Numerals.antt =====
-- Decimal numerals: a numeral tells its number, and has digits only.
use Prim.Native.Nat.{ℕ, zero, suc, ◌+◌, ◌-◌, ◌*◌, ◌/◌, ◌%◌, ◌<◌}
use Prim.Native.Char.{Char, code}
use Prim.Native.String.{String, ◌++◌}
use text.Mathlib.TextLemmas.{cons-append, append_cancel_left, nil-append}
use mathlib.Core.Path.{◌≡◌, refl, ap, sym, ◌∙◌}
use mathlib.Core.Bool.{Bool, true, false, ◌&&◌}
use mathlib.Core.Logic.{inl, inr}
use native.Mathlib.Omega.{arith}
use external_task_worker.Base.Tests.{eqb, ltb, if◌then◌else◌, Bool-cases}
use external_task_worker.Base.Text.{before, digit, digits_of, itoa}

-- the number that a text of digits reads as
read_from : ℕ → String → ℕ
read_from acc String.[] = acc
read_from acc (String.◌∷◌ c s) = read_from (acc * 10 + (code c - b'0')) s

read_from-append : (acc : ℕ) (s t : String) → read_from acc (s ++ t) ≡ read_from (read_from acc s) t
unfolding read_from
read_from-append acc String.[] t = rw (nil-append t)
read_from-append acc (String.◌∷◌ c s) t =
    rw (cons-append c s t) (read_from-append (acc * 10 + (code c - b'0')) s t)

read_from-digit : (acc d : ℕ) → d < 10 → read_from acc (digit d) ≡ acc * 10 + d
unfolding read_from
read_from-digit acc zero h = refl
read_from-digit acc (suc zero) h = refl
read_from-digit acc (suc (suc zero)) h = refl
read_from-digit acc (suc (suc (suc zero))) h = refl
read_from-digit acc (suc (suc (suc (suc zero)))) h = refl
read_from-digit acc (suc (suc (suc (suc (suc zero))))) h = refl
read_from-digit acc (suc (suc (suc (suc (suc (suc zero)))))) h = refl
read_from-digit acc (suc (suc (suc (suc (suc (suc (suc zero))))))) h = refl
read_from-digit acc (suc (suc (suc (suc (suc (suc (suc (suc zero)))))))) h = refl
read_from-digit acc (suc (suc (suc (suc (suc (suc (suc (suc (suc zero))))))))) h = refl
read_from-digit acc (suc (suc (suc (suc (suc (suc (suc (suc (suc (suc n)))))))))) h =
    absurd (omega arith)

read_digits : (f n : ℕ) → n < f → read_from 0 (digits_of f n) ≡ n
unfolding digits_of
read_digits zero n h = absurd (omega arith)
read_digits (suc f) n h = elim (Bool-cases (ltb n 10)) [
  | inl e ↦ rw e (read_from-digit 0 n (ground arith) ∙ omega arith)
  | inr e ↦
      let ih = read_digits f (n / 10) (ground arith) in
      rw e (
        read_from-append 0 (digits_of f (n / 10)) (digit (n % 10))
        ∙ rw ih (read_from-digit (n / 10) (n % 10) (omega arith) ∙ omega arith))
]

-- Different numbers have different numerals.
pub itoa_injective : (m n : ℕ) → itoa m ≡ itoa n → m ≡ n
unfolding itoa
itoa_injective m n h =
    sym (read_digits (suc m) m (omega arith))
    ∙ ap (read_from 0) h
    ∙ read_digits (suc n) n (omega arith)

-- no character of a text is the separator
lacks : ℕ → String → Bool
lacks sep String.[] = true
lacks sep (String.◌∷◌ c s) = (if eqb (code c) sep then false else true) && lacks sep s

lacks-append : (sep : ℕ) (s t : String) → lacks sep (s ++ t) ≡ (lacks sep s && lacks sep t)
unfolding lacks
lacks-append sep String.[] t = rw (nil-append t)
lacks-append sep (String.◌∷◌ c s) t = rw (cons-append c s t) (ground (arith, lacks-append sep s t))

eqb_self : (n : ℕ) → eqb n n ≡ true
eqb_self n = ground arith

before-append :
    (sep : ℕ) (s : String) (c : Char) (t : String)
    → lacks sep s ≡ true
    → code c ≡ sep
    → before sep (s ++ String.◌∷◌ c t) ≡ s
unfolding lacks before
before-append sep String.[] c t h e =
    let same : eqb (code c) sep ≡ true = rw e (eqb_self sep) in
    rw (nil-append (String.◌∷◌ c t)) (rw same)
before-append sep (String.◌∷◌ d s) c t h e = elim (Bool-cases (eqb (code d) sep)) [
  | inl same ↦ cc (rw same at h)
  | inr other ↦
      rw (cons-append d s (String.◌∷◌ c t), other)
        (ap (String.◌∷◌ d) (before-append sep s c t (rw other at h) e))
]

digit-lacks : (d : ℕ) → lacks b'_' (digit d) ≡ true
unfolding lacks
digit-lacks zero = refl
digit-lacks (suc zero) = refl
digit-lacks (suc (suc zero)) = refl
digit-lacks (suc (suc (suc zero))) = refl
digit-lacks (suc (suc (suc (suc zero)))) = refl
digit-lacks (suc (suc (suc (suc (suc zero))))) = refl
digit-lacks (suc (suc (suc (suc (suc (suc zero)))))) = refl
digit-lacks (suc (suc (suc (suc (suc (suc (suc zero))))))) = refl
digit-lacks (suc (suc (suc (suc (suc (suc (suc (suc zero)))))))) = refl
digit-lacks (suc (suc (suc (suc (suc (suc (suc (suc (suc n))))))))) = refl

digits_of-lacks : (f n : ℕ) → lacks b'_' (digits_of f n) ≡ true
unfolding digits_of
digits_of-lacks zero n = unfold lacks in refl
digits_of-lacks (suc f) n = elim (Bool-cases (ltb n 10)) [
  | inl e ↦ rw e (digit-lacks n)
  | inr e ↦ rw e (
      lacks-append b'_' (digits_of f (n / 10)) (digit (n % 10))
      ∙ rw (digits_of-lacks f (n / 10), digit-lacks (n % 10)))
]

-- A numeral is what stands before the first underscore after it.
pub before-itoa : (n : ℕ) (t : String) → before b'_' (itoa n ++ ("_" ++ t)) ≡ itoa n
unfolding itoa
before-itoa n t =
    rw (cons-append "_" String.[] t, nil-append t)
      (before-append b'_' (digits_of (suc n) n) "_" t (digits_of-lacks (suc n) n) refl)

-- Two numerals joined by an underscore tell both numbers.
pub itoa-pair_injective :
    (i j k l : ℕ) → itoa i ++ ("_" ++ itoa j) ≡ itoa k ++ ("_" ++ itoa l) → (i ≡ k) × (j ≡ l)
itoa-pair_injective i j k l h =
    let first : itoa i ≡ itoa k =
      sym (before-itoa i (itoa j)) ∙ ap (before b'_') h ∙ before-itoa k (itoa l) in
    let rest : itoa k ++ ("_" ++ itoa j) ≡ itoa k ++ ("_" ++ itoa l) = rw first at h in
    (
      itoa_injective i k first,
      itoa_injective j l (
          append_cancel_left "_" (itoa j) (itoa l)
            (append_cancel_left (itoa k) ("_" ++ itoa j) ("_" ++ itoa l) rest)),
    )
