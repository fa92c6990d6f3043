-- ===== src/Base/Text.antt =====
-- Go's strings: a split at the first separator, concatenation of keys, and decimal numerals.
pub mod Numerals
use Prim.Native.Nat.{ℕ, zero, suc, ◌/◌, ◌%◌, Ordering}
use Prim.Native.Char.{Char, code}
use Prim.Native.String.{String, ◌++◌, compare}
use text.Mathlib.Text.{starts_with}
use text.Mathlib.Text.{◌==◌}
use text.Mathlib.TextEquality.{eq_iff}
use text.Mathlib.TextPositions.{eq_refl}
use text.Mathlib.TextLemmas.{cons-append, append_cancel_left}
use mathlib.Core.Path.{◌≡◌, refl, ap, sym, ◌∙◌}
use mathlib.Core.Bool.{Bool, true, false, false≢true}
use mathlib.Core.List.{List, [], ◌∷◌}
use mathlib.Core.Logic.{inl, inr, ◌≢◌}
use external_task_worker.Base.Tests.{eqb, ltb, if◌then◌else◌, Bool-cases}

abbrev cut : Bool → Char → String → String
cut true c rest = String.[]
cut false c rest = String.◌∷◌ c rest

-- `strings.SplitN(s, sep, 2)[0]`, for a separator of one character
unfoldable pub before : ℕ → String → String
before sep String.[] = String.[]
before sep (String.◌∷◌ c s) = cut (eqb (code c) sep) c (before sep s)

-- Cutting twice is cutting once.
pub before-before : (sep : ℕ) (s : String) → before sep (before sep s) ≡ before sep s
unfolding before
before-before sep String.[] = refl
before-before sep (String.◌∷◌ c s) = elim (Bool-cases (eqb (code c) sep)) [
  | inl e ↦ rw e
  | inr e ↦ rw (e, before) (rw (e, before-before sep s))
]

-- `strings.HasPrefix`
abbrev pub has_prefix : String → String → Bool
has_prefix = starts_with

abbrev digit : ℕ → String
digit zero = "0"
digit (suc zero) = "1"
digit (suc (suc zero)) = "2"
digit (suc (suc (suc zero))) = "3"
digit (suc (suc (suc (suc zero)))) = "4"
digit (suc (suc (suc (suc (suc zero))))) = "5"
digit (suc (suc (suc (suc (suc (suc zero)))))) = "6"
digit (suc (suc (suc (suc (suc (suc (suc zero))))))) = "7"
digit (suc (suc (suc (suc (suc (suc (suc (suc zero)))))))) = "8"
digit (suc (suc (suc (suc (suc (suc (suc (suc (suc n))))))))) = "9"

-- The digits of n, most significant first; the fuel bounds their number.
unfoldable pub digits_of : ℕ → ℕ → String
digits_of zero n = ""
digits_of (suc f) n =
    let front = digits_of f (n / 10) in if ltb n 10 then digit n else front ++ digit (n % 10)

-- `strconv.Itoa` of a number that is not negative
unfoldable pub itoa : ℕ → String
unfolding digits_of
itoa n = digits_of (suc n) n

abbrev first_code : String → ℕ
first_code String.[] = 0
first_code (String.◌∷◌ c s) = code c

pub first_code-append : (c : Char) (s t : String) → first_code (String.◌∷◌ c s ++ t) ≡ code c
first_code-append c s t = rw (cons-append c s t)

-- Texts that begin differently differ.
pub differ : (s t : String) → first_code s ≢ first_code t → (s == t) ≡ false
differ s t h = elim (Bool-cases (s == t)) [
  | inl e ↦ absurd (h (ap first_code ((eq_iff s t).0 e)))
  | inr e ↦ e
]

pub not_equal : (s t : String) → s ≢ t → (s == t) ≡ false
not_equal s t h = elim (Bool-cases (s == t)) [ inl e ↦ absurd (h ((eq_iff s t).0 e)) | inr e ↦ e ]

-- Keys with one prefix are compared by what follows it.
pub ==-append : (p s t : String) → ((p ++ s) == (p ++ t)) ≡ (s == t)
==-append p s t = elim (Bool-cases (s == t)) [
  | inl e ↦ rw (e, (eq_iff s t).0 e) (eq_refl (p ++ t))
  | inr e ↦ rw e (
      not_equal (p ++ s) (p ++ t)
        λ q. false≢true (sym e ∙ (eq_iff s t).1 (append_cancel_left p s t q)))
]

-- `strings.Split(s, sep)`, for a separator of one character
abbrev push_char : Char → List String → List String
push_char c [] = String.◌∷◌ c String.[] ∷ []
push_char c (w ∷ ws) = String.◌∷◌ c w ∷ ws

unfoldable pub split_on : ℕ → String → List String
split_on sep String.[] = "" ∷ []
split_on sep (String.◌∷◌ c s) =
    if eqb (code c) sep then "" ∷ split_on sep s else push_char c (split_on sep s)

-- `strings.Join(parts, sep)`
unfoldable pub join : String → List String → String
join sep [] = ""
join sep (w ∷ []) = w
join sep (w ∷ v ∷ ws) = (w ++ sep) ++ join sep (v ∷ ws)

-- `<` of Go's strings
abbrev pub text_less : String → String → Bool
text_less s t = elim (compare s t) [ Ordering.lt ↦ true | _ ↦ false ]
