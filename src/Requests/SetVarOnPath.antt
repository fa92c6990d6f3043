-- ===== src/Requests/SetVarOnPath.antt =====
-- lib/worker.go (setVarOnPath): a value placed into the input of a command, converted to the type of
-- what it replaces. A float64 is its bit pattern; what Go computes with floats, and JSON, are
-- parameters.
use Prim.Native.Char.{code}
use Prim.Native.String.{String, ◌++◌}
use external_task_worker.Base.{
  ℕ, zero, suc, ◌+◌, ◌-◌, ◌*◌, Bool, true, false, ◌&&◌, ◌||◌, Option, none, some, List, [], ◌∷◌,
  ◌==◌, leb, eqb, if◌then◌else◌,
}
use external_task_worker.Base.Int.{ℤ, pos, negsuc, lebℤ, max_int64}
use external_task_worker.Base.Text.{itoa}
use external_task_worker.Result.{Err, failure, Result, ok, err}
use external_task_worker.Model.{Value, null, bool, int, float, str, arr, obj, Items, nil, item}
use external_task_worker.Event.Paths.{get_field, has_field, put_field}

-- `strconv.ParseFloat(s, 64)`, with its number beside an error, `strconv.FormatFloat(v, 'E', -1, 64)`,
-- `float64(v)` of an int and `int(v)` of a float64
pub record Floats : Type 0 where
  pub parse_float : String → ℕ × Option Err
  pub format_float : ℕ → String
  pub float_of_int : ℤ → ℕ
  pub int_of_float : ℕ → ℤ

-- the bit pattern of 1.0, and the one of the positive infinity
abbrev one_bits : ℕ
one_bits = 4_607_182_418_800_017_408

abbrev infinity_bits : ℕ
infinity_bits = 9_218_868_437_227_405_312

-- `v >= 1` of a float64: positive numbers are in the order of their bit patterns
abbrev at_least_one : ℕ → Bool
at_least_one bits = leb one_bits bits && leb bits infinity_bits

-- the number of a text of decimal digits, none where it holds anything else
unfoldable pub digits_value : ℕ → String → Option ℕ
digits_value n String.[] = some n
digits_value n (String.◌∷◌ c s) =
    if leb b'0' (code c) && leb (code c) b'9'
    then digits_value (n * 10 + (code c - b'0')) s
    else none

-- the digits of a numeral without its sign: at least one
abbrev unsigned : String → Option ℕ
unfolding digits_value
unsigned s = if s == "" then none else digits_value 0 s

abbrev syntax_error : ℤ × Option Err
syntax_error = (pos 0, some (failure "invalid syntax"))

abbrev range_error : ℤ → ℤ × Option Err
range_error bound = (bound, some (failure "value out of range"))

abbrev positive : Option ℕ → ℤ × Option Err
positive none = syntax_error
positive (some n) = if leb n max_int64 then (pos n, none) else range_error (pos max_int64)

abbrev negative : Option ℕ → ℤ × Option Err
negative none = syntax_error
negative (some zero) = (pos 0, none)
negative (some (suc n)) =
    if leb n max_int64 then (negsuc n, none) else range_error (negsuc max_int64)

-- `strconv.Atoi`, with its number beside an error
unfoldable pub atoi : String → ℤ × Option Err
unfolding digits_value
atoi String.[] = syntax_error
atoi (String.◌∷◌ c s) =
    if eqb (code c) b'-'
    then negative (unsigned s)
    else if eqb (code c) b'+'
    then positive (unsigned s)
    else positive (unsigned (String.◌∷◌ c s))

abbrev itoaℤ : ℤ → String
itoaℤ (pos n) = itoa n
itoaℤ (negsuc n) = "-" ++ itoa (suc n)

abbrev format_bool : Bool → String
format_bool true = "true"
format_bool false = "false"

-- `strconv.ParseBool`, with its truth value beside an error
abbrev parse_bool : String → Bool × Option Err
parse_bool s =
    if s == "1" || s == "t" || s == "T" || s == "TRUE" || s == "true" || s == "True"
    then (true, none)
    else if s == "0" || s == "f" || s == "F" || s == "FALSE" || s == "false" || s == "False"
    then (false, none)
    else (false, some (failure "invalid syntax"))

abbrev unknown_element_type : Option Err
unknown_element_type = some (failure "ERROR: getSubelement(), unknown element type")

-- an error that a panic became
abbrev recovered : Option Err
recovered = some (failure "ERROR: Recovered in setVarOnPath")

-- `v, err := parse(s)`, as a value
abbrev wrap : {A : Type 0} → (A → Value) → A × Option Err → Value × Option Err
wrap f (a, e) = (f a, e)

module _ (floats : Floats) (unmarshal_value : String → Result Value) where
  -- a string on a map or a slice: not JSON, or `eVal.Set` on a value that cannot be set
  abbrev pub unmarshalled : String → Value × Option Err
  unmarshalled s = elim (unmarshal_value s) [ ok v ↦ (null, recovered) | err e ↦ (str s, some e) ]

  -- the part of setVarOnPath for the empty path, by the type of `value` and then by the one of
  -- `element`: its result and its error
  abbrev from_string : String → Value → Value × Option Err
  from_string v (str e) = (str v, none)
  from_string v (int e) = wrap int (atoi v)
  from_string v (bool e) = wrap bool (parse_bool v)
  from_string v (float e) = wrap float (floats.parse_float v)
  from_string v (obj e) = unmarshalled v
  from_string v (arr e) = unmarshalled v
  from_string v null = (str v, unknown_element_type)

  abbrev from_int : ℤ → Value → Value × Option Err
  from_int v (str e) = (str (itoaℤ v), none)
  from_int v (int e) = (int v, none)
  from_int v (bool e) = (bool (lebℤ (pos 1) v), none)
  from_int v (float e) = (float (floats.float_of_int v), none)
  from_int v _ = (int v, unknown_element_type)

  abbrev from_bool : Bool → Value → Value × Option Err
  from_bool v (str e) = (str (format_bool v), none)
  from_bool v (int e) = (int (if v then pos 1 else pos 0), none)
  from_bool v (bool e) = (bool v, none)
  from_bool v (float e) = (float (if v then one_bits else 0), none)
  from_bool v _ = (bool v, unknown_element_type)

  abbrev from_float : ℕ → Value → Value × Option Err
  from_float v (str e) = (str (floats.format_float v), none)
  from_float v (int e) = (int (floats.int_of_float v), none)
  from_float v (bool e) = (bool (at_least_one v), none)
  from_float v (float e) = (float v, none)
  from_float v _ = (float v, unknown_element_type)

  unfoldable pub converted : Value → Value → Value × Option Err
  unfolding atoi
  converted (str v) element = from_string v element
  converted (int v) element = from_int v element
  converted (bool v) element = from_bool v element
  converted (float v) element = from_float v element
  converted value element = (value, some (failure "ERROR: getSubelement(), unknown value type"))

-- `Index(i)`, which panics where i is out of range
unfoldable pub get_item : ℕ → Items → Result Value
get_item i nil = err (failure "ERROR: Recovered in setVarOnPath")
get_item zero (item v vs) = ok v
get_item (suc i) (item v vs) = get_item i vs

unfoldable pub set_item : ℕ → Value → Items → Items
set_item i w nil = nil
set_item zero w (item v vs) = item w vs
set_item (suc i) w (item v vs) = item v (set_item i w vs)

abbrev pub at_index : {A : Type 0} → ℤ × Option Err → (ℕ → A) → (Err → A) → A
at_index (pos i, none) f g = f i
at_index (negsuc i, none) f g = g (failure "ERROR: Recovered in setVarOnPath")
at_index (i, some e) f g = g e

-- the value under a key of a map or an index of a slice; other elements have none
unfoldable pub sub : Value → String → Result Value
unfolding get_field has_field get_item
sub (obj fields) key =
    if has_field key fields
    then ok (get_field key fields)
    else err (failure "ERROR: Recovered in setVarOnPath")
sub (arr items) key = at_index (atoi key) (λ i. get_item i items) err
sub null key = err (failure "ERROR: Recovered in setVarOnPath")
sub element key = err (failure "ERROR: getSubelement(), unknown result type")

-- `SetMapIndex` and `Index(i).Set`: the map or the slice, changed in place
unfoldable pub put_sub : Value → String → Value → Value
unfolding put_field set_item
put_sub (obj fields) key v = obj (put_field key v fields)
put_sub (arr items) key v = at_index (atoi key) (λ i. arr (set_item i v items)) (λ e. arr items)
put_sub element key v = element

module _ (floats : Floats) (unmarshal_value : String → Result Value) where
  -- an error of the value below leaves the element as it is
  abbrev pub put_back : Value → String → Value × Option Err → Value × Option Err
  put_back element key (v, none) = (put_sub element key v, none)
  put_back element key (v, some e) = (element, some e)

  -- The result and the error. Under a path that is not empty the result is the element itself, changed in
  -- place.
  unfoldable pub set_var_on_path : Value → List String → Value → Value × Option Err
  unfolding converted sub put_sub
  set_var_on_path element [] value = converted floats unmarshal_value value element
  set_var_on_path element (key ∷ path) value = elim (sub element key) [
    | ok below ↦ put_back element key (set_var_on_path below path value)
    | err e ↦ (element, some e)
  ]
