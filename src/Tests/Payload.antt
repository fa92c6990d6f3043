-- ===== src/Tests/Payload.antt =====
-- The input of a command that switches a lamp, with two parameters of its task.
use external_task_worker.Base.{
  String, ◌≡◌, ◌≢◌, refl, false, none, some, List, [], ◌∷◌, ◌==◌, false≢true, sym, ◌∙◌, eq_iff,
}
use external_task_worker.Base.Int.{pos, negsuc}
use external_task_worker.Result.{Result, failure, err}
use external_task_worker.Model.{Value, bool, int, str, arr, obj, nil, item, end, field}
use external_task_worker.Requests.{set_payload_parameter}
use external_task_worker.Requests.SetVarOnPath.{Floats, converted, set_var_on_path}
use external_task_worker.Requests.Kinds.{kind_of, under, set_var_on_path-under}
use external_task_worker.Requests.Payload.{set_payload_parameter-kind}
use external_task_worker.Tests.Fixtures.{command}

-- floats that are not looked at here
abbrev floats : Floats
floats = record {
  parse_float = λ s. (0, some (failure "invalid syntax"));
  format_float = λ x. "0E+00";
  float_of_int = λ n. 0;
  int_of_float = λ x. pos 0;
}

abbrev unmarshal_value : String → Result Value
unmarshal_value s = err (failure "invalid character")

abbrev lamp : Value
lamp = obj (
    field "on" (bool false)
      (field "colors" (arr (item (int (pos 1)) (item (int (pos 2)) nil))) end))

abbrev lit : Value
lit = obj (
    field "on" (bool false)
      (field "colors" (arr (item (int (pos 1)) (item (int (negsuc 41)) nil))) end))

set_lamp :
    set_var_on_path floats unmarshal_value lamp ("colors" ∷ "1" ∷ []) (str "-42") ≡ (lit, none)
unfolding set_var_on_path
set_lamp = refl

set_var_on_path-under_example :
    (old v : Value) × (under lamp ("colors" ∷ "1" ∷ []) ≡ some old)
    × (converted floats unmarshal_value (str "-42") old ≡ (v, none))
    × (under lit ("colors" ∷ "1" ∷ []) ≡ some v)
set_var_on_path-under_example =
    set_var_on_path-under floats unmarshal_value ("colors" ∷ "1" ∷ []) lamp (str "-42") lit set_lamp

not_a_number :
    set_var_on_path floats unmarshal_value lamp ("colors" ∷ "1" ∷ []) (str "4x")
    ≡ (lamp, some (failure "invalid syntax"))
unfolding set_var_on_path
not_a_number = refl

abbrev parameters : List (String × Value)
parameters = ("on", str "T") ∷ ("colors.1", int (pos 7)) ∷ []

named : (name : String) → (name == "") ≡ false → name ≢ ""
named name h e = false≢true (sym h ∙ (eq_iff name "").1 e)

set_payload_parameter-kind_example :
    kind_of (
      under
        (set_payload_parameter floats unmarshal_value
          (record command { input = lamp })
          parameters).input
        ("colors" ∷ "1" ∷ []))
    ≡ kind_of (under lamp ("colors" ∷ "1" ∷ []))
set_payload_parameter-kind_example =
    set_payload_parameter-kind floats unmarshal_value parameters (record command { input = lamp })
      (named "on" refl, (named "colors.1" refl, tt)) ("colors" ∷ "1" ∷ [])

-- an input is replaced for the empty name although the value is refused
refused_input :
    set_var_on_path floats unmarshal_value lamp [] (str "off")
    ≡ (str "off", some (failure "invalid character"))
unfolding set_var_on_path
refused_input = refl
