-- ===== src/Requests/Payload.antt =====
-- lib/command.go (setPayloadParameter): what the parameters of a task may change of its command.
use Prim.Native.Char.{code}
use Prim.Native.String.{String}
use external_task_worker.Base.{
  ℕ, ◌≡◌, ◌≢◌, refl, ◌∙◌, List, [], ◌∷◌, ◌==◌, if◌then◌else◌, inl, inr, Bool-cases, All, eqb,
}
use external_task_worker.Base.Text.{split_on, not_equal}
use external_task_worker.Result.{Result}
use external_task_worker.Model.{Value}
use external_task_worker.Messages.{Command}
use external_task_worker.Requests.{set_payload_parameter}
use external_task_worker.Requests.SetVarOnPath.{Floats, set_var_on_path}
use external_task_worker.Requests.Kinds.{kind_of, under, set_below_kind}

split_on_some :
    (sep : ℕ) (s : String) → (key : String) × (path : List String) × (split_on sep s ≡ key ∷ path)
unfolding split_on
split_on_some sep String.[] = ("", [], refl)
split_on_some sep (String.◌∷◌ c s) = elim (Bool-cases (eqb (code c) sep)) [
  | inl e ↦ ("", split_on sep s, rw e refl)
  | inr e ↦ let (key, path, h) = split_on_some sep s in (String.◌∷◌ c key, path, rw (e, h) refl)
]

module _ (floats : Floats) (unmarshal_value : String → Result Value) where
  -- Payload parameters with names leave a value of the same Go type, or none, under every path of a
  -- command's input.
  pub set_payload_parameter-kind :
      (parameters : List (String × Value)) (command : Command)
      → All (λ p. p.0 ≢ "") parameters
      → (path : List String)
      → kind_of (under (set_payload_parameter floats unmarshal_value command parameters).input path)
        ≡ kind_of (under command.input path)
  unfolding set_payload_parameter
  set_payload_parameter-kind [] command named path = refl
  set_payload_parameter-kind ((name, value) ∷ rest) command named path =
      let (key, below, h) = split_on_some b'.' name in
      let one : kind_of (
            under
              (set_var_on_path floats unmarshal_value command.input
                (if name == "" then [] else split_on b'.' name) value).0
              path)
          ≡ kind_of (under command.input path) =
        rw (not_equal name "" named.0, h)
          (set_below_kind floats unmarshal_value key below command.input value path) in
      set_payload_parameter-kind rest _ named.1 path ∙ one
