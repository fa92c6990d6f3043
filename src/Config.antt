-- ===== src/Config.antt =====
-- util/config.go (LoadConfig, handleEnvironmentVars, fieldNameToEnvName): the configuration of a file,
-- overridden by the environment. The file's fields, the environment, the matches of the expression that
-- splits a name at its capitals, and the parsers of strconv and strings are parameters.
pub mod Loaded
use external_task_worker.Base.{
  ℕ, String, ◌≡◌, refl, sym, ◌∙◌, ap, Bool, true, false, not, ◌&&◌, Option, none, some, List, [],
  ◌∷◌, ◌==◌, map, if◌then◌else◌, Bool-cases, inl, inr,
}
use external_task_worker.Base.Int.{ℤ}
use external_task_worker.Base.Text.{split_on, join}
use external_task_worker.DeviceGroups.Commands.{parallel}
use external_task_worker.Worker.{optimistic}

-- a field of the struct, by its reflect.Kind; kinds that no case looks at are `other_field`, with the
-- int of FetchRetries and the pointer of the logger among them
pub data Field : Type 0 where
  int64_field int32_field : ℤ → Field
  string_field : String → Field
  bool_field : Bool → Field
  float_field : ℕ → Field
  slice_field : List String → Field
  -- a map of a type that is not map[string]string
  map_field : Field
  other_field : String → Field

-- `strconv.ParseInt(s, 10, bits)`, ParseBool and ParseFloat, whose errors are dropped, `strings.TrimSpace`
-- and ToUpper, and `camel.FindAllStringSubmatch(s, -1)`, two groups for each match.
pub record Parsers : Type 0 where
  pub parse_int : ℕ → String → ℤ
  pub parse_bool : String → Bool
  pub parse_float : String → ℕ
  pub trim_space : String → String
  pub to_upper : String → String
  pub camel_matches : String → List (String × String)

abbrev pub prepend_field :
    String → Option Field → Option (List (String × Field)) → Option (List (String × Field))
prepend_field name none fields = none
prepend_field name (some f) none = none
prepend_field name (some f) (some fields) = some ((name, f) ∷ fields)

module _ (parsers : Parsers) where
  abbrev put_part : String → List String → List String
  put_part s parts = if not (s == "") then s ∷ parts else parts

  unfoldable pub name_parts : List (String × String) → List String
  name_parts [] = []
  name_parts ((a, b) ∷ more) = put_part a (put_part b (name_parts more))

  unfoldable pub field_name_to_env_name : String → String
  unfolding name_parts join
  field_name_to_env_name s = parsers.to_upper (join "_" (name_parts (parsers.camel_matches s)))

  -- what the loop makes of one field, and none where it panics: reflect refuses a map[string]string for a map
  -- of another type
  unfoldable pub set_field : String → Field → Option Field
  set_field value (int64_field i) = some (int64_field (parsers.parse_int 64 value))
  set_field value (int32_field i) = some (int32_field (parsers.parse_int 32 value))
  set_field value (string_field s) = some (string_field value)
  set_field value (bool_field b) = some (bool_field (parsers.parse_bool value))
  set_field value (float_field f) = some (float_field (parsers.parse_float value))
  set_field value (slice_field l) =
      some (slice_field (map parsers.trim_space (split_on b',' value)))
  set_field value map_field = none
  set_field value (other_field o) = some (other_field o)

  -- the loop over the fields of the struct
  unfoldable pub handle_environment_vars :
      (String → String) → List (String × Field) → Option (List (String × Field))
  unfolding field_name_to_env_name set_field
  handle_environment_vars env [] = some []
  handle_environment_vars env ((name, field) ∷ fields) =
      let value = env (field_name_to_env_name name) in
      prepend_field name (if not (value == "") then set_field value field else some field)
        (handle_environment_vars env fields)

-- a string of the configuration
unfoldable pub get_string : String → List (String × Field) → String
get_string name [] = ""
get_string name ((k, string_field s) ∷ fields) = if k == name then s else get_string name fields
get_string name ((k, _) ∷ fields) = get_string name fields

unfoldable pub put_string : String → String → List (String × Field) → List (String × Field)
put_string name s [] = []
put_string name s ((k, string_field t) ∷ fields) =
    if k == name
    then (k, string_field s) ∷ put_string name s fields
    else (k, string_field t) ∷ put_string name s fields
put_string name s ((k, f) ∷ fields) = (k, f) ∷ put_string name s fields

-- the end of LoadConfig
unfoldable pub force_parallel : List (String × Field) → List (String × Field)
unfolding get_string put_string
force_parallel config =
    if get_string "CompletionStrategy" config == optimistic
      && not (get_string "GroupScheduler" config == parallel)
    then put_string "GroupScheduler" parallel config
    else config

abbrev pub after_environment : Option (List (String × Field)) → Option (List (String × Field))
unfolding force_parallel
after_environment none = none
after_environment (some config) = some (force_parallel config)

-- LoadConfig, from the fields of the decoded file
unfoldable pub load_config :
    Parsers → (String → String) → List (String × Field) → Option (List (String × Field))
unfolding handle_environment_vars force_parallel
load_config parsers env decoded = after_environment (handle_environment_vars parsers env decoded)

pub data FieldKind : Type 0 where
  int64_kind int32_kind string_kind bool_kind float_kind slice_kind map_kind other_kind : FieldKind

abbrev pub kind_of : Field → FieldKind
kind_of (int64_field i) = int64_kind
kind_of (int32_field i) = int32_kind
kind_of (string_field s) = string_kind
kind_of (bool_field b) = bool_kind
kind_of (float_field f) = float_kind
kind_of (slice_field l) = slice_kind
kind_of map_field = map_kind
kind_of (other_field o) = other_kind

-- the names of a struct's fields and their kinds
abbrev pub shape : List (String × Field) → List (String × FieldKind)
shape fields = map (λ f. (f.0, kind_of f.1)) fields
