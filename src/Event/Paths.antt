-- ===== src/Event/Paths.antt =====
-- lib/event.go: the columns of a service's outputs, and values placed in nested maps. A
-- `map[string]interface{}` is its fields.
use external_task_worker.Base.{
  String, Bool, true, false, List, [], ◌∷◌, ◌++◌, map, ◌==◌, if◌then◌else◌,
}
use external_task_worker.Base.Text.{join}
use external_task_worker.Model.{
  Value, null, obj, Fields, end, field, VariableType, list_type, ContentVariable, content_variable,
  ContentVariables, no_variables, variable, Content, Device, Service,
}
use external_task_worker.Messages.{TimescaleRequest}

abbrev is_list : VariableType → Bool
is_list list_type = true
is_list _ = false

-- `getContentPaths`; of a list of variables, all their paths
unfoldable mutual
  pub get_content_paths : ContentVariable → List String → List String
  get_content_paths (content_variable name type fn aspects subs) current =
      if name == ""
      then []
      else if is_list type
      then []
      else sub_content_paths subs (current ++ name ∷ [])

  pub sub_content_paths : ContentVariables → List String → List String
  sub_content_paths no_variables path = join "." path ∷ []
  sub_content_paths (variable v vs) path = get_content_paths v path ++ more_content_paths vs path

  pub more_content_paths : ContentVariables → List String → List String
  more_content_paths no_variables path = []
  more_content_paths (variable v vs) path = get_content_paths v path ++ more_content_paths vs path

unfoldable pub output_paths : List Content → List String
unfolding get_content_paths
output_paths [] = []
output_paths (c ∷ cs) = get_content_paths c.content_variable [] ++ output_paths cs

unfoldable pub create_timescale_request : Device → Service → List TimescaleRequest
unfolding output_paths
create_timescale_request device service =
    map (λ path. record { device = device; service = service; column_name = path })
      (output_paths service.outputs)

-- `m[key]`, nil where there is none
unfoldable pub get_field : String → Fields → Value
get_field key end = null
get_field key (field k v rest) = if k == key then v else get_field key rest

unfoldable pub has_field : String → Fields → Bool
has_field key end = false
has_field key (field k v rest) = if k == key then true else has_field key rest

-- `m[key] = value`
unfoldable pub put_field : String → Value → Fields → Fields
put_field key value end = field key value end
put_field key value (field k v rest) =
    if k == key then field key value rest else field k v (put_field key value rest)

-- `sub` is what stands under `first`: a map takes the rest of the path, anything else stays
abbrev set_below : Fields → String → Value → (Fields → Fields) → Fields
set_below orig first (obj sub) set_rest = put_field first (obj (set_rest sub)) orig
set_below orig first _ set_rest = orig

unfoldable pub set_path : Fields → List String → Value → Fields
unfolding get_field has_field put_field
set_path orig [] value = orig
set_path orig (first ∷ []) value = put_field first value orig
set_path orig (first ∷ second ∷ rest) value =
    if has_field first orig
    then set_below orig first (get_field first orig) (λ sub. set_path sub (second ∷ rest) value)
    else put_field first (obj (set_path end (second ∷ rest) value)) orig
