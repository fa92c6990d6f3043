-- ===== src/DeviceGroups/Services.antt =====
-- lib/devicegroups/devicegroups.go (getFilteredServices and what it calls): the services of a device
-- type that serve a command.
use external_task_worker.Base.{
  String, Bool, true, false, List, [], ◌∷◌, not, ◌&&◌, ◌||◌, ◌==◌, if◌then◌else◌,
}
use external_task_worker.Base.Int.{pos, lebℤ}
use external_task_worker.Base.Text.{has_prefix, text_less}
use external_task_worker.Base.Sort.{sort_slice}
use external_task_worker.Model.{
  MarshallerModel, AspectNode, ContentVariable, content_variable, ContentVariables, no_variables,
  variable, Content, Service, event, Interaction, measuring_function_prefix,
}
use external_task_worker.Messages.{Command}
use external_task_worker.Messages.Aspects.{get_aspects}

unfoldable pub is_measuring_function_id : String → Bool
is_measuring_function_id id = has_prefix id measuring_function_prefix

abbrev pub is_event : Interaction → Bool
is_event event = true
is_event _ = false

-- `AspectMatchLevel(ContentVariableAspectIds(variable), aspectNodes) >= 0`
abbrev pub matches_aspects : MarshallerModel → List AspectNode → ContentVariable → Bool
matches_aspects m nodes v =
    lebℤ (pos 0) (m.aspect_match_level (m.content_variable_aspect_ids v) nodes)

-- A content variable serves the function and the aspects itself, or below it.
unfoldable mutual
  pub content_variable_contains_criteria :
      ContentVariable → String → (ContentVariable → Bool) → Bool
  content_variable_contains_criteria (content_variable name type fn aspects subs) function_id
        matches =
      ((fn == function_id) && matches (content_variable name type fn aspects subs))
      || any_variable_contains_criteria subs function_id matches

  pub any_variable_contains_criteria : ContentVariables → String → (ContentVariable → Bool) → Bool
  any_variable_contains_criteria no_variables function_id matches = false
  any_variable_contains_criteria (variable v vs) function_id matches =
      content_variable_contains_criteria v function_id matches
      || any_variable_contains_criteria vs function_id matches

unfoldable pub any_content_matches_criteria :
    List Content → String → (ContentVariable → Bool) → Bool
unfolding content_variable_contains_criteria
any_content_matches_criteria [] function_id matches = false
any_content_matches_criteria (c ∷ cs) function_id matches =
    content_variable_contains_criteria c.content_variable function_id matches
    || any_content_matches_criteria cs function_id matches

-- `serviceIndex[service.Id] = service`, on the map as a list
unfoldable pub index_service : Service → List Service → List Service
index_service s [] = s ∷ []
index_service s (t ∷ ts) = if t.id == s.id then s ∷ ts else t ∷ index_service s ts

-- the test of one service in the loop of getFilteredServices
unfoldable pub serves : MarshallerModel → Bool → Command → Service → Bool
unfolding get_aspects is_measuring_function_id any_content_matches_criteria
serves m filter_events command service =
    let measuring = is_measuring_function_id command.function.id in
    let contents = if measuring then service.outputs else service.inputs in
    any_content_matches_criteria contents command.function.id
      (matches_aspects m (get_aspects m.aspect_nodes_alias command))
    && (not filter_events || not (measuring && is_event service.interaction))

unfoldable pub service_index :
    MarshallerModel → Bool → Command → List Service → List Service → List Service
unfolding serves index_service
service_index m filter_events command [] index = index
service_index m filter_events command (s ∷ ss) index =
    service_index m filter_events command ss
      (if serves m filter_events command s then index_service s index else index)

-- `result[i].Id < result[j].Id`
abbrev pub id_less : Service → Service → Bool
id_less s t = text_less s.id t.id

unfoldable pub get_filtered_services :
    MarshallerModel → Bool → Command → List Service → List Service
unfolding service_index sort_slice
get_filtered_services m filter_events command services =
    sort_slice id_less (service_index m filter_events command services [])
