-- ===== src/Event.antt =====
-- lib/event.go: the last value of an event, read from the timescale wrapper. The wrapper's answer,
-- the serialisations and the marshaller are other code, and parameters.
pub mod Paths
use external_task_worker.Base.{
  ℕ, String, Bool, true, false, Option, none, some, List, [], ◌∷◌, map, not, ◌&&◌, ◌==◌, eqb, leb,
  if◌then◌else◌, length,
}
use external_task_worker.Base.Sort.{sort_slice}
use external_task_worker.Base.Text.{split_on, text_less, itoa}
use Prim.Native.String.{◌++◌}
use external_task_worker.Result.{Err, failure, Result, ok, err, error_text}
use external_task_worker.Model.{
  Value, null, obj, str, Fields, end, Device, Service, Protocol, ProtocolSegment, Content,
  AspectNode, variable_name,
}
use external_task_worker.Messages.{TimescaleRequest, TimescaleResponse}
use external_task_worker.Event.Paths.{create_timescale_request, set_path, get_field}

-- `marshaller.UnmarshallingV2Request`
pub record UnmarshallingV2Request : Type 0 where
  pub service : Service
  pub protocol : Protocol
  pub characteristic_id : String
  pub message : List (String × String)
  pub path : String
  pub function_id : String
  pub aspect_nodes : List AspectNode

-- A Go function that returns a result, an error and an HTTP code.
abbrev pub Coded : Type 0 → Type 0
Coded A = Result A × ℕ

unfoldable pub get_segment_name : List ProtocolSegment → String → String
get_segment_name [] id = ""
get_segment_name (s ∷ ss) id = if s.id == id then s.name else get_segment_name ss id

-- `pathToValue[request.ColumnName] = timescaleResponses[i].Value`, on the map as a list; the caller
-- has checked that there is a response for each request
abbrev pub answered :
    List TimescaleRequest → List TimescaleResponse → List (String × TimescaleResponse)
answered [] rs = []
answered (q ∷ qs) [] = []
answered (q ∷ qs) (r ∷ rs) = (q.column_name, r) ∷ answered qs rs

abbrev has_no_time : TimescaleResponse → Bool
has_no_time r = elim r.time [ none ↦ true | some t ↦ false ]

unfoldable pub misses_time : List (String × TimescaleResponse) → Bool
misses_time [] = false
misses_time ((c, r) ∷ rest) = if has_no_time r then true else misses_time rest

-- the value of the last response for a column
unfoldable pub value_at : String → List (String × TimescaleResponse) → Value → Value
value_at path [] v = v
value_at path ((c, r) ∷ rest) v = value_at path rest (if c == path then r.value else v)

-- `for _, path := range paths`, over the sorted paths
unfoldable pub set_paths : List (String × TimescaleResponse) → List String → Fields → Fields
unfolding value_at
set_paths rows [] result = result
set_paths rows (p ∷ ps) result =
    set_paths rows ps (set_path result (split_on b'.' p) (value_at p rows null))

-- `ErrMissingLastValue`
abbrev pub missing_last_value : Err
missing_last_value = failure "missing last value in mgw-last-value"

unfoldable pub get_timescale_value :
    Bool → List TimescaleRequest → List TimescaleResponse → Coded Fields
unfolding misses_time set_paths sort_slice
get_timescale_value handle_missing_time_as_error requests responses =
    let rows = answered requests responses in
    if handle_missing_time_as_error && misses_time rows
    then (err missing_last_value, 513)
    else (ok (set_paths rows (sort_slice text_less (map (λ q. q.column_name) requests)) end), 200)

-- `result[segmentName] = v`
unfoldable pub put_text : String → String → List (String × String) → List (String × String)
put_text k v [] = (k, v) ∷ []
put_text k v ((j, u) ∷ rest) = if j == k then (k, v) ∷ rest else (j, u) ∷ put_text k v rest

abbrev is_nil : Value → Bool
is_nil null = true
is_nil _ = false

module _ (marshal_segment_value : String → Value → String → Result String) where
  abbrev and_put :
      String
      → List (String × String)
      → Result String
      → (List (String × String) → Coded (List (String × String)))
      → Coded (List (String × String))
  and_put name result (ok text) rest = rest (put_text name text result)
  and_put name result (err e) rest = (err e, 500)

  -- `for _, content := range service.Outputs`
  unfoldable pub event_segments :
      Protocol → Fields → List Content → List (String × String) → Coded (List (String × String))
  unfolding get_segment_name put_text
  event_segments protocol values [] result = (ok result, 200)
  event_segments protocol values (c ∷ cs) result =
      let name = get_segment_name protocol.protocol_segments c.protocol_segment_id in
      let value = get_field (variable_name c.content_variable) values in
      if not (name == "") && not (is_nil value)
      then and_put name result
          (marshal_segment_value c.serialization value (variable_name c.content_variable))
          (event_segments protocol values cs)
      else event_segments protocol values cs result

  abbrev with_values : Service → Protocol → Coded Fields → Coded (List (String × String))
  with_values service protocol (ok values, code) = event_segments protocol values service.outputs []
  with_values service protocol (err e, code) = (err e, code)

  unfoldable pub create_event_value_from_timescale_values :
      Bool
      → Service
      → Protocol
      → List TimescaleRequest
      → List TimescaleResponse
      → Coded (List (String × String))
  unfolding get_timescale_value event_segments
  create_event_value_from_timescale_values missing_as_error service protocol requests responses =
      with_values service protocol (get_timescale_value missing_as_error requests responses)

  module _ (query : String → List TimescaleRequest → Result (List TimescaleResponse)) where
    abbrev from_responses :
        Bool
        → Service
        → Protocol
        → List TimescaleRequest
        → Result (List TimescaleResponse)
        → Coded (List (String × String))
    from_responses missing_as_error service protocol requests (err e) = (err e, 500)
    from_responses missing_as_error service protocol requests (ok responses) =
        if not (eqb (length requests) (length responses))
        then (err (failure "timescale response has less elements then the request"), 500)
        else create_event_value_from_timescale_values missing_as_error service protocol requests
            responses

    unfoldable pub get_last_event_message :
        Bool → String → Device → Service → Protocol → Coded (List (String × String))
    unfolding create_timescale_request create_event_value_from_timescale_values
    get_last_event_message missing_as_error token device service protocol =
        let requests = create_timescale_request device service in
        from_responses missing_as_error service protocol requests (query token requests)

    module _ (unmarshal_v2 : UnmarshallingV2Request → Result Value) where
      abbrev of_unmarshal : Result Value → ℕ × Value
      of_unmarshal (ok v) = (200, v)
      of_unmarshal (err e) = (500, str ("unable to unmarshal event value: " ++ error_text e))

      abbrev of_message :
          Service
          → Protocol
          → String
          → String
          → List AspectNode
          → Coded (List (String × String))
          → ℕ × Value
      of_message service protocol characteristic_id function_id aspect_nodes (err e, code) =
          (500, str ("unable to get event value: " ++ error_text e))
      of_message service protocol characteristic_id function_id aspect_nodes (ok output, code) =
          if leb 300 code
          then (code, str ("unexpected code " ++ itoa code))
          else of_unmarshal (
              unmarshal_v2 (record {
                service = service;
                protocol = protocol;
                characteristic_id = characteristic_id;
                message = output;
                path = "";
                function_id = function_id;
                aspect_nodes = aspect_nodes;
              }))

      -- `GetLastEventValue`: a code, and the value if the code is 200
      unfoldable pub get_last_event_value :
          Bool
          → String
          → Device
          → Service
          → Protocol
          → String
          → String
          → List AspectNode
          → ℕ × Value
      unfolding get_last_event_message
      get_last_event_value missing_as_error token device service protocol characteristic_id
            function_id aspect_nodes =
          of_message service protocol characteristic_id function_id aspect_nodes
            (get_last_event_message missing_as_error token device service protocol)
