-- ===== src/Triggers/Health.antt =====
-- handlers/misttriggers/stream_buffer.go and triggers.go: the health of a stream in the
-- STREAM_BUFFER trigger, and the dispatch by the name of a trigger. Encoders and decoders of JSON
-- are parameters.
use dms_api.Prelude.{
  ◌≡◌, ap, String, concat, Bool, true, false, not, ◌&&◌, ◌||◌, Option, none, some, List, [], ◌∷◌,
  arith, str_eq, eq_iff, if◌then◌else◌, inl, inr, ◌⊎◌,
}
use dms_api.Prelude.Dict
use dms_api.Prelude.Dict.{Dict}
use dms_api.Errors.{Error, plain, wrapped, write_http_bad_request, write_http_internal_server_error}
use dms_api.Result.{Result, ok, err, ◌>>=◌}
use dms_api.Triggers.UserNew.{lines}
use dms_api.Triggers.Payloads.{TriggerAnswer, text, error_reply}

-- `MistStreamDetails`, with the values of a JSON object and the tracks as types of their own.
pub record MistStreamDetails (Track Value : Type 0) : Type 0 where
  pub tracks : Dict Track
  pub issues : String
  pub human_issues : List String
  pub extra : Dict Value

-- What is used of JSON: the two named fields, an object with any values, whether a value is an
-- object, and tracks from such values.
pub record Json (Track Value : Type 0) : Type 0 where
  pub issues_in : String → Result (String × List String)
  pub object_in : String → Result (Dict Value)
  pub is_object : Value → Bool
  pub tracks_in : Dict Value → Result (Dict Track)

pub record StreamBufferPayload (Track Value : Type 0) : Type 0 where
  pub stream_name : String
  pub state : String
  pub details : Option (MistStreamDetails Track Value)

pub record StreamHealthPayload (Track Value : Type 0) : Type 0 where
  pub stream_name : String
  pub session_id : String
  pub is_active : Bool
  pub is_healthy : Bool
  pub details : Option (MistStreamDetails Track Value)

not_empty :
    (state : String) → (state ≡ "FULL") ⊎ (state ≡ "RECOVER") → not (str_eq state "EMPTY") ≡ true
not_empty state (inl e) = ap (λ s. not (str_eq s "EMPTY")) e
not_empty state (inr e) = ap (λ s. not (str_eq s "EMPTY")) e

-- The values of an object that are objects themselves, and those that are not.
unfoldable pub select_values : {Value : Type 0} → (Value → Bool) → Dict Value → Dict Value
select_values keeps [] = []
select_values keeps ((k, v) ∷ m) =
    let rest = select_values keeps m in if keeps v then (k, v) ∷ rest else rest

abbrev in_context : {A : Type 0} → String → Result A → Result A
in_context msg (err e) = err (wrapped msg e)
in_context msg (ok x) = ok x

module _ {Track Value : Type 0} (tools : Json Track Value) where
  -- The issues are taken out, the other objects are the tracks, and what is left is extra.
  details_of : String → Result (MistStreamDetails Track Value)
  unfolding select_values
  details_of data_text = do
    issues ← in_context "error unmarshalling issues JSON: " (tools.issues_in data_text)
    object ← in_context "error unmarshalling JSON: " (tools.object_in data_text)
    let values = Dict.delete "human_issues" (Dict.delete "issues" object)
    tracks ←
        in_context "error parsing stream details tracks: "
          (tools.tracks_in (select_values tools.is_object values))
    ok (record {
      tracks = tracks;
      issues = issues.0;
      human_issues = issues.1;
      extra = select_values (λ v. not (tools.is_object v)) values;
    })

  -- `ParseMistStreamDetails`: none for an empty buffer.
  unfoldable pub parse_mist_stream_details :
      String → String → Result (Option (MistStreamDetails Track Value))
  unfolding details_of
  parse_mist_stream_details state data_text =
      if str_eq state "EMPTY" then ok none else do details ← details_of data_text; ok (some details)

  buffer_of : String → String → String → Result (StreamBufferPayload Track Value)
  unfolding parse_mist_stream_details
  buffer_of name state details_text = elim (parse_mist_stream_details state details_text) [
    | err e ↦ err (wrapped "error parsing stream details JSON: " e)
    | ok details ↦ ok (record { stream_name = name; state = state; details = details })
  ]

  buffer_of_lines : List String → Result (StreamBufferPayload Track Value)
  unfolding buffer_of
  buffer_of_lines (a ∷ b ∷ []) = buffer_of a b ""
  buffer_of_lines (a ∷ b ∷ c ∷ []) = buffer_of a b c
  buffer_of_lines _ = err (plain "invalid payload: expected 2 or 3 lines")

  -- `ParseStreamBufferPayload`
  unfoldable pub parse_stream_buffer_payload : String → Result (StreamBufferPayload Track Value)
  unfolding buffer_of_lines
  parse_stream_buffer_payload body = buffer_of_lines (lines body)

  no_issues : Option (MistStreamDetails Track Value) → Bool
  no_issues none = true
  no_issues (some d) = str_eq d.issues ""

  -- The health that is posted to the hook.
  unfoldable pub stream_health :
      String → StreamBufferPayload Track Value → StreamHealthPayload Track Value
  unfolding no_issues
  stream_health session_id b = record {
    stream_name = b.stream_name;
    session_id = session_id;
    is_active = not (str_eq b.state "EMPTY");
    is_healthy = (str_eq b.state "FULL" || str_eq b.state "RECOVER") && no_issues b.details;
    details = b.details;
  }

  hook_answer : Option Error → TriggerAnswer
  hook_answer none = text ""
  hook_answer (some e) =
      error_reply
        (write_http_internal_server_error "Error pushing STREAM_HEALTH payload" (some e)).0

  -- `TriggerStreamBuffer`, with the post to the hook; the broker is called beside it.
  unfoldable pub trigger_stream_buffer :
      String → String → String → (StreamHealthPayload Track Value → Option Error) → TriggerAnswer
  unfolding hook_answer stream_health parse_stream_buffer_payload
  trigger_stream_buffer hook_url session_id body post = elim (parse_stream_buffer_payload body) [
    | err e ↦ error_reply (write_http_bad_request "Error parsing STREAM_BUFFER payload" (some e)).0
    | ok b ↦ if str_eq hook_url "" then text "" else hook_answer (post (stream_health session_id b))
  ]

  healthy_cases :
      (state : String) (details : Option (MistStreamDetails Track Value))
      → ((str_eq state "FULL" || str_eq state "RECOVER") && no_issues details) ≡ true
      → (state ≡ "FULL") ⊎ (state ≡ "RECOVER")
  healthy_cases state details h = ground (arith, h, eq_iff state "FULL", eq_iff state "RECOVER")

  -- A stream that is reported healthy is full or recovering, and so also reported active.
  pub healthy-Active :
      (session_id : String) (b : StreamBufferPayload Track Value)
      → (stream_health session_id b).is_healthy ≡ true
      → ((b.state ≡ "FULL") ⊎ (b.state ≡ "RECOVER"))
        × ((stream_health session_id b).is_active ≡ true)
  unfolding stream_health
  healthy-Active session_id b h =
      (healthy_cases b.state b.details h, not_empty b.state (healthy_cases b.state b.details h))

pub data TriggerName : Type 0 where
  push_end : TriggerName
  push_out_start : TriggerName
  push_rewrite : TriggerName
  stream_buffer : TriggerName
  live_track_list : TriggerName
  user_new : TriggerName
  user_end : TriggerName
  stream_source : TriggerName

-- The name in the header of the request.
unfoldable pub trigger_named : String → Option TriggerName
trigger_named name =
    if str_eq name "PUSH_OUT_START"
    then some push_out_start
    else if str_eq name "PUSH_END"
    then some push_end
    else if str_eq name "STREAM_BUFFER"
    then some stream_buffer
    else if str_eq name "PUSH_REWRITE"
    then some push_rewrite
    else if str_eq name "LIVE_TRACK_LIST"
    then some live_track_list
    else if str_eq name "USER_NEW"
    then some user_new
    else if str_eq name "USER_END"
    then some user_end
    else if str_eq name "STREAM_SOURCE"
    then some stream_source
    else none

-- Whether Mist waits for the answer to a trigger.
unfoldable pub is_synchronous : TriggerName → Bool
is_synchronous push_end = false
is_synchronous push_out_start = true
is_synchronous push_rewrite = true
is_synchronous stream_buffer = false
is_synchronous live_track_list = false
is_synchronous user_new = true
is_synchronous user_end = false
is_synchronous stream_source = true

-- `Trigger`, with the body of the request, read or not, and the handlers.
unfoldable pub dispatch :
    Result String → String → (TriggerName → String → TriggerAnswer) → TriggerAnswer
unfolding trigger_named
dispatch (err e) name handlers =
    error_reply (write_http_bad_request "Cannot read trigger payload" (some e)).0
dispatch (ok body) name handlers = elim (trigger_named name) [
  | some t ↦ handlers t body
  | none ↦
      error_reply
        (write_http_bad_request "Unsupported X-Trigger"
          (some (plain (concat "unknown trigger '" (concat name "'"))))).0
]
