-- ===== src/Triggers/Payloads.antt =====
-- handlers/misttriggers: the payloads of the triggers other than USER_NEW, and the dispatch by the
-- name of the trigger. The parsers of URLs, of whole numbers and of JSON are parameters, and what a
-- JSON parser gives is a type of its own.
pub mod Lines
use dms_api.Prelude.{String, some, List, [], ◌∷◌}
use dms_api.Prelude.Int.{ℤ}
use dms_api.Prelude.Text.{split}
use dms_api.Errors.{
  Error, plain, wrapped, HttpReply, write_http_bad_request, write_http_internal_server_error,
}
use dms_api.Result.{Result, ok, err, ◌>>=◌}
use dms_api.AccessControl.Request.{Url}
use dms_api.Triggers.UserNew.{lines}

pub record PushOutStartPayload : Type 0 where
  pub stream_name : String
  pub target : String

abbrev push_out_start_of : List String → Result PushOutStartPayload
push_out_start_of (a ∷ b ∷ []) = ok (record { stream_name = a; target = b })
push_out_start_of _ = err (plain "expected 2 lines in PUSH_OUT_START payload")

-- `ParsePushOutStartPayload`
unfoldable pub parse_push_out_start_payload : String → Result PushOutStartPayload
parse_push_out_start_payload body = push_out_start_of (lines body)

pub record PushRewritePayload : Type 0 where
  pub full_url : String
  pub parsed_url : Url
  pub push_host : String
  pub stream_name : String

abbrev push_rewrite_of : (String → Result Url) → List String → Result PushRewritePayload
push_rewrite_of parse_url (a ∷ b ∷ c ∷ []) = do
  u ← parse_url a
  ok (record { full_url = a; parsed_url = u; push_host = b; stream_name = c })
push_rewrite_of parse_url _ = err (plain "expected 3 lines in PUSH_REWRITE payload")

-- `ParsePushRewritePayload`
unfoldable pub parse_push_rewrite_payload :
    (String → Result Url) → String → Result PushRewritePayload
parse_push_rewrite_payload parse_url body = push_rewrite_of parse_url (lines body)

abbrev stream_source_of : List String → Result String
stream_source_of (a ∷ []) = ok a
stream_source_of _ = err (plain "expected 1 line in STREAM_SOURCE payload")

-- `ParseStreamSourcePayload`: the name of the stream.
unfoldable pub parse_stream_source_payload : String → Result String
parse_stream_source_payload body = stream_source_of (lines body)

pub record PushEndPayload (Stats : Type 0) : Type 0 where
  pub push_id : ℤ
  pub stream_name : String
  pub destination : String
  pub actual_destination : String
  pub last_10_log_lines : String
  pub push_status : Stats

abbrev push_end_of :
    {Stats : Type 0}
    → (String → Result ℤ)
    → (String → Result Stats)
    → List String
    → Result (PushEndPayload Stats)
push_end_of atoi decode (a ∷ b ∷ c ∷ d ∷ e ∷ f ∷ []) = do
  id ← atoi a
  stats ← decode f
  ok (record {
    push_id = id;
    stream_name = b;
    destination = c;
    actual_destination = d;
    last_10_log_lines = e;
    push_status = stats;
  })
push_end_of atoi decode _ = err (plain "expected 6 lines in PUSH_END payload")

-- `ParsePushEndPayload`
unfoldable pub parse_push_end_payload :
    {Stats : Type 0}
    → (String → Result ℤ)
    → (String → Result Stats)
    → String
    → Result (PushEndPayload Stats)
parse_push_end_payload atoi decode body = push_end_of atoi decode (lines body)

pub record LiveTrackListPayload (Tracks : Type 0) : Type 0 where
  pub stream_name : String
  pub track_list : Tracks

abbrev live_track_list_of :
    {Tracks : Type 0}
    → (String → Result Tracks)
    → List String
    → Result (LiveTrackListPayload Tracks)
live_track_list_of decode (a ∷ b ∷ []) = do
  tracks ← decode b
  ok (record { stream_name = a; track_list = tracks })
live_track_list_of decode _ = err (plain "expected 2 lines in LIVE_TRACK_LIST payload")

-- `ParseLiveTrackListPayload`
unfoldable pub parse_live_track_list_payload :
    {Tracks : Type 0} → (String → Result Tracks) → String → Result (LiveTrackListPayload Tracks)
parse_live_track_list_payload decode body = live_track_list_of decode (lines body)

pub record UserEndPayload : Type 0 where
  pub trigger_id : String
  pub connection_token : String
  pub stream_names : List String
  pub protocols : List String
  pub ips : List String
  pub time_active_secs : String
  pub uploaded_bytes : String
  pub downloaded_bytes : String
  pub user_tags : List String
  pub per_ip_secs : List String
  pub per_protocol_secs : List String
  pub per_stream_secs : List String
  pub session_id : String

abbrev user_end_of : String → List String → Result UserEndPayload
user_end_of id (a ∷ b ∷ c ∷ d ∷ e ∷ f ∷ g ∷ h ∷ i ∷ j ∷ k ∷ l ∷ []) = ok (record {
  trigger_id = id;
  connection_token = a;
  stream_names = split b',' b;
  protocols = split b',' c;
  ips = split b',' d;
  time_active_secs = e;
  uploaded_bytes = f;
  downloaded_bytes = g;
  user_tags = split b',' h;
  per_ip_secs = split b',' i;
  per_protocol_secs = split b',' j;
  per_stream_secs = split b',' k;
  session_id = l;
})
user_end_of id _ = err (plain "expected 12 lines in USER_NEW payload")

-- `ParseUserEndPayload`
unfoldable pub parse_user_end_payload : String → String → Result UserEndPayload
parse_user_end_payload body trigger_id = user_end_of trigger_id (lines body)

-- An answer to Mist: a text, or an error reply.
pub data TriggerAnswer : Type 0 where
  text : String → TriggerAnswer
  error_reply : HttpReply → TriggerAnswer

handled_answer : String → Result String → TriggerAnswer
handled_answer msg (ok resp) = text resp
handled_answer msg (err e) = error_reply (write_http_internal_server_error msg (some e)).0

-- What the handlers have in common: parse the body, trigger the broker, answer. A broker without a
-- response to send gives the empty text.
unfoldable pub trigger_with :
    {P : Type 0} → String → String → Result P → (P → Result String) → TriggerAnswer
unfolding handled_answer
trigger_with parse_msg handle_msg (err e) respond =
    error_reply (write_http_bad_request parse_msg (some e)).0
trigger_with parse_msg handle_msg (ok p) respond = handled_answer handle_msg (respond p)

-- `TriggerPushOutStart`
unfoldable pub trigger_push_out_start :
    String → (PushOutStartPayload → Result String) → TriggerAnswer
trigger_push_out_start body =
    trigger_with "Error parsing PUSH_OUT_START payload" "Error handling PUSH_OUT_START payload"
      (parse_push_out_start_payload body)

-- `TriggerPushRewrite`
unfoldable pub trigger_push_rewrite :
    (String → Result Url) → String → (PushRewritePayload → Result String) → TriggerAnswer
trigger_push_rewrite parse_url body =
    trigger_with "Error parsing PUSH_REWRITE payload" "Error handling PUSH_REWRITE payload"
      (parse_push_rewrite_payload parse_url body)

-- `TriggerStreamSource`
unfoldable pub trigger_stream_source : String → (String → Result String) → TriggerAnswer
trigger_stream_source body =
    trigger_with "Error parsing STREAM_SOURCE payload" "Error handling STREAM_SOURCE payload"
      (parse_stream_source_payload body)

-- `TriggerPushEnd`
unfoldable pub trigger_push_end :
    {Stats : Type 0}
    → (String → Result ℤ)
    → (String → Result Stats)
    → String
    → (PushEndPayload Stats → Result String)
    → TriggerAnswer
trigger_push_end atoi decode body =
    trigger_with "Error parsing PUSH_END payload" "Error handling PUSH_END payload"
      (parse_push_end_payload atoi decode body)

-- `TriggerLiveTrackList`
unfoldable pub trigger_live_track_list :
    {Tracks : Type 0}
    → (String → Result Tracks)
    → String
    → (LiveTrackListPayload Tracks → Result String)
    → TriggerAnswer
trigger_live_track_list decode body =
    trigger_with "Error parsing LIVE_TRACK_LIST payload" "Error handling LIVE_TRACK_LIST payload"
      (parse_live_track_list_payload decode body)
