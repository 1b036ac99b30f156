-- ===== src/Protocol/Frames.antt =====
-- domains/protocol/types.go: the other messages of the CLI.
use claude_agent_sdk_go.Base.{ℤ, String, Option, some, List}
use claude_agent_sdk_go.Json.{Value, Fields, get}
use claude_agent_sdk_go.Json.Decode.{
  ◌>>=◌, of_float, of_struct, of_pointer, of_slice, of_map, get_text, get_maybe_text, get_maybe_int,
}

pub record ConversationResetMessage : Type 0 where
  pub type : String
  pub new_conversation_id : String
  pub uuid : String
  pub session_id : String

unfoldable pub decode_conversation_reset_message : Fields → Option ConversationResetMessage
decode_conversation_reset_message m = do
  type ← get_text m "type"
  new_conversation_id ← get_text m "new_conversation_id"
  uuid ← get_text m "uuid"
  session_id ← get_text m "session_id"
  some (record {
    type = type;
    new_conversation_id = new_conversation_id;
    uuid = uuid;
    session_id = session_id;
  })

pub record StreamEvent : Type 0 where
  pub type : String
  pub uuid : String
  pub session_id : String
  pub event : Option Value
  pub parent_tool_use_id : Option String

unfoldable pub decode_stream_event : Fields → Option StreamEvent
decode_stream_event m = do
  type ← get_text m "type"
  uuid ← get_text m "uuid"
  session_id ← get_text m "session_id"
  parent_tool_use_id ← get_maybe_text m "parent_tool_use_id"
  some (record {
    type = type;
    uuid = uuid;
    session_id = session_id;
    event = get "event" m;
    parent_tool_use_id = parent_tool_use_id;
  })

pub record RateLimitInfo : Type 0 where
  pub status : String
  pub resets_at : Option ℤ
  pub rate_limit_type : Option String
  pub utilization : Option Value
  pub overage_status : Option String
  pub overage_resets_at : Option ℤ
  pub overage_disabled_reason : Option String

unfoldable pub decode_rate_limit_info : Fields → Option RateLimitInfo
decode_rate_limit_info m = do
  status ← get_text m "status"
  resets_at ← get_maybe_int m "resetsAt"
  rate_limit_type ← get_maybe_text m "rateLimitType"
  utilization ← of_pointer of_float (get "utilization" m)
  overage_status ← get_maybe_text m "overageStatus"
  overage_resets_at ← get_maybe_int m "overageResetsAt"
  overage_disabled_reason ← get_maybe_text m "overageDisabledReason"
  some (record {
    status = status;
    resets_at = resets_at;
    rate_limit_type = rate_limit_type;
    utilization = utilization;
    overage_status = overage_status;
    overage_resets_at = overage_resets_at;
    overage_disabled_reason = overage_disabled_reason;
  })

pub record RateLimitEvent : Type 0 where
  pub type : String
  pub uuid : String
  pub session_id : String
  pub rate_limit_info : RateLimitInfo

unfoldable pub decode_rate_limit_event : Fields → Option RateLimitEvent
decode_rate_limit_event m = do
  type ← get_text m "type"
  uuid ← get_text m "uuid"
  session_id ← get_text m "session_id"
  rate_limit_info ← of_struct decode_rate_limit_info (get "rate_limit_info" m)
  some (record {
    type = type;
    uuid = uuid;
    session_id = session_id;
    rate_limit_info = rate_limit_info;
  })

pub record EndMessage : Type 0 where
  pub type : String

unfoldable pub decode_end_message : Fields → Option EndMessage
decode_end_message m = do type ← get_text m "type"; some (record { type = type })

pub record ErrorMessage : Type 0 where
  pub type : String
  pub message : String

unfoldable pub decode_error_message : Fields → Option ErrorMessage
decode_error_message m = do
  type ← get_text m "type"
  message ← get_text m "message"
  some (record { type = type; message = message })

pub record ControlRequestEnvelope : Type 0 where
  pub type : String
  pub request_id : String
  pub request : Option Value

unfoldable pub decode_control_request_envelope : Fields → Option ControlRequestEnvelope
decode_control_request_envelope m = do
  type ← get_text m "type"
  request_id ← get_text m "request_id"
  some (record { type = type; request_id = request_id; request = get "request" m })

pub record ControlResponseBody : Type 0 where
  pub subtype : String
  pub request_id : String
  pub response : Option Value
  pub error : String

unfoldable pub decode_control_response_body : Fields → Option ControlResponseBody
decode_control_response_body m = do
  subtype ← get_text m "subtype"
  request_id ← get_text m "request_id"
  error ← get_text m "error"
  some (record {
    subtype = subtype;
    request_id = request_id;
    response = get "response" m;
    error = error;
  })

pub record ControlResponseEnvelope : Type 0 where
  pub type : String
  pub response : ControlResponseBody

unfoldable pub decode_control_response_envelope : Fields → Option ControlResponseEnvelope
decode_control_response_envelope m = do
  type ← get_text m "type"
  response ← of_struct decode_control_response_body (get "response" m)
  some (record { type = type; response = response })

pub record ControlCancelRequest : Type 0 where
  pub type : String
  pub request_id : String

unfoldable pub decode_control_cancel_request : Fields → Option ControlCancelRequest
decode_control_cancel_request m = do
  type ← get_text m "type"
  request_id ← get_text m "request_id"
  some (record { type = type; request_id = request_id })

pub record TranscriptMirror : Type 0 where
  pub type : String
  pub file_path : String
  pub entries : List Fields

unfoldable pub decode_transcript_mirror : Fields → Option TranscriptMirror
decode_transcript_mirror m = do
  type ← get_text m "type"
  file_path ← get_text m "filePath"
  entries ← of_slice of_map (get "entries" m)
  some (record { type = type; file_path = file_path; entries = entries })
