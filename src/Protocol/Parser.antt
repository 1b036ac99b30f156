-- ===== src/Protocol/Parser.antt =====
-- domains/protocol/parser.go: ParseLine. The text of a line is decoded by `parse_json`, none where it
-- is not JSON.
pub mod Steps
pub mod OneField
use claude_agent_sdk_go.Base.{String, Option, none, some, str_eq, if◌then◌else◌}
use claude_agent_sdk_go.Base.Result.{Result, ok, ok_or, ◌>>=◌}
use claude_agent_sdk_go.Json.{Value, Fields}
use claude_agent_sdk_go.Json.Decode.{decode_struct}
use claude_agent_sdk_go.Protocol.Wire.{
  Envelope, decode_envelope, InboundRoleMessage, ResultMessage, SystemMessage,
  decode_inbound_role_message, decode_result_message, decode_system_message,
}
use claude_agent_sdk_go.Protocol.Frames.{
  ControlCancelRequest, ControlRequestEnvelope, ControlResponseEnvelope, ConversationResetMessage,
  EndMessage, ErrorMessage, RateLimitEvent, StreamEvent, TranscriptMirror,
  decode_control_cancel_request, decode_control_request_envelope, decode_control_response_envelope,
  decode_conversation_reset_message, decode_end_message, decode_error_message,
  decode_rate_limit_event, decode_stream_event, decode_transcript_mirror,
}

pub record WireMessage : Type 0 where
  pub user : Option InboundRoleMessage
  pub assistant : Option InboundRoleMessage
  pub system : Option SystemMessage
  pub result : Option ResultMessage
  pub stream_event : Option StreamEvent
  pub rate_limit_event : Option RateLimitEvent
  pub transcript_mirror : Option TranscriptMirror
  pub conv_reset : Option ConversationResetMessage
  pub control_request : Option ControlRequestEnvelope
  pub control_response : Option ControlResponseEnvelope
  pub control_cancel : Option ControlCancelRequest
  pub end : Option EndMessage
  pub error : Option ErrorMessage

-- &WireMessage{}
abbrev pub empty_message : WireMessage
empty_message = record {
  user = none;
  assistant = none;
  system = none;
  result = none;
  stream_event = none;
  rate_limit_event = none;
  transcript_mirror = none;
  conv_reset = none;
  control_request = none;
  control_response = none;
  control_cancel = none;
  end = none;
  error = none;
}

-- CLIJSONDecodeError, without the text of the error that it wraps
pub record DecodeError : Type 0 where
  pub msg : String
  pub line : String

-- The case of a type: the whole line decoded into its struct
unfoldable pub decode_as :
    {A : Type 0} → (Fields → Option A) → String → String → Value → Result DecodeError A
decode_as decode msg line v = ok_or (record { msg = msg; line = line }) (decode_struct decode v)

abbrev parse_user : String → Value → Result DecodeError WireMessage
parse_user line v = do
  m ← decode_as decode_inbound_role_message "failed to decode user message" line v
  ok (record empty_message { user = some m })

abbrev parse_assistant : String → Value → Result DecodeError WireMessage
parse_assistant line v = do
  m ← decode_as decode_inbound_role_message "failed to decode assistant message" line v
  ok (record empty_message { assistant = some m })

abbrev parse_system : String → Value → Result DecodeError WireMessage
parse_system line v = do
  m ← decode_as decode_system_message "failed to decode system message" line v
  ok (record empty_message { system = some (record m { raw = some v }) })

abbrev parse_result : String → Value → Result DecodeError WireMessage
parse_result line v = do
  m ← decode_as decode_result_message "failed to decode result message" line v
  ok (record empty_message { result = some m })

abbrev parse_stream_event : String → Value → Result DecodeError WireMessage
parse_stream_event line v = do
  m ← decode_as decode_stream_event "failed to decode stream_event message" line v
  ok (record empty_message { stream_event = some m })

abbrev parse_rate_limit_event : String → Value → Result DecodeError WireMessage
parse_rate_limit_event line v = do
  m ← decode_as decode_rate_limit_event "failed to decode rate_limit_event message" line v
  ok (record empty_message { rate_limit_event = some m })

abbrev parse_transcript_mirror : String → Value → Result DecodeError WireMessage
parse_transcript_mirror line v = do
  m ← decode_as decode_transcript_mirror "failed to decode transcript_mirror message" line v
  ok (record empty_message { transcript_mirror = some m })

abbrev parse_conv_reset : String → Value → Result DecodeError WireMessage
parse_conv_reset line v = do
  m ←
      decode_as decode_conversation_reset_message "failed to decode conversation_reset message" line
        v
  ok (record empty_message { conv_reset = some m })

abbrev parse_control_request : String → Value → Result DecodeError WireMessage
parse_control_request line v = do
  m ← decode_as decode_control_request_envelope "failed to decode control_request message" line v
  ok (record empty_message { control_request = some m })

abbrev parse_control_response : String → Value → Result DecodeError WireMessage
parse_control_response line v = do
  m ← decode_as decode_control_response_envelope "failed to decode control_response message" line v
  ok (record empty_message { control_response = some m })

abbrev parse_control_cancel : String → Value → Result DecodeError WireMessage
parse_control_cancel line v = do
  m ←
      decode_as decode_control_cancel_request "failed to decode control_cancel_request message" line
        v
  ok (record empty_message { control_cancel = some m })

abbrev parse_end : String → Value → Result DecodeError WireMessage
parse_end line v = do
  m ← decode_as decode_end_message "failed to decode end message" line v
  ok (record empty_message { end = some m })

abbrev parse_error : String → Value → Result DecodeError WireMessage
parse_error line v = do
  m ← decode_as decode_error_message "failed to decode error message" line v
  ok (record empty_message { error = some m })

-- The switch of ParseLine on the type
unfoldable pub parse_type : String → String → Value → Result DecodeError WireMessage
parse_type type line v =
    if str_eq type "user"
    then parse_user line v
    else if str_eq type "assistant"
    then parse_assistant line v
    else if str_eq type "system"
    then parse_system line v
    else if str_eq type "result"
    then parse_result line v
    else if str_eq type "stream_event"
    then parse_stream_event line v
    else if str_eq type "rate_limit_event"
    then parse_rate_limit_event line v
    else if str_eq type "transcript_mirror"
    then parse_transcript_mirror line v
    else if str_eq type "conversation_reset"
    then parse_conv_reset line v
    else if str_eq type "control_request"
    then parse_control_request line v
    else if str_eq type "control_response"
    then parse_control_response line v
    else if str_eq type "control_cancel_request"
    then parse_control_cancel line v
    else if str_eq type "end"
    then parse_end line v
    else if str_eq type "error"
    then parse_error line v
    else ok empty_message

-- ParseLine after the text is decoded
unfoldable pub parse_value : String → Value → Result DecodeError WireMessage
parse_value line v = do
  env ← decode_as decode_envelope "failed to decode CLI JSON" line v
  parse_type env.type line v

-- ParseLine
unfoldable pub parse_line : (String → Option Value) → String → Result DecodeError WireMessage
parse_line parse_json line = do
  v ← ok_or (record { msg = "failed to decode CLI JSON"; line = line }) (parse_json line)
  parse_value line v
