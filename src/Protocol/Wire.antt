-- ===== src/Protocol/Wire.antt =====
-- domains/protocol/types.go: the messages of the CLI and what json.Unmarshal reads into them.
use claude_agent_sdk_go.Base.{ℤ, String, Bool, Option, none, some, List}
use claude_agent_sdk_go.Json.{Value, Fields, get}
use claude_agent_sdk_go.Json.Decode.{
  ◌>>=◌, of_float, of_struct, of_pointer, get_text, get_maybe_text, get_bool, get_int,
  get_maybe_int, get_texts,
}

pub record Envelope : Type 0 where
  pub type : String

unfoldable pub decode_envelope : Fields → Option Envelope
decode_envelope m = do type ← get_text m "type"; some (record { type = type })

pub record RoleMessageBody : Type 0 where
  pub role : String
  pub content : Option Value

unfoldable pub decode_role_message_body : Fields → Option RoleMessageBody
decode_role_message_body m = do
  role ← get_text m "role"
  some (record { role = role; content = get "content" m })

pub record InboundRoleMessage : Type 0 where
  pub type : String
  pub session_id : String
  pub message : RoleMessageBody
  pub uuid : Option String
  pub parent_tool_use_id : Option String
  pub model : String
  pub usage : Option Value
  pub stop_reason : Option String
  pub message_id : Option String
  pub error : Option String
  pub tool_use_result : Option Value
  pub origin : Option Value

unfoldable pub decode_inbound_role_message : Fields → Option InboundRoleMessage
decode_inbound_role_message m = do
  type ← get_text m "type"
  session_id ← get_text m "session_id"
  message ← of_struct decode_role_message_body (get "message" m)
  uuid ← get_maybe_text m "uuid"
  parent_tool_use_id ← get_maybe_text m "parent_tool_use_id"
  model ← get_text m "model"
  stop_reason ← get_maybe_text m "stop_reason"
  message_id ← get_maybe_text m "message_id"
  error ← get_maybe_text m "error"
  some (record {
    type = type;
    session_id = session_id;
    message = message;
    uuid = uuid;
    parent_tool_use_id = parent_tool_use_id;
    model = model;
    usage = get "usage" m;
    stop_reason = stop_reason;
    message_id = message_id;
    error = error;
    tool_use_result = get "tool_use_result" m;
    origin = get "origin" m;
  })

-- Raw is set by ParseLine
pub record SystemMessage : Type 0 where
  pub type : String
  pub subtype : String
  pub nested : Option Value
  pub task_id : String
  pub description : String
  pub session_id : String
  pub uuid : String
  pub raw : Option Value

unfoldable pub decode_system_message : Fields → Option SystemMessage
decode_system_message m = do
  type ← get_text m "type"
  subtype ← get_text m "subtype"
  task_id ← get_text m "task_id"
  description ← get_text m "description"
  session_id ← get_text m "session_id"
  uuid ← get_text m "uuid"
  some (record {
    type = type;
    subtype = subtype;
    nested = get "data" m;
    task_id = task_id;
    description = description;
    session_id = session_id;
    uuid = uuid;
    raw = none;
  })

pub record DeferredToolUse : Type 0 where
  pub id : String
  pub name : String
  pub input : Option Value

unfoldable pub decode_deferred_tool_use : Fields → Option DeferredToolUse
decode_deferred_tool_use m = do
  id ← get_text m "id"
  name ← get_text m "name"
  some (record { id = id; name = name; input = get "input" m })

pub record ResultMessage : Type 0 where
  pub type : String
  pub subtype : String
  pub session_id : String
  pub duration_ms : ℤ
  pub duration_api_ms : ℤ
  pub is_error : Bool
  pub num_turns : ℤ
  pub result : String
  pub total_cost_usd : Option Value
  pub usage : Option Value
  pub stop_reason : Option String
  pub uuid : Option String
  pub terminal_reason : Option String
  pub api_error_status : Option ℤ
  pub structured_output : Option Value
  pub model_usage : Option Value
  pub model_usage_camel : Option Value
  pub permission_denials : Option Value
  pub errors : List String
  pub origin : Option Value
  pub deferred_tool_use : Option DeferredToolUse

unfoldable pub decode_result_message : Fields → Option ResultMessage
decode_result_message m = do
  type ← get_text m "type"
  subtype ← get_text m "subtype"
  session_id ← get_text m "session_id"
  duration_ms ← get_int m "duration_ms"
  duration_api_ms ← get_int m "duration_api_ms"
  is_error ← get_bool m "is_error"
  num_turns ← get_int m "num_turns"
  result ← get_text m "result"
  total_cost_usd ← of_pointer of_float (get "total_cost_usd" m)
  stop_reason ← get_maybe_text m "stop_reason"
  uuid ← get_maybe_text m "uuid"
  terminal_reason ← get_maybe_text m "terminal_reason"
  api_error_status ← get_maybe_int m "api_error_status"
  errors ← get_texts m "errors"
  deferred_tool_use ← of_pointer (of_struct decode_deferred_tool_use) (get "deferred_tool_use" m)
  some (record {
    type = type;
    subtype = subtype;
    session_id = session_id;
    duration_ms = duration_ms;
    duration_api_ms = duration_api_ms;
    is_error = is_error;
    num_turns = num_turns;
    result = result;
    total_cost_usd = total_cost_usd;
    usage = get "usage" m;
    stop_reason = stop_reason;
    uuid = uuid;
    terminal_reason = terminal_reason;
    api_error_status = api_error_status;
    structured_output = get "structured_output" m;
    model_usage = get "model_usage" m;
    model_usage_camel = get "modelUsage" m;
    permission_denials = get "permission_denials" m;
    errors = errors;
    origin = get "origin" m;
    deferred_tool_use = deferred_tool_use;
  })
