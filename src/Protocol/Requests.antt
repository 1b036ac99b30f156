-- ===== src/Protocol/Requests.antt =====
-- domains/protocol: the bodies of control requests (types.go) and ParseControlRequestBody (parser.go).
use claude_agent_sdk_go.Base.{String, Option, none, some, str_eq, if◌then◌else◌}
use claude_agent_sdk_go.Json.{Value, Fields, get}
use claude_agent_sdk_go.Json.Decode.{◌>>=◌, of_map, get_text, get_maybe_text}
use claude_agent_sdk_go.Base.Result.{Result, ok, err}
use claude_agent_sdk_go.Json.Decode.{decode_struct}
use claude_agent_sdk_go.Protocol.Frames.{ControlRequestEnvelope}
use Prim.Native.String.{◌++◌ as append}

pub record ControlRequestBase : Type 0 where
  pub subtype : String

unfoldable pub decode_control_request_base : Fields → Option ControlRequestBase
decode_control_request_base m = do
  subtype ← get_text m "subtype"
  some (record { subtype = subtype })

pub record CanUseToolRequest : Type 0 where
  pub subtype : String
  pub tool_name : String
  pub input : Option Value
  pub tool_use_id : String
  pub permission_suggestions : Option Value
  pub agent_id : String
  pub blocked_path : String
  pub decision_reason : String
  pub title : String
  pub display_name : String
  pub description : String

unfoldable pub decode_can_use_tool_request : Fields → Option CanUseToolRequest
decode_can_use_tool_request m = do
  subtype ← get_text m "subtype"
  tool_name ← get_text m "tool_name"
  tool_use_id ← get_text m "tool_use_id"
  agent_id ← get_text m "agent_id"
  blocked_path ← get_text m "blocked_path"
  decision_reason ← get_text m "decision_reason"
  title ← get_text m "title"
  display_name ← get_text m "display_name"
  description ← get_text m "description"
  some (record {
    subtype = subtype;
    tool_name = tool_name;
    input = get "input" m;
    tool_use_id = tool_use_id;
    permission_suggestions = get "permission_suggestions" m;
    agent_id = agent_id;
    blocked_path = blocked_path;
    decision_reason = decision_reason;
    title = title;
    display_name = display_name;
    description = description;
  })

pub record McpMessageRequest : Type 0 where
  pub subtype : String
  pub server_name : String
  pub message : Option Value

unfoldable pub decode_mcp_message_request : Fields → Option McpMessageRequest
decode_mcp_message_request m = do
  subtype ← get_text m "subtype"
  server_name ← get_text m "server_name"
  some (record { subtype = subtype; server_name = server_name; message = get "message" m })

pub record HookCallbackRequest : Type 0 where
  pub subtype : String
  pub callback_id : String
  pub input : Option Value
  pub tool_use_id : Option String

unfoldable pub decode_hook_callback_request : Fields → Option HookCallbackRequest
decode_hook_callback_request m = do
  subtype ← get_text m "subtype"
  callback_id ← get_text m "callback_id"
  tool_use_id ← get_maybe_text m "tool_use_id"
  some (record {
    subtype = subtype;
    callback_id = callback_id;
    input = get "input" m;
    tool_use_id = tool_use_id;
  })

pub record InitializeRequestBody : Type 0 where
  pub subtype : String
  pub hooks : Fields
  pub agents : Fields

unfoldable pub decode_initialize_request_body : Fields → Option InitializeRequestBody
decode_initialize_request_body m = do
  subtype ← get_text m "subtype"
  hooks ← of_map (get "hooks" m)
  agents ← of_map (get "agents" m)
  some (record { subtype = subtype; hooks = hooks; agents = agents })

pub record InterruptRequestBody : Type 0 where
  pub subtype : String

unfoldable pub decode_interrupt_request_body : Fields → Option InterruptRequestBody
decode_interrupt_request_body m = do
  subtype ← get_text m "subtype"
  some (record { subtype = subtype })

pub record SetPermModeRequestBody : Type 0 where
  pub subtype : String
  pub mode : String

unfoldable pub decode_set_perm_mode_request_body : Fields → Option SetPermModeRequestBody
decode_set_perm_mode_request_body m = do
  subtype ← get_text m "subtype"
  mode ← get_text m "mode"
  some (record { subtype = subtype; mode = mode })

pub record SetModelRequestBody : Type 0 where
  pub subtype : String
  pub model : String

unfoldable pub decode_set_model_request_body : Fields → Option SetModelRequestBody
decode_set_model_request_body m = do
  subtype ← get_text m "subtype"
  model ← get_text m "model"
  some (record { subtype = subtype; model = model })

-- What ParseControlRequestBody returns
pub data ControlBody : Type 0 where
  can_use_tool : CanUseToolRequest → ControlBody
  hook_callback : HookCallbackRequest → ControlBody
  initialize : InitializeRequestBody → ControlBody
  mcp_message : McpMessageRequest → ControlBody
  interrupt : InterruptRequestBody → ControlBody
  set_permission_mode : SetPermModeRequestBody → ControlBody
  set_model : SetModelRequestBody → ControlBody

-- The case of a subtype: the whole body decoded into its struct
abbrev pub body_as :
    {A : Type 0}
    → (Fields → Option A)
    → (A → ControlBody)
    → String
    → Value
    → Result String ControlBody
body_as decode set subtype v = elim (decode_struct decode v) [
  | none ↦ err (append "parse " (append subtype " request"))
  | some a ↦ ok (set a)
]

-- The switch of ParseControlRequestBody
unfoldable pub parse_subtype : String → Value → Result String ControlBody
parse_subtype subtype v =
    if str_eq subtype "can_use_tool"
    then body_as decode_can_use_tool_request can_use_tool subtype v
    else if str_eq subtype "hook_callback"
    then body_as decode_hook_callback_request hook_callback subtype v
    else if str_eq subtype "initialize"
    then body_as decode_initialize_request_body initialize subtype v
    else if str_eq subtype "mcp_message"
    then body_as decode_mcp_message_request mcp_message subtype v
    else if str_eq subtype "interrupt"
    then body_as decode_interrupt_request_body interrupt subtype v
    else if str_eq subtype "set_permission_mode"
    then body_as decode_set_perm_mode_request_body set_permission_mode subtype v
    else if str_eq subtype "set_model"
    then body_as decode_set_model_request_body set_model subtype v
    else err (append "unknown control request subtype: " subtype)

abbrev base_of : Option Value → Option ControlRequestBase
base_of none = none
base_of (some v) = decode_struct decode_control_request_base v

abbrev parse_request : Option Value → String → Result String ControlBody
parse_request none subtype = err "parse control request subtype"
parse_request (some v) subtype = parse_subtype subtype v

-- ParseControlRequestBody; the error is its text before the one that it wraps
unfoldable pub parse_control_request_body : ControlRequestEnvelope → Result String ControlBody
parse_control_request_body env = elim (base_of env.request) [
  | none ↦ err "parse control request subtype"
  | some base ↦ parse_request env.request base.subtype
]
