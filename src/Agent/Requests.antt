-- ===== src/Agent/Requests.antt =====
-- domains/agent/session_manager.go: handleControlRequest, permissionFromFunc, handleMCPMessage and
-- mcpResponse. The callbacks are the application's and so parameters, and a response is what
-- BuildControlResponse marshals, none where nothing is sent.
pub mod Answered
use Prim.Native.String.{◌++◌ as append}
use claude_agent_sdk_go.Base.{
  String, Bool, true, false, Option, none, some, List, [], ◌∷◌, string_eq, if◌then◌else◌,
}
use claude_agent_sdk_go.Base.Assoc
use claude_agent_sdk_go.Base.Result.{ok, err}
use claude_agent_sdk_go.Text.{is_empty}
use claude_agent_sdk_go.Json.{Value, Fields, obj, end, put, del, get}
use claude_agent_sdk_go.Protocol.Frames.{ControlRequestEnvelope}
use claude_agent_sdk_go.Protocol.Requests.{
  CanUseToolRequest, HookCallbackRequest, McpMessageRequest, ControlBody, can_use_tool,
  hook_callback, mcp_message, parse_control_request_body,
}
use claude_agent_sdk_go.Agent.McpServer.{SdkMcpServer, Reply, rpc_error, method_not_found}

pub record PermissionResult : Type 0 where
  pub allow : Bool
  pub message : String
  pub interrupt : Bool
  pub updated_input : Option Value
  pub updated_permissions : Value

-- The bodies of the responses
pub data Body : Type 0 where
  plain_permission : String → String → Body
  denied : String → Bool → Body
  allowed : Value → Value → Body
  hook_output : Fields → Body
  mcp_response : Option Reply → Body
  control_error : String → Body

-- input := res.UpdatedInput, or the request's where that has length 0
abbrev pub given_or : Option Value → Option Value → Option Value
given_or none input = input
given_or (some v) input = some v

-- json.RawMessage("{}") where neither has one
abbrev pub given_or_empty : Option Value → Value
given_or_empty none = obj end
given_or_empty (some v) = v

-- permissionFromFunc
unfoldable pub permission_from_func :
    (CanUseToolRequest → PermissionResult) → CanUseToolRequest → Body
permission_from_func ask req =
    let res = ask req in
    let input = given_or res.updated_input req.input in
    if res.allow
    then allowed (given_or_empty input) res.updated_permissions
    else denied res.message res.interrupt

-- The case of can_use_tool without a ToolPermissionFunc
unfoldable pub permission_from_handler :
    Option (CanUseToolRequest → Bool × String) → CanUseToolRequest → Body
permission_from_handler none req = plain_permission "allow" ""
permission_from_handler (some ask) req =
    let (allow, reason) = ask req in plain_permission (if allow then "allow" else "deny") reason

-- output[to] = output[from]; delete(output, from), where the key is there
unfoldable pub rename_key : String → String → Fields → Fields
rename_key from to m = elim (get from m) [ none ↦ m | some v ↦ del from (put to v m) ]

abbrev pub output_of : Option Fields → Fields
output_of none = end
output_of (some m) = m

-- The keywords of Python renamed
unfoldable pub hook_keywords : Option Fields → Fields
unfolding rename_key
hook_keywords output =
    rename_key "continue_" "continue" (rename_key "async_" "async" (output_of output))

-- The callbacks of the session
pub record Callbacks : Type 0 where
  pub permission_func : Option (CanUseToolRequest → PermissionResult)
  pub permission_handler : Option (CanUseToolRequest → Bool × String)
  pub hooks : List (String × (HookCallbackRequest → Option Fields))
  pub servers : List (String × SdkMcpServer)

module _ (serve : SdkMcpServer → Value → Option Reply) (message_id : Value → String) where
  -- mcpResponse; none is the empty result that answers a notification
  unfoldable pub mcp_response_of : Callbacks → String → Value → Option Reply
  mcp_response_of cb name message = elim (Assoc.get name cb.servers) [
    | none ↦ some (
        rpc_error (message_id message) method_not_found
          (append "Server '" (append name "' not found")))
    | some server ↦ serve server message
  ]

  abbrev missing_message : Body
  missing_message = control_error "Missing server_name or message for MCP request"

  -- handleMCPMessage
  unfoldable pub handle_mcp_message : Callbacks → McpMessageRequest → Body
  handle_mcp_message cb req =
      if is_empty req.server_name then missing_message else elim req.message [
        | none ↦ missing_message
        | some message ↦ mcp_response (mcp_response_of cb req.server_name message)
      ]

  -- The switch of handleControlRequest: the body that it sends, if any
  unfoldable pub answer_request : Callbacks → ControlBody → Option Body
  answer_request cb (can_use_tool req) = some (elim cb.permission_func [
    | some ask ↦ permission_from_func ask req
    | none ↦ permission_from_handler cb.permission_handler req
  ])
  answer_request cb (mcp_message req) = some (handle_mcp_message cb req)
  answer_request cb (hook_callback req) = elim (Assoc.get req.callback_id cb.hooks) [
    | none ↦ none
    | some hook ↦ some (hook_output (hook_keywords (hook req)))
  ]
  answer_request cb _ = none

  -- handleControlRequest
  unfoldable pub handle_control_request : Callbacks → ControlRequestEnvelope → Option Body
  handle_control_request cb env = elim (parse_control_request_body env) [
    | err e ↦ none
    | ok body ↦ answer_request cb body
  ]
