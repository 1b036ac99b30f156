-- ===== src/Agent/McpServer.antt =====
-- domains/agent/sdkmcp.go: an MCP server in this process, and its index by name. Decoding of JSON text
-- is a parameter; a reply is the data that rpcResult and rpcError marshal. A tool's handler is a
-- function of its arguments that returns, fails or panics.
pub mod Replies
use Prim.Native.String.{◌++◌ as append}
use claude_agent_sdk_go.Base.{
  ℕ, String, Bool, true, false, ◌||◌, Option, none, some, List, [], ◌∷◌, map, str_eq, string_eq,
  ◌⊎◌, inl, inr, if◌then◌else◌,
}
use claude_agent_sdk_go.Base.Assoc
use claude_agent_sdk_go.Text.{is_empty}

pub record McpContent : Type 0 where
  pub type : String
  pub text : String
  pub data_base64 : String
  pub mime_type : String

-- TextContent
abbrev pub text_content : String → McpContent
text_content s = record { type = "text"; text = s; data_base64 = ""; mime_type = "" }

pub record McpToolResult : Type 0 where
  pub content : List McpContent
  pub is_error : Bool

-- How a call of a handler ends
pub data Outcome : Type 0 where
  returned : McpToolResult → Outcome
  failed : String → Outcome
  panicked : String → Outcome

pub record McpTool : Type 0 where
  pub name : String
  pub description : String
  pub input_schema : String
  pub annotations : Option String
  pub handler : Option (String → Outcome)

pub record SdkMcpServer : Type 0 where
  pub name : String
  pub version : String
  pub tools : List McpTool

-- NewSDKMCPServer
unfoldable pub new_sdk_mcp_server : String → String → List McpTool → SdkMcpServer
new_sdk_mcp_server name version tools = record {
  name = name;
  version = if is_empty version then "1.0.0" else version;
  tools = tools;
}

-- rpcMessage, with JSON texts; "" for a field that is left out
pub record RpcMessage : Type 0 where
  pub id : String
  pub method : String
  pub params : String

-- The JSON-RPC error codes, which are negative
pub data Code : Type 0 where
  method_not_found : Code
  invalid_params : Code

pub record ToolEntry : Type 0 where
  pub name : String
  pub description : String
  pub input_schema : String
  pub annotations : Option String

pub data RpcPayload : Type 0 where
  initialized : String → String → String → RpcPayload
  pong : RpcPayload
  tool_list : List ToolEntry → RpcPayload
  called : McpToolResult → RpcPayload

-- What rpcResult and rpcError marshal, with the id
pub data Reply : Type 0 where
  rpc_result : String → RpcPayload → Reply
  rpc_error : String → Code → String → Reply

abbrev pub default_mcp_protocol_version : String
default_mcp_protocol_version = "2024-11-05"

-- listTools
unfoldable pub list_tools : List McpTool → List ToolEntry
list_tools tools =
    map
      (λ t. record {
        name = t.name;
        description = t.description;
        input_schema = if is_empty t.input_schema then "{\"type\":\"object\"}" else t.input_schema;
        annotations = t.annotations;
      })
      tools

-- The first tool with the name
unfoldable pub find_tool : String → List McpTool → Option McpTool
find_tool name [] = none
find_tool name (t ∷ ts) =
    let later = find_tool name ts in if str_eq t.name name then some t else later

abbrev pub error_result : String → McpToolResult
error_result text = record { content = text_content text ∷ []; is_error = true }

-- runTool and what callTool makes of it
unfoldable pub run_tool : String → Outcome → McpToolResult
run_tool name (returned r) = r
run_tool name (failed e) = error_result e
run_tool name (panicked p) =
    error_result (append "tool \"" (append name (append "\" panicked: " p)))

module _ (decode_rpc : String → String ⊎ RpcMessage) (decode_version : String → Option String)
    (decode_call : String → Option (String × String)) where
  -- callTool; decode_call gives the name and the arguments
  unfoldable pub call_tool : SdkMcpServer → RpcMessage → Reply
  call_tool s m = elim (decode_call m.params) [
    | none ↦ rpc_error m.id invalid_params "tools/call needs a tool name"
    | some call ↦
        if is_empty call.0
        then rpc_error m.id invalid_params "tools/call needs a tool name"
        else elim (find_tool call.0 s.tools) [
          | none ↦ rpc_result m.id (called (error_result (append "Unknown tool: " call.0)))
          | some tool ↦ elim tool.handler [
            | none ↦ rpc_result m.id (called (error_result (append "Unknown tool: " call.0)))
            | some handler ↦
                rpc_result m.id
                  (called (run_tool tool.name (handler (if is_empty call.1 then "{}" else call.1))))
          ]
        ]
  ]

  abbrev version_or : Option String → String
  version_or none = default_mcp_protocol_version
  version_or (some v) = if is_empty v then default_mcp_protocol_version else v

  abbrev pub is_notification : RpcMessage → Bool
  is_notification m = is_empty m.id || str_eq m.id "null"

  -- The switch of handle
  unfoldable pub dispatch : SdkMcpServer → RpcMessage → Reply
  dispatch s m =
      if str_eq m.method "initialize"
      then rpc_result m.id (initialized (version_or (decode_version m.params)) s.name s.version)
      else if str_eq m.method "ping"
      then rpc_result m.id pong
      else if str_eq m.method "tools/list"
      then rpc_result m.id (tool_list (list_tools s.tools))
      else if str_eq m.method "tools/call"
      then call_tool s m
      else rpc_error m.id method_not_found (append "Method not found: " m.method)

  -- handle: none is no reply
  unfoldable pub handle : SdkMcpServer → String → Option Reply
  handle s raw = elim (decode_rpc raw) [
    | inl e ↦ some (rpc_error "null" invalid_params (append "invalid JSON-RPC message: " e))
    | inr m ↦ if is_notification m then none else some (dispatch s m)
  ]

-- An entry of Options.MCPServers: its name and its SDK server
abbrev pub ServerConfig : Type 0
ServerConfig = String × Option SdkMcpServer

abbrev pub name_of : String → SdkMcpServer → String
name_of name s = if is_empty name then s.name else name

-- sdkServers: none of the error's, that a name is used twice
unfoldable pub sdk_servers :
    List ServerConfig → List (String × SdkMcpServer) → String ⊎ List (String × SdkMcpServer)
sdk_servers [] out = inr out
sdk_servers ((name, none) ∷ cs) out = sdk_servers cs out
sdk_servers ((name, some s) ∷ cs) out = elim (Assoc.get (name_of name s) out) [
  | some dup ↦ inl (append "two SDK MCP servers are named " (name_of name s))
  | none ↦ sdk_servers cs (Assoc.put (name_of name s) s out)
]
