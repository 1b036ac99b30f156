-- ===== src/Protocol/Events.antt =====
-- domains/protocol/lifecycle.go: the payloads of the other system messages.
use claude_agent_sdk_go.Base.{ℤ, String, Bool, Option, some, List}
use claude_agent_sdk_go.Json.{Value, Fields, get}
use claude_agent_sdk_go.Json.Decode.{
  ◌>>=◌, of_struct, of_pointer, of_slice, get_text, get_bool, get_int, get_maybe_int, get_texts,
}

-- The anonymous struct of a field
pub record ApiRetryNoResponse : Type 0 where
  pub waited_ms : ℤ
  pub retry_wait_ms : ℤ

unfoldable pub decode_api_retry_no_response : Fields → Option ApiRetryNoResponse
decode_api_retry_no_response m = do
  waited_ms ← get_int m "waited_ms"
  retry_wait_ms ← get_int m "retry_wait_ms"
  some (record { waited_ms = waited_ms; retry_wait_ms = retry_wait_ms })

-- The anonymous struct of a field
pub record CompactBoundaryCompactMetadata : Type 0 where
  pub trigger : String
  pub pre_tokens : ℤ
  pub post_tokens : ℤ
  pub duration_ms : ℤ

unfoldable pub decode_compact_boundary_compact_metadata :
    Fields → Option CompactBoundaryCompactMetadata
decode_compact_boundary_compact_metadata m = do
  trigger ← get_text m "trigger"
  pre_tokens ← get_int m "pre_tokens"
  post_tokens ← get_int m "post_tokens"
  duration_ms ← get_int m "duration_ms"
  some (record {
    trigger = trigger;
    pre_tokens = pre_tokens;
    post_tokens = post_tokens;
    duration_ms = duration_ms;
  })

pub record ApiRetryPayload : Type 0 where
  pub attempt : ℤ
  pub max_retries : ℤ
  pub retry_delay_ms : ℤ
  pub error_status : Option ℤ
  pub error : Option Value
  pub no_response : Option ApiRetryNoResponse
  pub uuid : String
  pub session_id : String

unfoldable pub decode_api_retry_payload : Fields → Option ApiRetryPayload
decode_api_retry_payload m = do
  attempt ← get_int m "attempt"
  max_retries ← get_int m "max_retries"
  retry_delay_ms ← get_int m "retry_delay_ms"
  error_status ← get_maybe_int m "error_status"
  no_response ← of_pointer (of_struct decode_api_retry_no_response) (get "no_response" m)
  uuid ← get_text m "uuid"
  session_id ← get_text m "session_id"
  some (record {
    attempt = attempt;
    max_retries = max_retries;
    retry_delay_ms = retry_delay_ms;
    error_status = error_status;
    error = get "error" m;
    no_response = no_response;
    uuid = uuid;
    session_id = session_id;
  })

pub record ThinkingTokensPayload : Type 0 where
  pub estimated_tokens : ℤ
  pub estimated_tokens_delta : ℤ
  pub user_message_uuid : String
  pub uuid : String
  pub session_id : String

unfoldable pub decode_thinking_tokens_payload : Fields → Option ThinkingTokensPayload
decode_thinking_tokens_payload m = do
  estimated_tokens ← get_int m "estimated_tokens"
  estimated_tokens_delta ← get_int m "estimated_tokens_delta"
  user_message_uuid ← get_text m "user_message_uuid"
  uuid ← get_text m "uuid"
  session_id ← get_text m "session_id"
  some (record {
    estimated_tokens = estimated_tokens;
    estimated_tokens_delta = estimated_tokens_delta;
    user_message_uuid = user_message_uuid;
    uuid = uuid;
    session_id = session_id;
  })

pub record CompactBoundaryPayload : Type 0 where
  pub compact_metadata : CompactBoundaryCompactMetadata
  pub uuid : String
  pub session_id : String

unfoldable pub decode_compact_boundary_payload : Fields → Option CompactBoundaryPayload
decode_compact_boundary_payload m = do
  compact_metadata ← of_struct decode_compact_boundary_compact_metadata (get "compact_metadata" m)
  uuid ← get_text m "uuid"
  session_id ← get_text m "session_id"
  some (record { compact_metadata = compact_metadata; uuid = uuid; session_id = session_id })

pub record InformationalPayload : Type 0 where
  pub content : String
  pub level : String
  pub prevent_continuation : Bool
  pub uuid : String
  pub session_id : String

unfoldable pub decode_informational_payload : Fields → Option InformationalPayload
decode_informational_payload m = do
  content ← get_text m "content"
  level ← get_text m "level"
  prevent_continuation ← get_bool m "prevent_continuation"
  uuid ← get_text m "uuid"
  session_id ← get_text m "session_id"
  some (record {
    content = content;
    level = level;
    prevent_continuation = prevent_continuation;
    uuid = uuid;
    session_id = session_id;
  })

pub record InitMcpServer : Type 0 where
  pub name : String
  pub status : String
  pub source : String

unfoldable pub decode_init_mcp_server : Fields → Option InitMcpServer
decode_init_mcp_server m = do
  name ← get_text m "name"
  status ← get_text m "status"
  source ← get_text m "source"
  some (record { name = name; status = status; source = source })

pub record InitPlugin : Type 0 where
  pub name : String
  pub path : String
  pub version : String

unfoldable pub decode_init_plugin : Fields → Option InitPlugin
decode_init_plugin m = do
  name ← get_text m "name"
  path ← get_text m "path"
  version ← get_text m "version"
  some (record { name = name; path = path; version = version })

pub record InitPluginError : Type 0 where
  pub plugin : String
  pub type : String
  pub message : String
  pub path : String

unfoldable pub decode_init_plugin_error : Fields → Option InitPluginError
decode_init_plugin_error m = do
  plugin ← get_text m "plugin"
  type ← get_text m "type"
  message ← get_text m "message"
  path ← get_text m "path"
  some (record { plugin = plugin; type = type; message = message; path = path })

pub record InitPayload : Type 0 where
  pub uuid : String
  pub session_id : String
  pub agents : List String
  pub api_key_source : String
  pub betas : List String
  pub claude_code_version : String
  pub cwd : String
  pub tools : List String
  pub mcp_servers : List InitMcpServer
  pub model : String
  pub permission_mode : String
  pub slash_commands : List String
  pub terminal_slash_commands : List String
  pub output_style : String
  pub skills : List String
  pub plugins : List InitPlugin
  pub plugin_errors : List InitPluginError
  pub fast_mode_state : String
  pub fast_mode_disabled_reason : String
  pub capabilities : List String

unfoldable pub decode_init_payload : Fields → Option InitPayload
decode_init_payload m = do
  uuid ← get_text m "uuid"
  session_id ← get_text m "session_id"
  agents ← get_texts m "agents"
  api_key_source ← get_text m "apiKeySource"
  betas ← get_texts m "betas"
  claude_code_version ← get_text m "claude_code_version"
  cwd ← get_text m "cwd"
  tools ← get_texts m "tools"
  mcp_servers ← of_slice (of_struct decode_init_mcp_server) (get "mcp_servers" m)
  model ← get_text m "model"
  permission_mode ← get_text m "permissionMode"
  slash_commands ← get_texts m "slash_commands"
  terminal_slash_commands ← get_texts m "terminal_slash_commands"
  output_style ← get_text m "output_style"
  skills ← get_texts m "skills"
  plugins ← of_slice (of_struct decode_init_plugin) (get "plugins" m)
  plugin_errors ← of_slice (of_struct decode_init_plugin_error) (get "plugin_errors" m)
  fast_mode_state ← get_text m "fast_mode_state"
  fast_mode_disabled_reason ← get_text m "fast_mode_disabled_reason"
  capabilities ← get_texts m "capabilities"
  some (record {
    uuid = uuid;
    session_id = session_id;
    agents = agents;
    api_key_source = api_key_source;
    betas = betas;
    claude_code_version = claude_code_version;
    cwd = cwd;
    tools = tools;
    mcp_servers = mcp_servers;
    model = model;
    permission_mode = permission_mode;
    slash_commands = slash_commands;
    terminal_slash_commands = terminal_slash_commands;
    output_style = output_style;
    skills = skills;
    plugins = plugins;
    plugin_errors = plugin_errors;
    fast_mode_state = fast_mode_state;
    fast_mode_disabled_reason = fast_mode_disabled_reason;
    capabilities = capabilities;
  })
