-- ===== src/Messages/Events.antt =====
-- domains/messages: retries, thinking, compaction, information and the session's start (apiretry.go,
-- thinking.go, compact.go, informational.go, init.go) and what they take from their payloads.
use claude_agent_sdk_go.Base.{ℤ, String, Bool, Option, none, some, List, map, pos, milliseconds}
use claude_agent_sdk_go.Json.{Value, null, str}
use claude_agent_sdk_go.Protocol.Events.{
  ApiRetryNoResponse as WireNoResponse, ApiRetryPayload, ThinkingTokensPayload,
  CompactBoundaryPayload, InformationalPayload, InitMcpServer, InitPlugin, InitPluginError,
  InitPayload,
}

pub record ApiRetryNoResponse : Type 0 where
  pub waited : ℤ
  pub retry_wait : ℤ

pub record ApiRetryMessage : Type 0 where
  pub attempt : ℤ
  pub max_retries : ℤ
  pub retry_delay : ℤ
  pub error_status : ℤ
  pub error : String
  pub no_response : Option ApiRetryNoResponse
  pub uuid : String
  pub session_id : String

pub record ThinkingTokensMessage : Type 0 where
  pub estimated_tokens : ℤ
  pub delta : ℤ
  pub user_message_uuid : String
  pub uuid : String
  pub session_id : String

pub record CompactBoundaryMessage : Type 0 where
  pub trigger : String
  pub pre_tokens : ℤ
  pub post_tokens : ℤ
  pub duration : ℤ
  pub uuid : String
  pub session_id : String

pub record InformationalMessage : Type 0 where
  pub content : String
  pub level : String
  pub prevent_continuation : Bool
  pub uuid : String
  pub session_id : String

pub record SystemInitMcpServer : Type 0 where
  pub name : String
  pub status : String
  pub source : String

pub record SystemInitPlugin : Type 0 where
  pub name : String
  pub path : String
  pub version : String

pub record SystemInitPluginError : Type 0 where
  pub plugin : String
  pub type : String
  pub message : String
  pub path : String

pub record SystemInitMessage : Type 0 where
  pub uuid : String
  pub session_id : String
  pub agents : List String
  pub api_key_source : String
  pub betas : List String
  pub claude_code_version : String
  pub cwd : String
  pub tools : List String
  pub mcp_servers : List SystemInitMcpServer
  pub model : String
  pub permission_mode : String
  pub slash_commands : List String
  pub terminal_slash_commands : List String
  pub output_style : String
  pub skills : List String
  pub plugins : List SystemInitPlugin
  pub plugin_errors : List SystemInitPluginError
  pub fast_mode_state : String
  pub fast_mode_disabled_reason : String
  pub capabilities : List String

-- The name of the error: a string's own text, any other value but null as it is spelled
unfoldable pub retry_error : (Value → String) → Option Value → String
retry_error spell none = ""
retry_error spell (some null) = ""
retry_error spell (some (str s)) = s
retry_error spell (some v) = spell v

abbrev pub int_or_zero : Option ℤ → ℤ
int_or_zero none = pos 0
int_or_zero (some n) = n

abbrev pub no_response_from_wire : Option WireNoResponse → Option ApiRetryNoResponse
no_response_from_wire none = none
no_response_from_wire (some r) =
    some (record { waited = milliseconds r.waited_ms; retry_wait = milliseconds r.retry_wait_ms })

-- apiRetryFromWire, where `spell` is the text of a json.RawMessage
unfoldable pub api_retry_from_wire : (Value → String) → ApiRetryPayload → ApiRetryMessage
api_retry_from_wire spell p = record {
  attempt = p.attempt;
  max_retries = p.max_retries;
  retry_delay = milliseconds p.retry_delay_ms;
  error_status = int_or_zero p.error_status;
  error = retry_error spell p.error;
  no_response = no_response_from_wire p.no_response;
  uuid = p.uuid;
  session_id = p.session_id;
}

unfoldable pub thinking_tokens_from_wire : ThinkingTokensPayload → ThinkingTokensMessage
thinking_tokens_from_wire p = record {
  estimated_tokens = p.estimated_tokens;
  delta = p.estimated_tokens_delta;
  user_message_uuid = p.user_message_uuid;
  uuid = p.uuid;
  session_id = p.session_id;
}

unfoldable pub compact_boundary_from_wire : CompactBoundaryPayload → CompactBoundaryMessage
compact_boundary_from_wire p = record {
  trigger = p.compact_metadata.trigger;
  pre_tokens = p.compact_metadata.pre_tokens;
  post_tokens = p.compact_metadata.post_tokens;
  duration = milliseconds p.compact_metadata.duration_ms;
  uuid = p.uuid;
  session_id = p.session_id;
}

unfoldable pub informational_from_wire : InformationalPayload → InformationalMessage
informational_from_wire p = record {
  content = p.content;
  level = p.level;
  prevent_continuation = p.prevent_continuation;
  uuid = p.uuid;
  session_id = p.session_id;
}

unfoldable pub init_mcp_server_from_wire : InitMcpServer → SystemInitMcpServer
init_mcp_server_from_wire s = record { name = s.name; status = s.status; source = s.source }

unfoldable pub init_plugin_from_wire : InitPlugin → SystemInitPlugin
init_plugin_from_wire p = record { name = p.name; path = p.path; version = p.version }

unfoldable pub init_plugin_error_from_wire : InitPluginError → SystemInitPluginError
init_plugin_error_from_wire e = record {
  plugin = e.plugin;
  type = e.type;
  message = e.message;
  path = e.path;
}

-- initFromWire
unfoldable pub init_from_wire : InitPayload → SystemInitMessage
init_from_wire p = record {
  uuid = p.uuid;
  session_id = p.session_id;
  agents = p.agents;
  api_key_source = p.api_key_source;
  betas = p.betas;
  claude_code_version = p.claude_code_version;
  cwd = p.cwd;
  tools = p.tools;
  mcp_servers = map init_mcp_server_from_wire p.mcp_servers;
  model = p.model;
  permission_mode = p.permission_mode;
  slash_commands = p.slash_commands;
  terminal_slash_commands = p.terminal_slash_commands;
  output_style = p.output_style;
  skills = p.skills;
  plugins = map init_plugin_from_wire p.plugins;
  plugin_errors = map init_plugin_error_from_wire p.plugin_errors;
  fast_mode_state = p.fast_mode_state;
  fast_mode_disabled_reason = p.fast_mode_disabled_reason;
  capabilities = p.capabilities;
}
