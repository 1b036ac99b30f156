-- ===== src/Agent/Options.antt =====
-- domains/agent/options.go and sandbox.go: the settings of a session. Of a store, a transport or a
-- permission callback the options say here whether it is set, of a *float64 the bits; a map is the list
-- of its entries in the order that `range` takes them. Hooks are left out: no flag depends on them.
pub mod Settings
pub mod Args
pub mod Shadow
use claude_agent_sdk_go.Base.{ℤ, ℕ, String, Bool, Option, List}
use claude_agent_sdk_go.Agent.McpServer.{SdkMcpServer}

pub record AgentDefinition : Type 0 where
  pub description : String
  pub prompt : String

pub record McpServerConfig : Type 0 where
  pub name : String
  pub type : String
  pub command : String
  pub args : List String
  pub env : List (String × String)
  pub url : String
  pub sdk : Option SdkMcpServer

pub record TaskBudget : Type 0 where
  pub total : ℤ

pub record SandboxNetworkConfig : Type 0 where
  pub allowed_domains : List String
  pub denied_domains : List String
  pub allow_managed_domains_only : Option Bool
  pub allow_unix_sockets : List String
  pub allow_all_unix_sockets : Option Bool
  pub allow_local_binding : Option Bool
  pub allow_mach_lookup : List String
  pub http_proxy_port : Option ℤ
  pub socks_proxy_port : Option ℤ

pub record SandboxIgnoreViolations : Type 0 where
  pub file : List String
  pub network : List String

pub record SandboxSettings : Type 0 where
  pub enabled : Option Bool
  pub auto_allow_bash_if_sandboxed : Option Bool
  pub excluded_commands : List String
  pub allow_unsandboxed_commands : Option Bool
  pub network : Option SandboxNetworkConfig
  pub ignore_violations : Option SandboxIgnoreViolations
  pub enable_weaker_nested_sandbox : Option Bool

pub record Options : Type 0 where
  pub session_id : String
  pub continue_session : Bool
  pub resume_session_id : String
  pub fork_session : Bool
  pub model : String
  pub fallback_model : String
  pub max_turns : Option ℤ
  pub max_budget_usd : Option ℕ
  pub task_budget : Option TaskBudget
  pub system_prompt : String
  pub append_system_prompt : String
  pub system_prompt_file : String
  pub allowed_tools : List String
  pub disallowed_tools : List String
  pub tools : List String
  pub permission_mode : String
  pub working_directory : String
  pub add_dirs : List String
  pub mcp_servers : List McpServerConfig
  pub include_partial_messages : Bool
  pub setting_sources : List String
  pub settings : String
  pub sandbox : Option SandboxSettings
  pub betas : List String
  pub max_thinking_tokens : Option ℤ
  pub effort : String
  pub thinking : String
  pub thinking_display : String
  pub json_schema : String
  pub no_session_persistence : Bool
  pub session_store : Bool
  pub session_store_flush : Bool
  pub strict_mcp_config : Bool
  pub plugin_dirs : List String
  pub agents : List (String × AgentDefinition)
  pub disable_slash_commands : Bool
  pub plugin_urls : List String
  pub worktree : Bool
  pub worktree_name : String
  pub from_pr : String
  pub permission_prompt_tool : String
  pub permission_prompts : String
  pub brief : Bool
  pub include_hook_events : Bool
  pub extra_args : List (String × String)
  pub tool_permission_handler : Bool
  pub tool_permission_func : Bool
  pub transport : Bool
  pub cli_path : String
  pub env : List (String × String)
  pub require_minimum_cli_version : Bool
