-- ===== src/Agent/Options/Args.antt =====
-- domains/agent/options.go: BuildCLIArgs. A JSON value is written by `marshal`, a float64 by `format_float`
-- from its bits, and mergedSettings is in Options/Settings.
pub mod Shape
use Prim.Native.String.{◌++◌ as append}
use claude_agent_sdk_go.Base.{
  String, ℕ, ℤ, Bool, true, false, not, ◌&&◌, Option, none, some, List, [], ◌∷◌, ◌++◌, map, str_eq,
  if◌then◌else◌,
}
use claude_agent_sdk_go.Text.{is_empty}
use claude_agent_sdk_go.Text.Parts.{join}
use claude_agent_sdk_go.Text.Numbers.{itoa}
use claude_agent_sdk_go.Json.{Value, Fields, str, obj, arr, end, field, put, of_list}
use claude_agent_sdk_go.Json.Encode.{fields_of, omit_text, omit_nil}
use claude_agent_sdk_go.Agent.Options.{Options, McpServerConfig, AgentDefinition, TaskBudget}
use claude_agent_sdk_go.Agent.Options.Settings.{Settings, merged, panicked}

-- if s != "" { args = append(args, flag, s) }
abbrev pub text_flag : String → String → List String
text_flag flag s = if is_empty s then [] else flag ∷ s ∷ []

-- if b { args = append(args, flag) }
abbrev pub bool_flag : String → Bool → List String
bool_flag flag b = if b then flag ∷ [] else []

-- if len(xs) > 0 { args = append(args, flag, strings.Join(xs, ",")) }
abbrev pub list_flag : String → List String → List String
list_flag flag [] = []
list_flag flag (x ∷ xs) = flag ∷ join "," (x ∷ xs) ∷ []

-- for _, x := range xs { args = append(args, flag, x) }
unfoldable pub each_flag : String → List String → List String
each_flag flag [] = []
each_flag flag (x ∷ xs) = flag ∷ x ∷ each_flag flag xs

abbrev pub int_flag : String → Option ℤ → List String
int_flag flag none = []
int_flag flag (some n) = flag ∷ itoa n ∷ []

-- The system prompt is always set
unfoldable pub prompt_args : Options → List String
prompt_args opts =
    if not (is_empty opts.system_prompt_file)
    then "--system-prompt-file"
      ∷ opts.system_prompt_file
      ∷ text_flag "--append-system-prompt" opts.append_system_prompt
    else if not (is_empty opts.append_system_prompt)
    then "--append-system-prompt" ∷ opts.append_system_prompt ∷ []
    else "--system-prompt" ∷ opts.system_prompt ∷ []

unfoldable pub thinking_args : Options → List String
thinking_args opts =
    if not (is_empty opts.thinking)
    then "--thinking"
      ∷ opts.thinking
      ∷ (if not (str_eq opts.thinking "disabled")
          then text_flag "--thinking-display" opts.thinking_display
          else [])
    else int_flag "--max-thinking-tokens" opts.max_thinking_tokens
      ++ text_flag "--thinking-display" opts.thinking_display

-- Where mergedSettings fails, the settings are sent as they are
abbrev pub settings_args : Settings → Options → List String
settings_args (merged settings) opts = text_flag "--settings" settings
settings_args _ opts = text_flag "--settings" opts.settings

abbrev pub task_budget_args : Option TaskBudget → List String
task_budget_args none = []
task_budget_args (some b) = "--task-budget" ∷ itoa b.total ∷ []

-- The entries of a map[string]string
unfoldable pub env_fields : List (String × String) → Fields
env_fields [] = end
env_fields ((k, v) ∷ env) = put k (str v) (env_fields env)

abbrev pub env_value : List (String × String) → Option Value
env_value [] = none
env_value env = some (obj (env_fields env))

unfoldable pub server_fields : McpServerConfig → Fields
server_fields s = elim s.sdk [
  | some server ↦ fields_of (("type", some (str "sdk")) ∷ ("name", some (str s.name)) ∷ [])
  | none ↦ fields_of (
      ("type", omit_text s.type)
      ∷ ("command", omit_text s.command)
      ∷ ("args", omit_nil s.args)
      ∷ ("env", env_value s.env)
      ∷ ("url", omit_text s.url)
      ∷ [])
]

-- servers[s.Name] = cfg for each server in turn
unfoldable pub servers_onto : Fields → List McpServerConfig → Fields
servers_onto m [] = m
servers_onto m (s ∷ ss) = servers_onto (put s.name (obj (server_fields s)) m) ss

unfoldable pub agents_fields : List (String × AgentDefinition) → Fields
agents_fields [] = end
agents_fields ((name, a) ∷ more) =
    put name
      (obj (
        fields_of
          (("description", some (str a.description)) ∷ ("prompt", some (str a.prompt)) ∷ [])))
      (agents_fields more)

unfoldable pub worktree_args : Options → List String
worktree_args opts =
    if opts.worktree
    then "--worktree" ∷ (if is_empty opts.worktree_name then [] else opts.worktree_name ∷ [])
    else []

-- The arbitrary flags, in the order that `range` takes the map
unfoldable pub extra_args : List (String × String) → List String
extra_args [] = []
extra_args ((k, v) ∷ kvs) = append "--" k ∷ (if is_empty v then [] else v ∷ []) ++ extra_args kvs

module _ (marshal : Value → String) (format_float : ℕ → String) where
  abbrev pub budget_args : Option ℕ → List String
  budget_args none = []
  budget_args (some usd) = "--max-budget-usd" ∷ format_float usd ∷ []

  abbrev pub mcp_args : List McpServerConfig → List String
  mcp_args [] = []
  mcp_args ss =
      "--mcp-config" ∷ marshal (obj (field "mcpServers" (obj (servers_onto end ss)) end)) ∷ []

  abbrev pub agents_args : List (String × AgentDefinition) → List String
  agents_args [] = []
  agents_args agents = "--agents" ∷ marshal (obj (agents_fields agents)) ∷ []

  -- The flags between the first and the last
  unfoldable pub option_args : Settings → Options → List String
  option_args settings opts =
      prompt_args opts
      ++ list_flag "--tools" opts.tools
      ++ list_flag "--allowedTools" opts.allowed_tools
      ++ list_flag "--disallowedTools" opts.disallowed_tools
      ++ int_flag "--max-turns" opts.max_turns
      ++ task_budget_args opts.task_budget
      ++ budget_args opts.max_budget_usd
      ++ text_flag "--model" opts.model
      ++ text_flag "--fallback-model" opts.fallback_model
      ++ list_flag "--betas" opts.betas
      ++ text_flag "--permission-mode" opts.permission_mode
      ++ bool_flag "--continue" opts.continue_session
      ++ text_flag "--resume" opts.resume_session_id
      ++ text_flag "--session-id" opts.session_id
      ++ settings_args settings opts
      ++ each_flag "--add-dir" opts.add_dirs
      ++ mcp_args opts.mcp_servers
      ++ bool_flag "--include-partial-messages" opts.include_partial_messages
      ++ bool_flag "--fork-session" opts.fork_session
      ++ list_flag "--setting-sources" opts.setting_sources
      ++ thinking_args opts
      ++ text_flag "--effort" opts.effort
      ++ text_flag "--json-schema" opts.json_schema
      ++ bool_flag "--session-mirror" opts.session_store
      ++ bool_flag "--no-session-persistence" opts.no_session_persistence
      ++ bool_flag "--strict-mcp-config" opts.strict_mcp_config
      ++ each_flag "--plugin-dir" opts.plugin_dirs
      ++ agents_args opts.agents
      ++ bool_flag "--disable-slash-commands" opts.disable_slash_commands
      ++ each_flag "--plugin-url" opts.plugin_urls
      ++ bool_flag "--include-hook-events" opts.include_hook_events
      ++ worktree_args opts
      ++ text_flag "--from-pr" opts.from_pr
      ++ text_flag "--permission-prompt-tool" opts.permission_prompt_tool
      ++ text_flag "--permission-prompts" opts.permission_prompts
      ++ bool_flag "--brief" opts.brief
      ++ extra_args opts.extra_args

  -- All of them, with what mergedSettings gave
  unfoldable pub args_with : Settings → Options → List String
  args_with settings opts =
      "--output-format" ∷ "stream-json" ∷ "--verbose" ∷ option_args settings opts
      ++ "--input-format" ∷ "stream-json" ∷ []

  -- BuildCLIArgs; none is the panic of mergedSettings
  unfoldable pub build_cli_args : (Options → Settings) → Options → Option (List String)
  build_cli_args merged_settings opts = elim (merged_settings opts) [
    | panicked ↦ none
    | settings ↦ some (args_with settings opts)
  ]
