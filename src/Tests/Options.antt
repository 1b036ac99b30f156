-- ===== src/Tests/Options.antt =====
-- Options, their arguments and the warning on them.
use claude_agent_sdk_go.Base.{
  String, pos, ◌≡◌, ◌↔◌, refl, true, false, Option, none, some, List, [], ◌∷◌, str_eq, string_eq,
  if◌then◌else◌,
}
use claude_agent_sdk_go.Base.Once.{Once, gather}
use claude_agent_sdk_go.Text.{
  is_empty, trim_space, trim_left, trim_right, is_space, has_prefix, cut_prefix, cut, has_suffix,
  trim_suffix,
}
use claude_agent_sdk_go.Json.{Value, Fields, null, str, obj, end, field}
use claude_agent_sdk_go.Agent.Options.{Options, SandboxSettings}
use claude_agent_sdk_go.Agent.Options.Settings.{
  merged, panicked, with_sandbox, merge_value, merge_settings, merged_settings,
}
use claude_agent_sdk_go.Agent.Options.Settings.Merged.{
  source_of, IsBase, IsMerge, merged_settings-Merges, merged_settings_panics,
}
use claude_agent_sdk_go.Agent.Options.Args.{args_with}
use claude_agent_sdk_go.Agent.Options.Args.Shape.{AreFlags, args_with-AreFlags}
use claude_agent_sdk_go.Agent.Options.Shadow.{whole_tool_allowed, shadowed_onto}

-- Options{}
abbrev no_options : Options
no_options = record {
  session_id = "";
  continue_session = false;
  resume_session_id = "";
  fork_session = false;
  model = "";
  fallback_model = "";
  max_turns = none;
  max_budget_usd = none;
  task_budget = none;
  system_prompt = "";
  append_system_prompt = "";
  system_prompt_file = "";
  allowed_tools = [];
  disallowed_tools = [];
  tools = [];
  permission_mode = "";
  working_directory = "";
  add_dirs = [];
  mcp_servers = [];
  include_partial_messages = false;
  setting_sources = [];
  settings = "";
  sandbox = none;
  betas = [];
  max_thinking_tokens = none;
  effort = "";
  thinking = "";
  thinking_display = "";
  json_schema = "";
  no_session_persistence = false;
  session_store = false;
  session_store_flush = false;
  strict_mcp_config = false;
  plugin_dirs = [];
  agents = [];
  disable_slash_commands = false;
  plugin_urls = [];
  worktree = false;
  worktree_name = "";
  from_pr = "";
  permission_prompt_tool = "";
  permission_prompts = "";
  brief = false;
  include_hook_events = false;
  extra_args = [];
  tool_permission_handler = false;
  tool_permission_func = false;
  transport = false;
  cli_path = "";
  env = [];
  require_minimum_cli_version = false;
}

abbrev sandbox : SandboxSettings
sandbox = record {
  enabled = some true;
  auto_allow_bash_if_sandboxed = none;
  excluded_commands = [];
  allow_unsandboxed_commands = none;
  network = none;
  ignore_violations = none;
  enable_weaker_nested_sandbox = none;
}

abbrev sandboxed : Options
sandboxed = record no_options {
  sandbox = some sandbox;
  settings = " {} ";
  model = "opus";
  max_turns = some (pos 12);
}

-- {"theme": "dark"}
abbrev theme : Fields
theme = field "theme" (str "dark") end

abbrev parse_json : String → Option Value
parse_json s =
    if str_eq s "{}" then some (obj theme) else if str_eq s "null" then some null else none

abbrev marshal : Value → String
marshal v = "json"

abbrev read_file : String → Option String
read_file path = if str_eq path "settings.json" then some "null" else none

merged_settings-Merges_example :
    (m : Fields) × IsBase parse_json marshal read_file (trim_space " {} ") m
    × IsMerge parse_json marshal read_file sandbox m "json"
unfolding merged_settings merge_settings merge_value with_sandbox trim_space trim_left trim_right
    is_space has_prefix cut_prefix
merged_settings-Merges_example =
    merged_settings-Merges parse_json marshal read_file sandboxed sandbox "json" refl refl

-- A settings file whose text is null
abbrev null_file : Options
null_file = record no_options { sandbox = some sandbox; settings = "settings.json" }

null_file_panics : merged_settings parse_json marshal read_file null_file ≡ panicked
unfolding merged_settings merge_settings merge_value trim_space trim_left trim_right is_space
    has_prefix cut_prefix
null_file_panics = refl

merged_settings_panics_example :
    (merged_settings parse_json marshal read_file null_file ≡ panicked) ↔ (
      (raw : String) × (is_empty (trim_space "settings.json") ≡ false)
      × (source_of parse_json marshal read_file (trim_space "settings.json") ≡ some raw)
      × (parse_json raw ≡ some null))
merged_settings_panics_example =
    merged_settings_panics parse_json marshal read_file null_file sandbox refl

args_with-AreFlags_example : AreFlags (args_with marshal (λ x. "0.5") (merged "json") sandboxed)
args_with-AreFlags_example = args_with-AreFlags marshal (λ x. "0.5") (merged "json") sandboxed refl

abbrev entries : List String
entries = "Bash" ∷ "Read(*)" ∷ "Bash()" ∷ "Write(src/**)" ∷ []

entries_shadow : shadowed_onto [] entries ≡ "Bash" ∷ "Read" ∷ []
unfolding shadowed_onto gather whole_tool_allowed trim_space trim_left trim_right is_space cut
    cut_prefix has_suffix trim_suffix
entries_shadow = refl
