-- ===== src/Agent/Options/Args/Shape.antt =====
-- How the arguments of the CLI are put together.
use claude_agent_sdk_go.Base.{
  String, ℕ, ℤ, ◌≡◌, refl, Bool, true, false, not, Option, none, some, List, [], ◌∷◌, ◌++◌, str_eq,
  contains, string_eq, if-cases,
}
use claude_agent_sdk_go.Text.{is_empty}
use claude_agent_sdk_go.Json.{Value}
use claude_agent_sdk_go.Agent.Options.{Options, McpServerConfig, AgentDefinition, TaskBudget}
use claude_agent_sdk_go.Agent.Options.Settings.{Settings, merged}
use claude_agent_sdk_go.Agent.Options.Args.{
  text_flag, bool_flag, list_flag, each_flag, int_flag, prompt_args, thinking_args, settings_args,
  task_budget_args, worktree_args, extra_args, budget_args, mcp_args, agents_args, option_args,
  args_with,
}

-- The flags of the CLI that stand alone
abbrev pub bare_flags : List String
bare_flags =
    "--continue" ∷ "--include-partial-messages" ∷ "--fork-session" ∷ "--session-mirror"
    ∷ "--no-session-persistence" ∷ "--strict-mcp-config" ∷ "--disable-slash-commands"
    ∷ "--include-hook-events" ∷ "--worktree" ∷ "--brief" ∷ "--verbose" ∷ []

-- The flags that take the next argument as their value
abbrev pub value_flags : List String
value_flags =
    "--output-format" ∷ "--system-prompt-file" ∷ "--append-system-prompt" ∷ "--system-prompt"
    ∷ "--tools" ∷ "--allowedTools" ∷ "--disallowedTools" ∷ "--max-turns" ∷ "--task-budget"
    ∷ "--max-budget-usd" ∷ "--model" ∷ "--fallback-model" ∷ "--betas" ∷ "--permission-mode"
    ∷ "--resume" ∷ "--session-id" ∷ "--settings" ∷ "--add-dir" ∷ "--mcp-config"
    ∷ "--setting-sources" ∷ "--thinking" ∷ "--thinking-display" ∷ "--max-thinking-tokens"
    ∷ "--effort" ∷ "--json-schema" ∷ "--plugin-dir" ∷ "--agents" ∷ "--plugin-url" ∷ "--from-pr"
    ∷ "--permission-prompt-tool" ∷ "--permission-prompts" ∷ "--input-format" ∷ []

-- Arguments that are flags of the CLI, each with as many values as it takes
pub data AreFlags : List String → Type 0 where
  done : AreFlags []
  bare :
      (flag : String) {rest : List String}
      → contains bare_flags flag ≡ true
      → AreFlags rest
      → AreFlags (flag ∷ rest)
  valued :
      (flag value : String) {rest : List String}
      → contains value_flags flag ≡ true
      → AreFlags rest
      → AreFlags (flag ∷ value ∷ rest)
  named_worktree :
      (name : String) {rest : List String} → AreFlags rest → AreFlags ("--worktree" ∷ name ∷ rest)

infixl 5 ◌⊕◌
◌⊕◌ : {xs ys : List String} → AreFlags xs → AreFlags ys → AreFlags (xs ++ ys)
done ⊕ q = q
bare flag h p ⊕ q = bare flag h (p ⊕ q)
valued flag value h p ⊕ q = valued flag value h (p ⊕ q)
named_worktree name p ⊕ q = named_worktree name (p ⊕ q)

text_flag-AreFlags :
    (flag s : String) → contains value_flags flag ≡ true → AreFlags (text_flag flag s)
text_flag-AreFlags flag s h = if-cases AreFlags (is_empty s) (λ _. done) (λ _. valued flag s h done)

bool_flag-AreFlags :
    (flag : String) (b : Bool) → contains bare_flags flag ≡ true → AreFlags (bool_flag flag b)
bool_flag-AreFlags flag true h = bare flag h done
bool_flag-AreFlags flag false h = done

list_flag-AreFlags :
    (flag : String) (xs : List String)
    → contains value_flags flag ≡ true
    → AreFlags (list_flag flag xs)
list_flag-AreFlags flag [] h = done
list_flag-AreFlags flag (x ∷ xs) h = valued flag _ h done

each_flag-AreFlags :
    (flag : String) (xs : List String)
    → contains value_flags flag ≡ true
    → AreFlags (each_flag flag xs)
unfolding each_flag
each_flag-AreFlags flag [] h = done
each_flag-AreFlags flag (x ∷ xs) h = valued flag x h (each_flag-AreFlags flag xs h)

int_flag-AreFlags :
    (flag : String) (n : Option ℤ) → contains value_flags flag ≡ true → AreFlags (int_flag flag n)
int_flag-AreFlags flag none h = done
int_flag-AreFlags flag (some n) h = valued flag _ h done

prompt_args-AreFlags : (opts : Options) → AreFlags (prompt_args opts)
unfolding prompt_args
prompt_args-AreFlags opts =
    if-cases AreFlags (not (is_empty opts.system_prompt_file))
      (λ _.
        valued "--system-prompt-file" _ refl
          (text_flag-AreFlags "--append-system-prompt" opts.append_system_prompt refl))
      (λ _.
        if-cases AreFlags (not (is_empty opts.append_system_prompt))
          (λ _. valued "--append-system-prompt" _ refl done)
          (λ _. valued "--system-prompt" _ refl done))

thinking_args-AreFlags : (opts : Options) → AreFlags (thinking_args opts)
unfolding thinking_args
thinking_args-AreFlags opts =
    let shown = text_flag-AreFlags "--thinking-display" opts.thinking_display refl in
    if-cases AreFlags (not (is_empty opts.thinking))
      (λ _.
        valued "--thinking" _ refl
          (if-cases AreFlags (not (str_eq opts.thinking "disabled")) (λ _. shown) (λ _. done)))
      (λ _. int_flag-AreFlags "--max-thinking-tokens" opts.max_thinking_tokens refl ⊕ shown)

settings_args-AreFlags :
    (settings : Settings) (opts : Options) → AreFlags (settings_args settings opts)
settings_args-AreFlags (merged text) opts = text_flag-AreFlags "--settings" text refl
settings_args-AreFlags _ opts = text_flag-AreFlags "--settings" opts.settings refl

task_budget_args-AreFlags : (b : Option TaskBudget) → AreFlags (task_budget_args b)
task_budget_args-AreFlags none = done
task_budget_args-AreFlags (some b) = valued "--task-budget" _ refl done

worktree_args-AreFlags : (opts : Options) → AreFlags (worktree_args opts)
unfolding worktree_args
worktree_args-AreFlags opts =
    if-cases AreFlags opts.worktree
      (λ _.
        if-cases (λ xs. AreFlags ("--worktree" ∷ xs)) (is_empty opts.worktree_name)
          (λ _. bare "--worktree" refl done) (λ _. named_worktree opts.worktree_name done))
      (λ _. done)

module _ (marshal : Value → String) (format_float : ℕ → String) where
  budget_args-AreFlags : (usd : Option ℕ) → AreFlags (budget_args marshal format_float usd)
  budget_args-AreFlags none = done
  budget_args-AreFlags (some usd) = valued "--max-budget-usd" _ refl done

  mcp_args-AreFlags : (ss : List McpServerConfig) → AreFlags (mcp_args marshal format_float ss)
  mcp_args-AreFlags [] = done
  mcp_args-AreFlags (s ∷ ss) = valued "--mcp-config" _ refl done

  agents_args-AreFlags :
      (agents : List (String × AgentDefinition))
      → AreFlags (agents_args marshal format_float agents)
  agents_args-AreFlags [] = done
  agents_args-AreFlags (a ∷ agents) = valued "--agents" _ refl done

  -- Without extra arguments, BuildCLIArgs gives flags of the CLI alone, each with its value where it
  -- takes one, whatever the options and whatever texts they hold.
  pub args_with-AreFlags :
      (settings : Settings) (opts : Options)
      → opts.extra_args ≡ []
      → AreFlags (args_with marshal format_float settings opts)
  unfolding args_with option_args extra_args
  args_with-AreFlags settings opts plain =
      let extra : AreFlags (extra_args opts.extra_args) = rw (plain, extra_args) done in
      valued "--output-format" "stream-json" refl (
        bare "--verbose" refl (
          (prompt_args-AreFlags opts
            ⊕ list_flag-AreFlags "--tools" opts.tools refl
            ⊕ list_flag-AreFlags "--allowedTools" opts.allowed_tools refl
            ⊕ list_flag-AreFlags "--disallowedTools" opts.disallowed_tools refl
            ⊕ int_flag-AreFlags "--max-turns" opts.max_turns refl
            ⊕ task_budget_args-AreFlags opts.task_budget
            ⊕ budget_args-AreFlags opts.max_budget_usd
            ⊕ text_flag-AreFlags "--model" opts.model refl
            ⊕ text_flag-AreFlags "--fallback-model" opts.fallback_model refl
            ⊕ list_flag-AreFlags "--betas" opts.betas refl
            ⊕ text_flag-AreFlags "--permission-mode" opts.permission_mode refl
            ⊕ bool_flag-AreFlags "--continue" opts.continue_session refl
            ⊕ text_flag-AreFlags "--resume" opts.resume_session_id refl
            ⊕ text_flag-AreFlags "--session-id" opts.session_id refl
            ⊕ settings_args-AreFlags settings opts
            ⊕ each_flag-AreFlags "--add-dir" opts.add_dirs refl
            ⊕ mcp_args-AreFlags opts.mcp_servers
            ⊕ bool_flag-AreFlags "--include-partial-messages" opts.include_partial_messages refl
            ⊕ bool_flag-AreFlags "--fork-session" opts.fork_session refl
            ⊕ list_flag-AreFlags "--setting-sources" opts.setting_sources refl
            ⊕ thinking_args-AreFlags opts
            ⊕ text_flag-AreFlags "--effort" opts.effort refl
            ⊕ text_flag-AreFlags "--json-schema" opts.json_schema refl
            ⊕ bool_flag-AreFlags "--session-mirror" opts.session_store refl
            ⊕ bool_flag-AreFlags "--no-session-persistence" opts.no_session_persistence refl
            ⊕ bool_flag-AreFlags "--strict-mcp-config" opts.strict_mcp_config refl
            ⊕ each_flag-AreFlags "--plugin-dir" opts.plugin_dirs refl
            ⊕ agents_args-AreFlags opts.agents
            ⊕ bool_flag-AreFlags "--disable-slash-commands" opts.disable_slash_commands refl
            ⊕ each_flag-AreFlags "--plugin-url" opts.plugin_urls refl
            ⊕ bool_flag-AreFlags "--include-hook-events" opts.include_hook_events refl
            ⊕ worktree_args-AreFlags opts
            ⊕ text_flag-AreFlags "--from-pr" opts.from_pr refl
            ⊕ text_flag-AreFlags "--permission-prompt-tool" opts.permission_prompt_tool refl
            ⊕ text_flag-AreFlags "--permission-prompts" opts.permission_prompts refl
            ⊕ bool_flag-AreFlags "--brief" opts.brief refl
            ⊕ extra)
          ⊕ valued "--input-format" "stream-json" refl done))
