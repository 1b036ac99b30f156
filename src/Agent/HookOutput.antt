-- ===== src/Agent/HookOutput.antt =====
-- domains/agent/hookoutput.go: the typed outputs of hooks, and the maps that they become. A map that is
-- nil is none. A value json can encode is a Value; `marshal` and `parse_json` are encoding/json on
-- texts, none for an error.
pub mod Sent
use claude_agent_sdk_go.Base.{
  ℕ, String, ◌≡◌, refl, Bool, true, false, Option, none, some, List, [], ◌∷◌, map, ℤ, pos, eq_ℤ,
  str_eq, if◌then◌else◌,
}
use claude_agent_sdk_go.Json.{
  Value, Fields, null, bool, int64, int, str, obj, end, get, put, get-put, of_list,
}
use claude_agent_sdk_go.Json.Encode.{
  Member, fields_of, omit_text, omit_false, omit_nil, omit_end, maybe_bool,
}

abbrev omit_map : Option Fields → Option Value
omit_map none = none
omit_map (some m) = omit_end m

abbrev some_map : Option Fields → Option Value
some_map none = some null
some_map (some m) = some (obj m)

pub record PreToolUseOutput : Type 0 where
  pub permission_decision : String
  pub permission_decision_reason : String
  pub updated_input : Option Fields
  pub additional_context : String

pub record PostToolUseOutput : Type 0 where
  pub additional_context : String
  pub updated_tool_output : Option Value
  pub updated_mcp_tool_output : Option Value

pub record PostToolUseFailureOutput : Type 0 where
  pub additional_context : String

pub record UserPromptSubmitOutput : Type 0 where
  pub additional_context : String
  pub session_title : String
  pub suppress_original_prompt : Bool

pub record UserPromptExpansionOutput : Type 0 where
  pub additional_context : String
  pub suppress_original_prompt : Bool

pub record SessionStartOutput : Type 0 where
  pub additional_context : String
  pub initial_user_message : String
  pub session_title : String
  pub watch_paths : List String
  pub reload_skills : Bool

pub record NotificationOutput : Type 0 where
  pub additional_context : String

pub record SubagentStartOutput : Type 0 where
  pub additional_context : String

pub record PermissionRequestOutput : Type 0 where
  pub decision : Option Fields

pub record PostToolBatchOutput : Type 0 where
  pub additional_context : String

pub record StopOutput : Type 0 where
  pub additional_context : String

pub record SubagentStopOutput : Type 0 where
  pub additional_context : String

pub record PermissionDeniedOutput : Type 0 where
  pub retry : Bool

pub record PreModelSwitchOutput : Type 0 where
  pub permission_decision : String
  pub permission_decision_reason : String

pub record PostModelSwitchOutput : Type 0 where
  pub additional_context : String

pub record ElicitationOutput : Type 0 where
  pub action : String
  pub content : Option Fields

pub record ElicitationResultOutput : Type 0 where
  pub action : String
  pub content : Option Fields

pub record CwdChangedOutput : Type 0 where
  pub watch_paths : List String

pub record FileChangedOutput : Type 0 where
  pub watch_paths : List String

pub record WorktreeCreateOutput : Type 0 where
  pub worktree_path : String

pub record MessageDisplayOutput : Type 0 where
  pub display_content : String

-- The interface HookSpecificOutput, by the types that implement it
pub data HookSpecificOutput : Type 0 where
  pre_tool_use_output : PreToolUseOutput → HookSpecificOutput
  post_tool_use_output : PostToolUseOutput → HookSpecificOutput
  post_tool_use_failure_output : PostToolUseFailureOutput → HookSpecificOutput
  user_prompt_submit_output : UserPromptSubmitOutput → HookSpecificOutput
  user_prompt_expansion_output : UserPromptExpansionOutput → HookSpecificOutput
  session_start_output : SessionStartOutput → HookSpecificOutput
  notification_output : NotificationOutput → HookSpecificOutput
  subagent_start_output : SubagentStartOutput → HookSpecificOutput
  permission_request_output : PermissionRequestOutput → HookSpecificOutput
  post_tool_batch_output : PostToolBatchOutput → HookSpecificOutput
  stop_output : StopOutput → HookSpecificOutput
  subagent_stop_output : SubagentStopOutput → HookSpecificOutput
  permission_denied_output : PermissionDeniedOutput → HookSpecificOutput
  pre_model_switch_output : PreModelSwitchOutput → HookSpecificOutput
  post_model_switch_output : PostModelSwitchOutput → HookSpecificOutput
  elicitation_output : ElicitationOutput → HookSpecificOutput
  elicitation_result_output : ElicitationResultOutput → HookSpecificOutput
  cwd_changed_output : CwdChangedOutput → HookSpecificOutput
  file_changed_output : FileChangedOutput → HookSpecificOutput
  worktree_create_output : WorktreeCreateOutput → HookSpecificOutput
  message_display_output : MessageDisplayOutput → HookSpecificOutput

-- hookEvent
unfoldable pub hook_event : HookSpecificOutput → String
hook_event (pre_tool_use_output _) = "PreToolUse"
hook_event (post_tool_use_output _) = "PostToolUse"
hook_event (post_tool_use_failure_output _) = "PostToolUseFailure"
hook_event (user_prompt_submit_output _) = "UserPromptSubmit"
hook_event (user_prompt_expansion_output _) = "UserPromptExpansion"
hook_event (session_start_output _) = "SessionStart"
hook_event (notification_output _) = "Notification"
hook_event (subagent_start_output _) = "SubagentStart"
hook_event (permission_request_output _) = "PermissionRequest"
hook_event (post_tool_batch_output _) = "PostToolBatch"
hook_event (stop_output _) = "Stop"
hook_event (subagent_stop_output _) = "SubagentStop"
hook_event (permission_denied_output _) = "PermissionDenied"
hook_event (pre_model_switch_output _) = "PreModelSwitch"
hook_event (post_model_switch_output _) = "PostModelSwitch"
hook_event (elicitation_output _) = "Elicitation"
hook_event (elicitation_result_output _) = "ElicitationResult"
hook_event (cwd_changed_output _) = "CwdChanged"
hook_event (file_changed_output _) = "FileChanged"
hook_event (worktree_create_output _) = "WorktreeCreate"
hook_event (message_display_output _) = "MessageDisplay"

-- The members that json.Marshal writes
unfoldable pub members_of : HookSpecificOutput → List Member
members_of (pre_tool_use_output o) =
    ("permissionDecision", omit_text o.permission_decision)
    ∷ ("permissionDecisionReason", omit_text o.permission_decision_reason)
    ∷ ("updatedInput", omit_map o.updated_input)
    ∷ ("additionalContext", omit_text o.additional_context)
    ∷ []
members_of (post_tool_use_output o) =
    ("additionalContext", omit_text o.additional_context)
    ∷ ("updatedToolOutput", o.updated_tool_output)
    ∷ ("updatedMCPToolOutput", o.updated_mcp_tool_output)
    ∷ []
members_of (post_tool_use_failure_output o) =
    ("additionalContext", omit_text o.additional_context) ∷ []
members_of (user_prompt_submit_output o) =
    ("additionalContext", omit_text o.additional_context)
    ∷ ("sessionTitle", omit_text o.session_title)
    ∷ ("suppressOriginalPrompt", omit_false o.suppress_original_prompt)
    ∷ []
members_of (user_prompt_expansion_output o) =
    ("additionalContext", omit_text o.additional_context)
    ∷ ("suppressOriginalPrompt", omit_false o.suppress_original_prompt)
    ∷ []
members_of (session_start_output o) =
    ("additionalContext", omit_text o.additional_context)
    ∷ ("initialUserMessage", omit_text o.initial_user_message)
    ∷ ("sessionTitle", omit_text o.session_title)
    ∷ ("watchPaths", omit_nil o.watch_paths)
    ∷ ("reloadSkills", omit_false o.reload_skills)
    ∷ []
members_of (notification_output o) = ("additionalContext", omit_text o.additional_context) ∷ []
members_of (subagent_start_output o) = ("additionalContext", omit_text o.additional_context) ∷ []
members_of (permission_request_output o) = ("decision", some_map o.decision) ∷ []
members_of (post_tool_batch_output o) = ("additionalContext", omit_text o.additional_context) ∷ []
members_of (stop_output o) = ("additionalContext", omit_text o.additional_context) ∷ []
members_of (subagent_stop_output o) = ("additionalContext", omit_text o.additional_context) ∷ []
members_of (permission_denied_output o) = ("retry", omit_false o.retry) ∷ []
members_of (pre_model_switch_output o) =
    ("permissionDecision", omit_text o.permission_decision)
    ∷ ("permissionDecisionReason", omit_text o.permission_decision_reason)
    ∷ []
members_of (post_model_switch_output o) = ("additionalContext", omit_text o.additional_context) ∷ []
members_of (elicitation_output o) =
    ("action", omit_text o.action) ∷ ("content", omit_map o.content) ∷ []
members_of (elicitation_result_output o) =
    ("action", omit_text o.action) ∷ ("content", omit_map o.content) ∷ []
members_of (cwd_changed_output o) = ("watchPaths", omit_nil o.watch_paths) ∷ []
members_of (file_changed_output o) = ("watchPaths", omit_nil o.watch_paths) ∷ []
members_of (worktree_create_output o) = ("worktreePath", some (str o.worktree_path)) ∷ []
members_of (message_display_output o) = ("displayContent", omit_text o.display_content) ∷ []

pub record AsyncHookJsonOutput : Type 0 where
  pub async_timeout : ℤ

-- AsyncHookJSONOutput.Map
unfoldable pub async_map : AsyncHookJsonOutput → Fields
async_map a =
    let m = put "async" (bool true) end in
    if eq_ℤ a.async_timeout (pos 0) then m else put "asyncTimeout" (int a.async_timeout) m

pub record SyncHookJsonOutput : Type 0 where
  pub continue : Option Bool
  pub suppress_output : Bool
  pub stop_reason : String
  pub decision : String
  pub system_message : String
  pub reason : String
  pub hook_specific_output : Option HookSpecificOutput

unfoldable pub sync_members : SyncHookJsonOutput → List Member
sync_members o =
    ("continue", maybe_bool o.continue)
    ∷ ("suppressOutput", omit_false o.suppress_output)
    ∷ ("stopReason", omit_text o.stop_reason)
    ∷ ("decision", omit_text o.decision)
    ∷ ("systemMessage", omit_text o.system_message)
    ∷ ("reason", omit_text o.reason)
    ∷ []

-- The map that Unmarshal fills, where it fails or there is no text none of it
abbrev map_or_end : Option Value → Fields
map_or_end (some (obj m)) = m
map_or_end _ = end

abbrev unmarshalled : (String → Option Value) → Option String → Fields
unmarshalled parse_json none = end
unmarshalled parse_json (some s) = map_or_end (parse_json s)

module _ (marshal : Value → Option String) (parse_json : String → Option Value) where
  -- toMap
  unfoldable pub to_map : List Member → Fields
  to_map ms = unmarshalled parse_json (marshal (obj (fields_of ms)))

  -- The map of an event-specific part
  unfoldable pub specific_map : HookSpecificOutput → Fields
  unfolding to_map
  specific_map h = put "hookEventName" (str (hook_event h)) (to_map (members_of h))

  abbrev pub with_specific : Option HookSpecificOutput → Fields → Fields
  with_specific none m = m
  with_specific (some h) m = put "hookSpecificOutput" (obj (specific_map h)) m

  -- SyncHookJSONOutput.Map
  unfoldable pub sync_map : SyncHookJsonOutput → Fields
  unfolding to_map
  sync_map o = with_specific o.hook_specific_output (to_map (sync_members o))
