-- ===== src/Agent/HookInput.antt =====
-- domains/agent/hookinput.go: the typed inputs of hooks and ParseHookInput. The raw input is the value
-- that its JSON text spells, none where it spells none. The fields that BaseHookInput embeds are decoded
-- once, and an input of any type is these with the fields of its own.
pub mod Typed
use claude_agent_sdk_go.Base.{
  String, Bool, true, false, Option, none, some, List, [], ◌∷◌, ℤ, str_eq, if◌then◌else◌, ◌≡◌, refl,
}
use claude_agent_sdk_go.Base.Result.{Result, ok, err}
use claude_agent_sdk_go.Json.{Value, Fields, get}
use claude_agent_sdk_go.Json.Decode.{
  ◌>>=◌, decode_struct, of_pointer, of_slice, of_struct, get_text, get_maybe_text, get_bool,
  get_int,
}
use claude_agent_sdk_go.Agent.HookFields.{
  HookEffort, BaseHookInput, HookBackgroundTask, SessionCronSummary, PreToolUseHookInput,
  PostToolUseHookInput, PostToolUseFailureHookInput, UserPromptSubmitHookInput, StopHookInput,
  SubagentStopHookInput, PreCompactHookInput, NotificationHookInput, SubagentStartHookInput,
  PermissionRequestHookInput, decode_hook_effort, decode_base_hook_input,
  decode_hook_background_task, decode_session_cron_summary, decode_pre_tool_use_hook_input,
  decode_post_tool_use_hook_input, decode_post_tool_use_failure_hook_input,
  decode_user_prompt_submit_hook_input, decode_stop_hook_input, decode_subagent_stop_hook_input,
  decode_pre_compact_hook_input, decode_notification_hook_input, decode_subagent_start_hook_input,
  decode_permission_request_hook_input,
}
use claude_agent_sdk_go.Text.{is_empty}

-- The types of HookInput, each with its own fields
pub data HookFields : Type 0 where
  pre_tool_use : PreToolUseHookInput → HookFields
  post_tool_use : PostToolUseHookInput → HookFields
  post_tool_use_failure : PostToolUseFailureHookInput → HookFields
  user_prompt_submit : UserPromptSubmitHookInput → HookFields
  stop : StopHookInput → HookFields
  subagent_stop : SubagentStopHookInput → HookFields
  pre_compact : PreCompactHookInput → HookFields
  notification : NotificationHookInput → HookFields
  subagent_start : SubagentStartHookInput → HookFields
  permission_request : PermissionRequestHookInput → HookFields
  unknown_hook : Value → HookFields

-- HookInput
pub record HookInput : Type 0 where
  pub base : BaseHookInput
  pub fields : HookFields

-- EventName
abbrev pub event_name : HookInput → String
event_name i = i.base.hook_event_name

pub data HookInputError : Type 0 where
  malformed_input : HookInputError
  unnamed_event : HookInputError
  event_input : String → HookInputError

-- The input of the base with these fields, if they decoded
abbrev pub input_with :
    {A : Type 0} → BaseHookInput → (A → HookFields) → Option A → Result HookInputError HookInput
input_with base type none = err (event_input base.hook_event_name)
input_with base type (some a) = ok (record { base = base; fields = type a })

abbrev pub fields_as :
    {A : Type 0}
    → (Fields → Option A)
    → (A → HookFields)
    → BaseHookInput
    → Value
    → Result HookInputError HookInput
fields_as decode type base v = input_with base type (decode_struct decode v)

-- The switch of ParseHookInput
unfoldable pub input_of : String → BaseHookInput → Value → Result HookInputError HookInput
input_of event base v =
    if str_eq event "PreToolUse"
    then fields_as decode_pre_tool_use_hook_input pre_tool_use base v
    else if str_eq event "PostToolUse"
    then fields_as decode_post_tool_use_hook_input post_tool_use base v
    else if str_eq event "PostToolUseFailure"
    then fields_as decode_post_tool_use_failure_hook_input post_tool_use_failure base v
    else if str_eq event "UserPromptSubmit"
    then fields_as decode_user_prompt_submit_hook_input user_prompt_submit base v
    else if str_eq event "Stop"
    then fields_as decode_stop_hook_input stop base v
    else if str_eq event "SubagentStop"
    then fields_as decode_subagent_stop_hook_input subagent_stop base v
    else if str_eq event "PreCompact"
    then fields_as decode_pre_compact_hook_input pre_compact base v
    else if str_eq event "Notification"
    then fields_as decode_notification_hook_input notification base v
    else if str_eq event "SubagentStart"
    then fields_as decode_subagent_start_hook_input subagent_start base v
    else if str_eq event "PermissionRequest"
    then fields_as decode_permission_request_hook_input permission_request base v
    else ok (record { base = base; fields = unknown_hook v })

-- The rest of ParseHookInput, from the base
unfoldable pub parse_named : BaseHookInput → Value → Result HookInputError HookInput
unfolding input_of
parse_named base v =
    if is_empty base.hook_event_name
    then err unnamed_event
    else input_of base.hook_event_name base v

unfoldable pub parse_base : Option BaseHookInput → Value → Result HookInputError HookInput
unfolding parse_named
parse_base none v = err malformed_input
parse_base (some base) v = parse_named base v

-- ParseHookInput
unfoldable pub parse_hook_input : Option Value → Result HookInputError HookInput
unfolding parse_base
parse_hook_input none = err malformed_input
parse_hook_input (some v) = parse_base (decode_struct decode_base_hook_input v) v
