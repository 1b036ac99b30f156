-- ===== src/Agent/HookFields.antt =====
-- domains/agent/hookinput.go: the fields of the inputs of hooks, with what json.Unmarshal reads into
-- them. The fields that every input embeds, those of BaseHookInput, are a record of their own.
use claude_agent_sdk_go.Base.{String, Bool, Option, some, List, ℤ}
use claude_agent_sdk_go.Json.{Value, Fields, get}
use claude_agent_sdk_go.Json.Decode.{
  ◌>>=◌, of_pointer, of_slice, of_struct, get_text, get_maybe_text, get_bool, get_int,
}

pub record HookEffort : Type 0 where
  pub level : String

unfoldable pub decode_hook_effort : Fields → Option HookEffort
decode_hook_effort m = do level ← get_text m "level"; some (record { level = level })

pub record BaseHookInput : Type 0 where
  pub session_id : String
  pub transcript_path : String
  pub cwd : String
  pub permission_mode : String
  pub prompt_id : String
  pub effort : Option HookEffort
  pub hook_event_name : String

unfoldable pub decode_base_hook_input : Fields → Option BaseHookInput
decode_base_hook_input m = do
  session_id ← get_text m "session_id"
  transcript_path ← get_text m "transcript_path"
  cwd ← get_text m "cwd"
  permission_mode ← get_text m "permission_mode"
  prompt_id ← get_text m "prompt_id"
  effort ← of_pointer (of_struct decode_hook_effort) (get "effort" m)
  hook_event_name ← get_text m "hook_event_name"
  some (record {
    session_id = session_id;
    transcript_path = transcript_path;
    cwd = cwd;
    permission_mode = permission_mode;
    prompt_id = prompt_id;
    effort = effort;
    hook_event_name = hook_event_name;
  })

pub record HookBackgroundTask : Type 0 where
  pub id : String
  pub type : String
  pub status : String
  pub description : String
  pub command : String
  pub agent_type : String
  pub server : String
  pub tool : String
  pub name : String

unfoldable pub decode_hook_background_task : Fields → Option HookBackgroundTask
decode_hook_background_task m = do
  id ← get_text m "id"
  type ← get_text m "type"
  status ← get_text m "status"
  description ← get_text m "description"
  command ← get_text m "command"
  agent_type ← get_text m "agent_type"
  server ← get_text m "server"
  tool ← get_text m "tool"
  name ← get_text m "name"
  some (record {
    id = id;
    type = type;
    status = status;
    description = description;
    command = command;
    agent_type = agent_type;
    server = server;
    tool = tool;
    name = name;
  })

pub record SessionCronSummary : Type 0 where
  pub id : String
  pub schedule : String
  pub recurring : Bool
  pub prompt : String

unfoldable pub decode_session_cron_summary : Fields → Option SessionCronSummary
decode_session_cron_summary m = do
  id ← get_text m "id"
  schedule ← get_text m "schedule"
  recurring ← get_bool m "recurring"
  prompt ← get_text m "prompt"
  some (record { id = id; schedule = schedule; recurring = recurring; prompt = prompt })

pub record PreToolUseHookInput : Type 0 where
  pub tool_name : String
  pub tool_input : Option Value
  pub tool_use_id : String
  pub agent_id : String
  pub agent_type : String

unfoldable pub decode_pre_tool_use_hook_input : Fields → Option PreToolUseHookInput
decode_pre_tool_use_hook_input m = do
  tool_name ← get_text m "tool_name"
  tool_use_id ← get_text m "tool_use_id"
  agent_id ← get_text m "agent_id"
  agent_type ← get_text m "agent_type"
  some (record {
    tool_name = tool_name;
    tool_input = get "tool_input" m;
    tool_use_id = tool_use_id;
    agent_id = agent_id;
    agent_type = agent_type;
  })

pub record PostToolUseHookInput : Type 0 where
  pub tool_name : String
  pub tool_input : Option Value
  pub tool_response : Option Value
  pub tool_use_id : String
  pub duration_ms : ℤ
  pub agent_id : String
  pub agent_type : String

unfoldable pub decode_post_tool_use_hook_input : Fields → Option PostToolUseHookInput
decode_post_tool_use_hook_input m = do
  tool_name ← get_text m "tool_name"
  tool_use_id ← get_text m "tool_use_id"
  duration_ms ← get_int m "duration_ms"
  agent_id ← get_text m "agent_id"
  agent_type ← get_text m "agent_type"
  some (record {
    tool_name = tool_name;
    tool_input = get "tool_input" m;
    tool_response = get "tool_response" m;
    tool_use_id = tool_use_id;
    duration_ms = duration_ms;
    agent_id = agent_id;
    agent_type = agent_type;
  })

pub record PostToolUseFailureHookInput : Type 0 where
  pub tool_name : String
  pub tool_input : Option Value
  pub tool_use_id : String
  pub error : String
  pub is_interrupt : Bool
  pub duration_ms : ℤ
  pub agent_id : String
  pub agent_type : String

unfoldable pub decode_post_tool_use_failure_hook_input : Fields → Option PostToolUseFailureHookInput
decode_post_tool_use_failure_hook_input m = do
  tool_name ← get_text m "tool_name"
  tool_use_id ← get_text m "tool_use_id"
  error ← get_text m "error"
  is_interrupt ← get_bool m "is_interrupt"
  duration_ms ← get_int m "duration_ms"
  agent_id ← get_text m "agent_id"
  agent_type ← get_text m "agent_type"
  some (record {
    tool_name = tool_name;
    tool_input = get "tool_input" m;
    tool_use_id = tool_use_id;
    error = error;
    is_interrupt = is_interrupt;
    duration_ms = duration_ms;
    agent_id = agent_id;
    agent_type = agent_type;
  })

pub record UserPromptSubmitHookInput : Type 0 where
  pub prompt : String

unfoldable pub decode_user_prompt_submit_hook_input : Fields → Option UserPromptSubmitHookInput
decode_user_prompt_submit_hook_input m = do
  prompt ← get_text m "prompt"
  some (record { prompt = prompt })

pub record StopHookInput : Type 0 where
  pub stop_hook_active : Bool
  pub last_assistant_message : String
  pub background_tasks : List HookBackgroundTask
  pub session_crons : List SessionCronSummary

unfoldable pub decode_stop_hook_input : Fields → Option StopHookInput
decode_stop_hook_input m = do
  stop_hook_active ← get_bool m "stop_hook_active"
  last_assistant_message ← get_text m "last_assistant_message"
  background_tasks ← of_slice (of_struct decode_hook_background_task) (get "background_tasks" m)
  session_crons ← of_slice (of_struct decode_session_cron_summary) (get "session_crons" m)
  some (record {
    stop_hook_active = stop_hook_active;
    last_assistant_message = last_assistant_message;
    background_tasks = background_tasks;
    session_crons = session_crons;
  })

pub record SubagentStopHookInput : Type 0 where
  pub stop_hook_active : Bool
  pub agent_id : String
  pub agent_transcript_path : String
  pub agent_type : String
  pub last_assistant_message : String
  pub background_tasks : List HookBackgroundTask
  pub session_crons : List SessionCronSummary

unfoldable pub decode_subagent_stop_hook_input : Fields → Option SubagentStopHookInput
decode_subagent_stop_hook_input m = do
  stop_hook_active ← get_bool m "stop_hook_active"
  agent_id ← get_text m "agent_id"
  agent_transcript_path ← get_text m "agent_transcript_path"
  agent_type ← get_text m "agent_type"
  last_assistant_message ← get_text m "last_assistant_message"
  background_tasks ← of_slice (of_struct decode_hook_background_task) (get "background_tasks" m)
  session_crons ← of_slice (of_struct decode_session_cron_summary) (get "session_crons" m)
  some (record {
    stop_hook_active = stop_hook_active;
    agent_id = agent_id;
    agent_transcript_path = agent_transcript_path;
    agent_type = agent_type;
    last_assistant_message = last_assistant_message;
    background_tasks = background_tasks;
    session_crons = session_crons;
  })

pub record PreCompactHookInput : Type 0 where
  pub trigger : String
  pub custom_instructions : Option String

unfoldable pub decode_pre_compact_hook_input : Fields → Option PreCompactHookInput
decode_pre_compact_hook_input m = do
  trigger ← get_text m "trigger"
  custom_instructions ← get_maybe_text m "custom_instructions"
  some (record { trigger = trigger; custom_instructions = custom_instructions })

pub record NotificationHookInput : Type 0 where
  pub message : String
  pub title : String
  pub notification_type : String

unfoldable pub decode_notification_hook_input : Fields → Option NotificationHookInput
decode_notification_hook_input m = do
  message ← get_text m "message"
  title ← get_text m "title"
  notification_type ← get_text m "notification_type"
  some (record { message = message; title = title; notification_type = notification_type })

pub record SubagentStartHookInput : Type 0 where
  pub agent_id : String
  pub agent_type : String

unfoldable pub decode_subagent_start_hook_input : Fields → Option SubagentStartHookInput
decode_subagent_start_hook_input m = do
  agent_id ← get_text m "agent_id"
  agent_type ← get_text m "agent_type"
  some (record { agent_id = agent_id; agent_type = agent_type })

pub record PermissionRequestHookInput : Type 0 where
  pub tool_name : String
  pub tool_input : Option Value
  pub agent_id : String
  pub agent_type : String
  pub suggestions : Option Value

unfoldable pub decode_permission_request_hook_input : Fields → Option PermissionRequestHookInput
decode_permission_request_hook_input m = do
  tool_name ← get_text m "tool_name"
  agent_id ← get_text m "agent_id"
  agent_type ← get_text m "agent_type"
  some (record {
    tool_name = tool_name;
    tool_input = get "tool_input" m;
    agent_id = agent_id;
    agent_type = agent_type;
    suggestions = get "permission_suggestions" m;
  })
