-- ===== src/Protocol/Activity.antt =====
-- domains/protocol/lifecycle.go: the payloads on hooks, on the session and on permissions.
use claude_agent_sdk_go.Base.{ℤ, String, Bool, Option, some, List}
use claude_agent_sdk_go.Json.{Fields, get}
use claude_agent_sdk_go.Json.Decode.{
  ◌>>=◌, of_struct, of_pointer, of_slice, get_text, get_maybe_text, get_bool, get_maybe_bool,
  get_maybe_int,
}

pub record HookEventPayload : Type 0 where
  pub hook_id : String
  pub hook_name : String
  pub hook_event : String
  pub stdout : String
  pub stderr : String
  pub output : String
  pub exit_code : Option ℤ
  pub outcome : String
  pub uuid : String
  pub session_id : String

unfoldable pub decode_hook_event_payload : Fields → Option HookEventPayload
decode_hook_event_payload m = do
  hook_id ← get_text m "hook_id"
  hook_name ← get_text m "hook_name"
  hook_event ← get_text m "hook_event"
  stdout ← get_text m "stdout"
  stderr ← get_text m "stderr"
  output ← get_text m "output"
  exit_code ← get_maybe_int m "exit_code"
  outcome ← get_text m "outcome"
  uuid ← get_text m "uuid"
  session_id ← get_text m "session_id"
  some (record {
    hook_id = hook_id;
    hook_name = hook_name;
    hook_event = hook_event;
    stdout = stdout;
    stderr = stderr;
    output = output;
    exit_code = exit_code;
    outcome = outcome;
    uuid = uuid;
    session_id = session_id;
  })

pub record SessionStateChangedPayload : Type 0 where
  pub state : Option String
  pub waiting_on_user : Option Bool
  pub sdk_host_only : Bool
  pub uuid : String
  pub session_id : String

unfoldable pub decode_session_state_changed_payload : Fields → Option SessionStateChangedPayload
decode_session_state_changed_payload m = do
  state ← get_maybe_text m "state"
  waiting_on_user ← get_maybe_bool m "waiting_on_user"
  sdk_host_only ← get_bool m "sdk_host_only"
  uuid ← get_text m "uuid"
  session_id ← get_text m "session_id"
  some (record {
    state = state;
    waiting_on_user = waiting_on_user;
    sdk_host_only = sdk_host_only;
    uuid = uuid;
    session_id = session_id;
  })

pub record BackgroundTask : Type 0 where
  pub task_id : String
  pub task_type : String
  pub description : String
  pub ambient : Bool

unfoldable pub decode_background_task : Fields → Option BackgroundTask
decode_background_task m = do
  task_id ← get_text m "task_id"
  task_type ← get_text m "task_type"
  description ← get_text m "description"
  ambient ← get_bool m "ambient"
  some (record {
    task_id = task_id;
    task_type = task_type;
    description = description;
    ambient = ambient;
  })

pub record BackgroundTasksChangedPayload : Type 0 where
  pub tasks : Option (List BackgroundTask)
  pub uuid : String
  pub session_id : String

unfoldable pub decode_background_tasks_changed_payload :
    Fields → Option BackgroundTasksChangedPayload
decode_background_tasks_changed_payload m = do
  tasks ← of_pointer (of_slice (of_struct decode_background_task)) (get "tasks" m)
  uuid ← get_text m "uuid"
  session_id ← get_text m "session_id"
  some (record { tasks = tasks; uuid = uuid; session_id = session_id })

pub record PermissionDeniedPayload : Type 0 where
  pub tool_name : String
  pub tool_use_id : String
  pub agent_id : String
  pub decision_reason_type : String
  pub decision_reason_code : String
  pub decision_reason : String
  pub message : String
  pub uuid : String
  pub session_id : String

unfoldable pub decode_permission_denied_payload : Fields → Option PermissionDeniedPayload
decode_permission_denied_payload m = do
  tool_name ← get_text m "tool_name"
  tool_use_id ← get_text m "tool_use_id"
  agent_id ← get_text m "agent_id"
  decision_reason_type ← get_text m "decision_reason_type"
  decision_reason_code ← get_text m "decision_reason_code"
  decision_reason ← get_text m "decision_reason"
  message ← get_text m "message"
  uuid ← get_text m "uuid"
  session_id ← get_text m "session_id"
  some (record {
    tool_name = tool_name;
    tool_use_id = tool_use_id;
    agent_id = agent_id;
    decision_reason_type = decision_reason_type;
    decision_reason_code = decision_reason_code;
    decision_reason = decision_reason;
    message = message;
    uuid = uuid;
    session_id = session_id;
  })
