-- ===== src/Messages/Activity.antt =====
-- domains/messages: the messages on hooks, on the session and on permissions (lifecycle.go,
-- sessionstate.go, permission.go) and what they take from their payloads.
use claude_agent_sdk_go.Base.{ℤ, String, Bool, Option, none, some, List, map}
use claude_agent_sdk_go.Protocol.Activity.{
  HookEventPayload, SessionStateChangedPayload, BackgroundTask as WireTask,
  BackgroundTasksChangedPayload, PermissionDeniedPayload,
}

-- SessionStateIdle
abbrev pub session_state_idle : String
session_state_idle = "idle"

pub record HookEventMessage : Type 0 where
  pub session_id : String
  pub uuid : String
  pub phase : String
  pub hook_id : String
  pub hook_name : String
  pub hook_event_name : String
  pub stdout : String
  pub stderr : String
  pub output : String
  pub exit_code : Option ℤ
  pub outcome : String

pub record SessionStateChangedMessage : Type 0 where
  pub session_id : String
  pub uuid : String
  pub state : String
  pub waiting_on_user : Option Bool

pub record BackgroundTask : Type 0 where
  pub task_id : String
  pub task_type : String
  pub description : String
  pub ambient : Bool

pub record BackgroundTasksChangedMessage : Type 0 where
  pub session_id : String
  pub uuid : String
  pub tasks : List BackgroundTask

pub record PermissionDeniedMessage : Type 0 where
  pub tool_name : String
  pub tool_use_id : String
  pub agent_id : String
  pub reason_type : String
  pub reason_code : String
  pub reason : String
  pub message : String
  pub uuid : String
  pub session_id : String

-- HookPhase is the subtype of the message
unfoldable pub hook_event_from_wire : String → HookEventPayload → HookEventMessage
hook_event_from_wire phase p = record {
  session_id = p.session_id;
  uuid = p.uuid;
  phase = phase;
  hook_id = p.hook_id;
  hook_name = p.hook_name;
  hook_event_name = p.hook_event;
  stdout = p.stdout;
  stderr = p.stderr;
  output = p.output;
  exit_code = p.exit_code;
  outcome = p.outcome;
}

-- sessionStateFromWire: a state that is absent or null gives no message
unfoldable pub session_state_from_wire :
    SessionStateChangedPayload → Option SessionStateChangedMessage
session_state_from_wire p = elim p.state [
  | none ↦ none
  | some state ↦ some (record {
    session_id = p.session_id;
    uuid = p.uuid;
    state = state;
    waiting_on_user = p.waiting_on_user;
  })
]

unfoldable pub background_task_from_wire : WireTask → BackgroundTask
background_task_from_wire t = record {
  task_id = t.task_id;
  task_type = t.task_type;
  description = t.description;
  ambient = t.ambient;
}

-- backgroundTasksFromWire: tasks that are absent or null give no message
unfoldable pub background_tasks_from_wire :
    BackgroundTasksChangedPayload → Option BackgroundTasksChangedMessage
background_tasks_from_wire p = elim p.tasks [
  | none ↦ none
  | some tasks ↦ some (record {
    session_id = p.session_id;
    uuid = p.uuid;
    tasks = map background_task_from_wire tasks;
  })
]

unfoldable pub permission_denied_from_wire : PermissionDeniedPayload → PermissionDeniedMessage
permission_denied_from_wire p = record {
  tool_name = p.tool_name;
  tool_use_id = p.tool_use_id;
  agent_id = p.agent_id;
  reason_type = p.decision_reason_type;
  reason_code = p.decision_reason_code;
  reason = p.decision_reason;
  message = p.message;
  uuid = p.uuid;
  session_id = p.session_id;
}
