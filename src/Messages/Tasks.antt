-- ===== src/Messages/Tasks.antt =====
-- domains/messages/lifecycle.go: the messages on tasks and what they take from their payloads.
use claude_agent_sdk_go.Base.{ℤ, String, Bool, ◌||◌, Option, none, some, str_eq}
use claude_agent_sdk_go.Json.{Value, end}
use claude_agent_sdk_go.Json.Decode.{◌>>=◌, decode_struct}
use claude_agent_sdk_go.Protocol.Lifecycle.{
  TaskUsage as WireUsage, TaskStartedPayload, TaskProgressPayload, TaskUpdatedPayload,
  TaskPatch as WirePatch, decode_task_patch, TaskNotificationPayload,
}

-- TaskStatus.IsTerminal
unfoldable pub is_terminal : String → Bool
is_terminal s = str_eq s "completed" || str_eq s "failed" || str_eq s "killed" || str_eq s "stopped"

pub record TaskStartedMessage : Type 0 where
  pub session_id : String
  pub uuid : String
  pub task_id : String
  pub tool_use_id : String
  pub description : String
  pub subagent_type : String
  pub is_backgrounded : Option Bool
  pub spawn_depth : Option ℤ
  pub task_type : String
  pub workflow_name : String
  pub prompt : String
  pub skip_transcript : Bool
  pub ambient : Bool

pub record TaskUsage : Type 0 where
  pub total_tokens : ℤ
  pub tool_uses : ℤ
  pub duration_ms : ℤ

pub record TaskProgressMessage : Type 0 where
  pub session_id : String
  pub uuid : String
  pub task_id : String
  pub tool_use_id : String
  pub description : String
  pub subagent_type : String
  pub usage : TaskUsage
  pub last_tool_name : String
  pub summary : String

pub record TaskPatch : Type 0 where
  pub description : Option String
  pub end_time : Option ℤ
  pub total_paused_ms : Option ℤ
  pub error : Option String
  pub is_backgrounded : Option Bool

pub record TaskUpdatedMessage : Type 0 where
  pub session_id : String
  pub uuid : String
  pub task_id : String
  pub status : String
  pub patch : TaskPatch
  pub raw_patch : Option Value

pub record TaskNotificationMessage : Type 0 where
  pub session_id : String
  pub uuid : String
  pub task_id : String
  pub tool_use_id : String
  pub status : String
  pub output_file : String
  pub summary : String
  pub usage : Option TaskUsage
  pub resource_links : Option Value
  pub skip_transcript : Bool
  pub ambient : Bool

unfoldable pub task_started_from_wire : TaskStartedPayload → TaskStartedMessage
task_started_from_wire p = record {
  session_id = p.session_id;
  uuid = p.uuid;
  task_id = p.task_id;
  tool_use_id = p.tool_use_id;
  description = p.description;
  subagent_type = p.subagent_type;
  is_backgrounded = p.is_backgrounded;
  spawn_depth = p.spawn_depth;
  task_type = p.task_type;
  workflow_name = p.workflow_name;
  prompt = p.prompt;
  skip_transcript = p.skip_transcript;
  ambient = p.ambient;
}

unfoldable pub task_usage_from_wire : WireUsage → TaskUsage
task_usage_from_wire u = record {
  total_tokens = u.total_tokens;
  tool_uses = u.tool_uses;
  duration_ms = u.duration_ms;
}

unfoldable pub task_progress_from_wire : TaskProgressPayload → TaskProgressMessage
task_progress_from_wire p = record {
  session_id = p.session_id;
  uuid = p.uuid;
  task_id = p.task_id;
  tool_use_id = p.tool_use_id;
  description = p.description;
  subagent_type = p.subagent_type;
  usage = task_usage_from_wire p.usage;
  last_tool_name = p.last_tool_name;
  summary = p.summary;
}

-- var wirePatch: the zero patch where the payload has none
unfoldable pub wire_patch : Option Value → Option WirePatch
wire_patch none = decode_task_patch end
wire_patch (some v) = decode_struct decode_task_patch v

abbrev pub status_of : Option String → String
status_of none = ""
status_of (some s) = s

unfoldable pub task_patch_from_wire : WirePatch → TaskPatch
task_patch_from_wire p = record {
  description = p.description;
  end_time = p.end_time;
  total_paused_ms = p.total_paused_ms;
  error = p.error;
  is_backgrounded = p.is_backgrounded;
}

unfoldable pub task_updated_from_wire : TaskUpdatedPayload → Option TaskUpdatedMessage
task_updated_from_wire p = do
  patch ← wire_patch p.patch
  some (record {
    session_id = p.session_id;
    uuid = p.uuid;
    task_id = p.task_id;
    status = status_of patch.status;
    patch = task_patch_from_wire patch;
    raw_patch = p.patch;
  })

abbrev pub maybe_usage : Option WireUsage → Option TaskUsage
maybe_usage none = none
maybe_usage (some u) = some (task_usage_from_wire u)

unfoldable pub task_notification_from_wire : TaskNotificationPayload → TaskNotificationMessage
task_notification_from_wire p = record {
  session_id = p.session_id;
  uuid = p.uuid;
  task_id = p.task_id;
  tool_use_id = p.tool_use_id;
  status = p.status;
  output_file = p.output_file;
  summary = p.summary;
  usage = maybe_usage p.usage;
  resource_links = p.resource_links;
  skip_transcript = p.skip_transcript;
  ambient = p.ambient;
}
