-- ===== src/Protocol/Lifecycle.antt =====
-- domains/protocol/lifecycle.go: the payloads of the messages on tasks.
use claude_agent_sdk_go.Base.{ℤ, String, Bool, Option, some}
use claude_agent_sdk_go.Json.{Value, Fields, get}
use claude_agent_sdk_go.Json.Decode.{
  ◌>>=◌, of_struct, of_pointer, get_text, get_maybe_text, get_bool, get_maybe_bool, get_int,
  get_maybe_int,
}

pub record TaskUsage : Type 0 where
  pub total_tokens : ℤ
  pub tool_uses : ℤ
  pub duration_ms : ℤ

unfoldable pub decode_task_usage : Fields → Option TaskUsage
decode_task_usage m = do
  total_tokens ← get_int m "total_tokens"
  tool_uses ← get_int m "tool_uses"
  duration_ms ← get_int m "duration_ms"
  some (record { total_tokens = total_tokens; tool_uses = tool_uses; duration_ms = duration_ms })

pub record TaskStartedPayload : Type 0 where
  pub task_id : String
  pub tool_use_id : String
  pub description : String
  pub subagent_type : String
  pub is_backgrounded : Option Bool
  pub spawn_depth : Option ℤ
  pub task_type : String
  pub workflow_name : String
  pub prompt : String
  pub skip_transcript : Bool
  pub ambient : Bool
  pub uuid : String
  pub session_id : String

unfoldable pub decode_task_started_payload : Fields → Option TaskStartedPayload
decode_task_started_payload m = do
  task_id ← get_text m "task_id"
  tool_use_id ← get_text m "tool_use_id"
  description ← get_text m "description"
  subagent_type ← get_text m "subagent_type"
  is_backgrounded ← get_maybe_bool m "is_backgrounded"
  spawn_depth ← get_maybe_int m "spawn_depth"
  task_type ← get_text m "task_type"
  workflow_name ← get_text m "workflow_name"
  prompt ← get_text m "prompt"
  skip_transcript ← get_bool m "skip_transcript"
  ambient ← get_bool m "ambient"
  uuid ← get_text m "uuid"
  session_id ← get_text m "session_id"
  some (record {
    task_id = task_id;
    tool_use_id = tool_use_id;
    description = description;
    subagent_type = subagent_type;
    is_backgrounded = is_backgrounded;
    spawn_depth = spawn_depth;
    task_type = task_type;
    workflow_name = workflow_name;
    prompt = prompt;
    skip_transcript = skip_transcript;
    ambient = ambient;
    uuid = uuid;
    session_id = session_id;
  })

pub record TaskProgressPayload : Type 0 where
  pub task_id : String
  pub tool_use_id : String
  pub description : String
  pub subagent_type : String
  pub usage : TaskUsage
  pub last_tool_name : String
  pub summary : String
  pub uuid : String
  pub session_id : String

unfoldable pub decode_task_progress_payload : Fields → Option TaskProgressPayload
decode_task_progress_payload m = do
  task_id ← get_text m "task_id"
  tool_use_id ← get_text m "tool_use_id"
  description ← get_text m "description"
  subagent_type ← get_text m "subagent_type"
  usage ← of_struct decode_task_usage (get "usage" m)
  last_tool_name ← get_text m "last_tool_name"
  summary ← get_text m "summary"
  uuid ← get_text m "uuid"
  session_id ← get_text m "session_id"
  some (record {
    task_id = task_id;
    tool_use_id = tool_use_id;
    description = description;
    subagent_type = subagent_type;
    usage = usage;
    last_tool_name = last_tool_name;
    summary = summary;
    uuid = uuid;
    session_id = session_id;
  })

pub record TaskUpdatedPayload : Type 0 where
  pub task_id : String
  pub patch : Option Value
  pub uuid : String
  pub session_id : String

unfoldable pub decode_task_updated_payload : Fields → Option TaskUpdatedPayload
decode_task_updated_payload m = do
  task_id ← get_text m "task_id"
  uuid ← get_text m "uuid"
  session_id ← get_text m "session_id"
  some (record { task_id = task_id; patch = get "patch" m; uuid = uuid; session_id = session_id })

pub record TaskPatch : Type 0 where
  pub status : Option String
  pub description : Option String
  pub end_time : Option ℤ
  pub total_paused_ms : Option ℤ
  pub error : Option String
  pub is_backgrounded : Option Bool

unfoldable pub decode_task_patch : Fields → Option TaskPatch
decode_task_patch m = do
  status ← get_maybe_text m "status"
  description ← get_maybe_text m "description"
  end_time ← get_maybe_int m "end_time"
  total_paused_ms ← get_maybe_int m "total_paused_ms"
  error ← get_maybe_text m "error"
  is_backgrounded ← get_maybe_bool m "is_backgrounded"
  some (record {
    status = status;
    description = description;
    end_time = end_time;
    total_paused_ms = total_paused_ms;
    error = error;
    is_backgrounded = is_backgrounded;
  })

pub record TaskNotificationPayload : Type 0 where
  pub task_id : String
  pub tool_use_id : String
  pub status : String
  pub output_file : String
  pub summary : String
  pub usage : Option TaskUsage
  pub resource_links : Option Value
  pub skip_transcript : Bool
  pub ambient : Bool
  pub uuid : String
  pub session_id : String

unfoldable pub decode_task_notification_payload : Fields → Option TaskNotificationPayload
decode_task_notification_payload m = do
  task_id ← get_text m "task_id"
  tool_use_id ← get_text m "tool_use_id"
  status ← get_text m "status"
  output_file ← get_text m "output_file"
  summary ← get_text m "summary"
  usage ← of_pointer (of_struct decode_task_usage) (get "usage" m)
  skip_transcript ← get_bool m "skip_transcript"
  ambient ← get_bool m "ambient"
  uuid ← get_text m "uuid"
  session_id ← get_text m "session_id"
  some (record {
    task_id = task_id;
    tool_use_id = tool_use_id;
    status = status;
    output_file = output_file;
    summary = summary;
    usage = usage;
    resource_links = get "resource_links" m;
    skip_transcript = skip_transcript;
    ambient = ambient;
    uuid = uuid;
    session_id = session_id;
  })
