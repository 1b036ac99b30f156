-- ===== src/Messages/Types.antt =====
-- domains/messages/types.go: the messages that the SDK hands to its caller.
use claude_agent_sdk_go.Base.{ℤ, String, Bool, Option, none, List}
use claude_agent_sdk_go.Json.{Value}
use claude_agent_sdk_go.Protocol.Frames.{RateLimitInfo}
use claude_agent_sdk_go.Messages.Blocks.{ContentBlocks}
use claude_agent_sdk_go.Messages.Tasks.{
  TaskStartedMessage, TaskProgressMessage, TaskUpdatedMessage, TaskNotificationMessage,
}
use claude_agent_sdk_go.Messages.Activity.{
  HookEventMessage, SessionStateChangedMessage, BackgroundTasksChangedMessage,
  PermissionDeniedMessage,
}
use claude_agent_sdk_go.Messages.Events.{
  ApiRetryMessage, ThinkingTokensMessage, CompactBoundaryMessage, SystemInitMessage,
  InformationalMessage,
}

pub record UserMessage : Type 0 where
  pub session_id : String
  pub uuid : Option String
  pub content : ContentBlocks
  pub parent_tool_use_id : Option String
  pub tool_use_result : Option Value
  pub origin : Option Value

pub record ConversationResetMessage : Type 0 where
  pub new_conversation_id : String
  pub uuid : String
  pub session_id : String

pub record AssistantMessage : Type 0 where
  pub session_id : String
  pub uuid : Option String
  pub model : String
  pub content : ContentBlocks
  pub usage : Option Value
  pub stop_reason : Option String
  pub message_id : Option String
  pub error : Option String
  pub parent_tool_use_id : Option String

pub record SystemMessage : Type 0 where
  pub session_id : String
  pub subtype : String
  pub nested : Option Value
  pub task_id : String
  pub uuid : String
  pub raw : Option Value

pub record DeferredToolUse : Type 0 where
  pub id : String
  pub name : String
  pub input : Option Value

pub record ResultMessage : Type 0 where
  pub session_id : String
  pub uuid : Option String
  pub subtype : String
  pub is_error : Bool
  pub num_turns : ℤ
  pub duration_ms : ℤ
  pub result : String
  pub total_cost_usd : Option Value
  pub stop_reason : Option String
  pub usage : Option Value
  pub duration_api_ms : ℤ
  pub terminal_reason : Option String
  pub api_error_status : Option ℤ
  pub structured_output : Option Value
  pub model_usage : Option Value
  pub permission_denials : Option Value
  pub errors : List String
  pub origin : Option Value
  pub deferred_tool_use : Option DeferredToolUse

pub record StreamEventMessage : Type 0 where
  pub uuid : String
  pub session_id : String
  pub event : Option Value
  pub parent_tool_use_id : Option String

pub record RateLimitMessage : Type 0 where
  pub uuid : String
  pub session_id : String
  pub rate_limit_info : RateLimitInfo

pub record Message : Type 0 where
  pub user : Option UserMessage
  pub assistant : Option AssistantMessage
  pub system : Option SystemMessage
  pub result : Option ResultMessage
  pub stream_event : Option StreamEventMessage
  pub rate_limit : Option RateLimitMessage
  pub conv_reset : Option ConversationResetMessage
  pub task_started : Option TaskStartedMessage
  pub task_progress : Option TaskProgressMessage
  pub task_updated : Option TaskUpdatedMessage
  pub task_notification : Option TaskNotificationMessage
  pub hook_event : Option HookEventMessage
  pub session_state_changed : Option SessionStateChangedMessage
  pub background_tasks_changed : Option BackgroundTasksChangedMessage
  pub permission_denied : Option PermissionDeniedMessage
  pub api_retry : Option ApiRetryMessage
  pub thinking_tokens : Option ThinkingTokensMessage
  pub compact_boundary : Option CompactBoundaryMessage
  pub init : Option SystemInitMessage
  pub informational : Option InformationalMessage

-- &Message{}
abbrev pub new_message : Message
new_message = record {
  user = none;
  assistant = none;
  system = none;
  result = none;
  stream_event = none;
  rate_limit = none;
  conv_reset = none;
  task_started = none;
  task_progress = none;
  task_updated = none;
  task_notification = none;
  hook_event = none;
  session_state_changed = none;
  background_tasks_changed = none;
  permission_denied = none;
  api_retry = none;
  thinking_tokens = none;
  compact_boundary = none;
  init = none;
  informational = none;
}
