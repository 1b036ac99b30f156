-- ===== src/Messages/Convert.antt =====
-- domains/messages/convert.go and systemPayloadFromWire of lifecycle.go: the message that the caller gets
-- for a decoded line. `spell` is the text of a json.RawMessage.
pub mod Payloads
use claude_agent_sdk_go.Base.{
  String, Bool, true, false, ◌||◌, Option, none, some, str_eq, if◌then◌else◌,
}
use claude_agent_sdk_go.Base.Result.{Result, ok, err, ◌>>=◌, wrap_error}
use claude_agent_sdk_go.Json.{Value, Fields}
use claude_agent_sdk_go.Json.Decode.{decode_struct}
use claude_agent_sdk_go.Protocol.Wire.{
  InboundRoleMessage, SystemMessage as WireSystem, ResultMessage as WireResult,
  DeferredToolUse as WireDeferred,
}
use claude_agent_sdk_go.Protocol.Frames.{
  StreamEvent, RateLimitEvent, ConversationResetMessage as WireReset,
}
use claude_agent_sdk_go.Protocol.Lifecycle.{
  decode_task_started_payload, decode_task_progress_payload, TaskUpdatedPayload,
  decode_task_updated_payload, decode_task_notification_payload,
}
use claude_agent_sdk_go.Protocol.Activity.{
  decode_hook_event_payload, decode_session_state_changed_payload,
  decode_background_tasks_changed_payload, decode_permission_denied_payload,
}
use claude_agent_sdk_go.Protocol.Events.{
  decode_api_retry_payload, decode_thinking_tokens_payload, decode_compact_boundary_payload,
  decode_informational_payload, decode_init_payload,
}
use claude_agent_sdk_go.Protocol.Parser.{WireMessage}
use claude_agent_sdk_go.Messages.Blocks.{ContentError, content_blocks_from_raw}
use claude_agent_sdk_go.Messages.Tasks.{
  task_started_from_wire, task_progress_from_wire, task_updated_from_wire,
  task_notification_from_wire,
}
use claude_agent_sdk_go.Messages.Activity.{
  hook_event_from_wire, session_state_from_wire, background_tasks_from_wire,
  permission_denied_from_wire,
}
use claude_agent_sdk_go.Messages.Events.{
  api_retry_from_wire, thinking_tokens_from_wire, compact_boundary_from_wire,
  informational_from_wire, init_from_wire,
}
use claude_agent_sdk_go.Messages.Types.{Message, new_message, DeferredToolUse}

-- The errors of FromWire
pub data ConvertError : Type 0 where
  user_content : ContentError → ConvertError
  assistant_content : ContentError → ConvertError

-- fromWireUser
unfoldable pub from_wire_user : InboundRoleMessage → Result ConvertError Message
from_wire_user m = do
  blocks ← wrap_error user_content (content_blocks_from_raw m.message.content)
  ok (record new_message {
    user = some (record {
      session_id = m.session_id;
      uuid = m.uuid;
      content = blocks;
      parent_tool_use_id = m.parent_tool_use_id;
      tool_use_result = m.tool_use_result;
      origin = m.origin;
    });
  })

-- fromWireAssistant
unfoldable pub from_wire_assistant : InboundRoleMessage → Result ConvertError Message
from_wire_assistant m = do
  blocks ← wrap_error assistant_content (content_blocks_from_raw m.message.content)
  ok (record new_message {
    assistant = some (record {
      session_id = m.session_id;
      uuid = m.uuid;
      model = m.model;
      content = blocks;
      usage = m.usage;
      stop_reason = m.stop_reason;
      message_id = m.message_id;
      error = m.error;
      parent_tool_use_id = m.parent_tool_use_id;
    });
  })

-- A case of systemPayloadFromWire: a payload that does not decode leaves the message
abbrev pub with_payload :
    {P : Type 0} → (Fields → Option P) → (P → Message) → Message → Value → Message
with_payload decode set msg raw = elim (decode_struct decode raw) [ none ↦ msg | some p ↦ set p ]

-- The case of a task_updated, whose patch may not decode either
abbrev pub with_task_updated : TaskUpdatedPayload → Message → Message
with_task_updated p msg = elim (task_updated_from_wire p) [
  | none ↦ msg
  | some t ↦ record msg { task_updated = some t }
]

abbrev pub is_hook_event : String → Bool
is_hook_event s = str_eq s "hook_started" || str_eq s "hook_progress" || str_eq s "hook_response"

module _ (spell : Value → String) where
  -- The switch of systemPayloadFromWire on the subtype
  unfoldable pub switch_payload : String → Message → Value → Message
  switch_payload subtype msg raw =
      if str_eq subtype "task_started"
      then with_payload decode_task_started_payload
          (λ p. record msg { task_started = some (task_started_from_wire p) }) msg raw
      else if str_eq subtype "task_progress"
      then with_payload decode_task_progress_payload
          (λ p. record msg { task_progress = some (task_progress_from_wire p) }) msg raw
      else if str_eq subtype "task_updated"
      then with_payload decode_task_updated_payload (λ p. with_task_updated p msg) msg raw
      else if str_eq subtype "task_notification"
      then with_payload decode_task_notification_payload
          (λ p. record msg { task_notification = some (task_notification_from_wire p) }) msg raw
      else if is_hook_event subtype
      then with_payload decode_hook_event_payload
          (λ p. record msg { hook_event = some (hook_event_from_wire subtype p) }) msg raw
      else if str_eq subtype "session_state_changed"
      then with_payload decode_session_state_changed_payload
          (λ p. record msg { session_state_changed = session_state_from_wire p }) msg raw
      else if str_eq subtype "background_tasks_changed"
      then with_payload decode_background_tasks_changed_payload
          (λ p. record msg { background_tasks_changed = background_tasks_from_wire p }) msg raw
      else if str_eq subtype "compact_boundary"
      then with_payload decode_compact_boundary_payload
          (λ p. record msg { compact_boundary = some (compact_boundary_from_wire p) }) msg raw
      else if str_eq subtype "init"
      then with_payload decode_init_payload (λ p. record msg { init = some (init_from_wire p) }) msg
          raw
      else if str_eq subtype "informational"
      then with_payload decode_informational_payload
          (λ p. record msg { informational = some (informational_from_wire p) }) msg raw
      else if str_eq subtype "thinking_tokens"
      then with_payload decode_thinking_tokens_payload
          (λ p. record msg { thinking_tokens = some (thinking_tokens_from_wire p) }) msg raw
      else if str_eq subtype "api_retry"
      then with_payload decode_api_retry_payload
          (λ p. record msg { api_retry = some (api_retry_from_wire spell p) }) msg raw
      else if str_eq subtype "permission_denied"
      then with_payload decode_permission_denied_payload
          (λ p. record msg { permission_denied = some (permission_denied_from_wire p) }) msg raw
      else msg

  -- systemPayloadFromWire
  unfoldable pub system_payload_from_wire : Message → WireSystem → Message
  system_payload_from_wire msg m = elim m.raw [
    | none ↦ msg
    | some raw ↦ switch_payload m.subtype msg raw
  ]

  -- fromWireSystem
  unfoldable pub from_wire_system : WireSystem → Message
  from_wire_system m =
      system_payload_from_wire
        (record new_message {
          system = some (record {
            session_id = m.session_id;
            subtype = m.subtype;
            nested = m.nested;
            task_id = m.task_id;
            uuid = m.uuid;
            raw = m.raw;
          });
        })
        m

abbrev pub deferred_tool_use : Option WireDeferred → Option DeferredToolUse
deferred_tool_use none = none
deferred_tool_use (some d) = some (record { id = d.id; name = d.name; input = d.input })

-- modelUsage: under whichever key the CLI sent
abbrev pub model_usage : WireResult → Option Value
model_usage m = elim m.model_usage_camel [ some v ↦ some v | none ↦ m.model_usage ]

-- fromWireResult
unfoldable pub from_wire_result : WireResult → Message
from_wire_result m = record new_message {
  result = some (record {
    session_id = m.session_id;
    uuid = m.uuid;
    subtype = m.subtype;
    is_error = m.is_error;
    num_turns = m.num_turns;
    duration_ms = m.duration_ms;
    result = m.result;
    total_cost_usd = m.total_cost_usd;
    stop_reason = m.stop_reason;
    usage = m.usage;
    duration_api_ms = m.duration_api_ms;
    terminal_reason = m.terminal_reason;
    api_error_status = m.api_error_status;
    structured_output = m.structured_output;
    model_usage = model_usage m;
    permission_denials = m.permission_denials;
    errors = m.errors;
    origin = m.origin;
    deferred_tool_use = deferred_tool_use m.deferred_tool_use;
  });
}

-- fromWireConvReset
unfoldable pub from_wire_conv_reset : WireReset → Message
from_wire_conv_reset m = record new_message {
  conv_reset = some (record {
    new_conversation_id = m.new_conversation_id;
    uuid = m.uuid;
    session_id = m.session_id;
  });
}

-- fromWireStreamEvent
unfoldable pub from_wire_stream_event : StreamEvent → Message
from_wire_stream_event m = record new_message {
  stream_event = some (record {
    uuid = m.uuid;
    session_id = m.session_id;
    event = m.event;
    parent_tool_use_id = m.parent_tool_use_id;
  });
}

-- fromWireRateLimitEvent
unfoldable pub from_wire_rate_limit_event : RateLimitEvent → Message
from_wire_rate_limit_event m = record new_message {
  rate_limit =
      some
        (record { uuid = m.uuid; session_id = m.session_id; rate_limit_info = m.rate_limit_info });
}

abbrev pub some_message : Message → Result ConvertError (Option Message)
some_message msg = ok (some msg)

-- The cases of FromWire that do not fail, in their order
unfoldable pub switch_wire : (Value → String) → WireMessage → Option Message
switch_wire spell w = elim w.system [
  | some m ↦ some (from_wire_system spell m)
  | none ↦ elim w.result [
    | some m ↦ some (from_wire_result m)
    | none ↦ elim w.stream_event [
      | some m ↦ some (from_wire_stream_event m)
      | none ↦ elim w.rate_limit_event [
        | some m ↦ some (from_wire_rate_limit_event m)
        | none ↦ elim w.conv_reset [ some m ↦ some (from_wire_conv_reset m) | none ↦ none ]
      ]
    ]
  ]
]

-- FromWire
unfoldable pub from_wire : (Value → String) → WireMessage → Result ConvertError (Option Message)
from_wire spell w = elim w.user [
  | some m ↦ from_wire_user m >>= some_message
  | none ↦ elim w.assistant [
    | some m ↦ from_wire_assistant m >>= some_message
    | none ↦ ok (switch_wire spell w)
  ]
]
