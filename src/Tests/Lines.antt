-- ===== src/Tests/Lines.antt =====
-- Lines of the CLI, from their text to what readLoop does with them.
use claude_agent_sdk_go.Base.{
  String, pos, ◌≡◌, refl, true, false, Option, none, some, [], ◌∷◌, str_eq, ◌⊎◌, if◌then◌else◌,
}
use claude_agent_sdk_go.Base.Result.{err}
use claude_agent_sdk_go.Json.{
  Value, Fields, Items, bool, int64, str, arr, obj, end, field, item, no_items, get, to_list,
}
use claude_agent_sdk_go.Json.Decode.{decode_struct}
use claude_agent_sdk_go.Protocol.Wire.{
  Envelope, decode_envelope, SystemMessage as WireSystem, decode_system_message, InboundRoleMessage,
  decode_inbound_role_message, decode_role_message_body,
}
use claude_agent_sdk_go.Protocol.Blocks.{decode_content_block, is_server_tool_result}
use claude_agent_sdk_go.Protocol.Activity.{
  decode_session_state_changed_payload, SessionStateChangedPayload,
}
use claude_agent_sdk_go.Protocol.Parser.{
  WireMessage, empty_message, decode_as, parse_type, parse_value, parse_line,
}
use claude_agent_sdk_go.Protocol.Parser.OneField.{set_fields, is_message_type, parse_line-Sets}
use claude_agent_sdk_go.Protocol.Requests.{set_model}
use claude_agent_sdk_go.Protocol.Builder.RoundTrip.{
  build_sent, send_model, IsRequest, build_sent-IsRequest,
}
use claude_agent_sdk_go.Messages.Blocks.{
  ContentBlocks, no_blocks, block, text, unknown, ContentError, decode_block, content_items,
  block_at, content_block_from_wire, inner_of, inner_fields, content_blocks,
  content_blocks_from_raw,
}
use claude_agent_sdk_go.Messages.Blocks.Kept.{AreBlocksOf, content_items-AreBlocksOf}
use claude_agent_sdk_go.Messages.Blocks.Failures.{IsFailure, is_content, content_blocks-IsFailure}
use claude_agent_sdk_go.Messages.Blocks.{content_blocks_from_raw, parse_content_blocks}
use claude_agent_sdk_go.Base.{◌⊎◌}
use claude_agent_sdk_go.Messages.Types.{Message}
use claude_agent_sdk_go.Messages.Convert.{
  user_content, assistant_content, from_wire, from_wire_user, from_wire_system,
}
use claude_agent_sdk_go.Messages.Convert.Payloads.{IsCarried, from_wire-fails}
use claude_agent_sdk_go.Agent.RunEnd.{received, round, start, new_session_state}
use claude_agent_sdk_go.Agent.RunEnd.HostOnly.{yielded-from_wire_system}
use claude_agent_sdk_go.Agent.Control.{new_session_manager, read_round, record_action, deliver}
use claude_agent_sdk_go.Agent.Lines.{received_of}
use claude_agent_sdk_go.Agent.Lines.Delivered.{system_line-delivers}

abbrev model_request : Value
model_request = build_sent "r1" (send_model "opus")

build_sent-IsRequest_example :
    IsRequest
      (λ s. some model_request)
      "model"
      "r1"
      (set_model (record { subtype = "set_model"; model = "opus" }))
build_sent-IsRequest_example =
    build_sent-IsRequest (λ s. some model_request) "model" "r1" (send_model "opus") refl

-- A notification whose usage is not an object, so that its payload does not decode
abbrev notification : Value
notification = obj (
    field "type" (str "system") (
      field "subtype" (str "task_notification")
        (field "task_id" (str "t1") (field "usage" (str "none") end))))

abbrev idle : Value
idle = obj (
    field "type" (str "system") (
      field "subtype" (str "session_state_changed")
        (field "state" (str "idle") (field "sdk_host_only" (bool true) end))))

abbrev newer : Value
newer = obj (field "type" (str "weather_report") end)

-- A JSON decoder that knows three lines
abbrev parse_json : String → Option Value
parse_json s =
    if str_eq s "notification"
    then some notification
    else if str_eq s "idle"
    then some idle
    else if str_eq s "newer"
    then some newer
    else none

abbrev spell : Value → String
spell v = "{}"

abbrev envelope : String → Envelope
envelope t = record { type = t }

abbrev notification_system : WireSystem
notification_system = record {
  type = "system";
  subtype = "task_notification";
  nested = none;
  task_id = "t1";
  description = "";
  session_id = "";
  uuid = "";
  raw = none;
}

parse_line-Sets_example :
    (v : Value) × (env : Envelope) × (parse_json "newer" ≡ some v)
    × (decode_struct decode_envelope v ≡ some env)
    × (set_fields empty_message ≡ (if is_message_type env.type then env.type ∷ [] else []))
unfolding parse_line parse_value decode_as parse_type decode_envelope get
parse_line-Sets_example = parse_line-Sets parse_json "newer" empty_message refl

-- Its payload does not decode, and the message is delivered all the same.
system_line-delivers_example :
    (msg : Message) × (read_round true
        (received_of parse_json spell "notification")
        false
        new_session_manager
      ≡ some (record_action (deliver msg) new_session_manager))
    × IsCarried
        (record {
          session_id = "";
          subtype = "task_notification";
          nested = none;
          task_id = "t1";
          uuid = "";
          raw = some notification;
        })
        msg
unfolding decode_envelope decode_system_message get
system_line-delivers_example =
    system_line-delivers parse_json spell true "notification" notification (envelope "system")
      notification_system new_session_manager refl refl refl refl

-- [{"type": "text", "text": "hi"}, {"type": "video"}, 7]
abbrev hello : Value
hello = obj (field "type" (str "text") (field "text" (str "hi") end))

abbrev video : Value
video = obj (field "type" (str "video") end)

abbrev two_blocks : ContentBlocks
two_blocks =
    block (text (record { text = "hi" }))
      (block (unknown (record { type = "video"; raw = some video })) no_blocks)

content_items-AreBlocksOf_example : AreBlocksOf (item hello (item video no_items)) two_blocks
unfolding content_items block_at content_block_from_wire decode_content_block inner_of get
    is_server_tool_result inner_fields content_blocks
content_items-AreBlocksOf_example =
    content_items-AreBlocksOf 0 (item hello (item video no_items)) two_blocks refl

abbrev broken : Items
broken = item hello (item video (item (int64 (pos 7)) no_items))

broken_fails : content_items 0 broken ≡ err (decode_block 2)
unfolding content_items block_at content_block_from_wire decode_content_block inner_of get
    is_server_tool_result inner_fields content_blocks
broken_fails = refl

content_blocks-IsFailure_example :
    ((v : Value) × (some (arr broken) ≡ some v)
      × (is_content v ≡ false)
      × (decode_block 2 ≡ parse_content_blocks))
    ⊎ ((xs : Items) × (some (arr broken) ≡ some (arr xs))
        × IsFailure 0 (to_list xs) (decode_block 2))
unfolding content_blocks_from_raw content_blocks
content_blocks-IsFailure_example =
    content_blocks-IsFailure (some (arr broken)) (decode_block 2) broken_fails

-- A user message with that content
abbrev user_line : Fields
user_line = field "type" (str "user") (field "message" (obj (field "content" (arr broken) end)) end)

abbrev user : InboundRoleMessage
user = record {
  type = "user";
  session_id = "";
  message = record { role = ""; content = some (arr broken) };
  uuid = none;
  parent_tool_use_id = none;
  model = "";
  usage = none;
  stop_reason = none;
  message_id = none;
  error = none;
  tool_use_result = none;
  origin = none;
}

user_decodes : decode_inbound_role_message user_line ≡ some user
unfolding decode_inbound_role_message decode_role_message_body get
user_decodes = refl

abbrev user_wire : WireMessage
user_wire = record empty_message { user = some user }

from_wire-fails_example :
    (m : InboundRoleMessage) × (f : ContentError) × (((user_wire.user ≡ some m)
        × (user_content (decode_block 2) ≡ user_content f))
      ⊎ ((user_wire.assistant ≡ some m) × (user_content (decode_block 2) ≡ assistant_content f)))
    × (content_blocks_from_raw m.message.content ≡ err f)
unfolding from_wire from_wire_user content_blocks_from_raw content_blocks content_items block_at
    content_block_from_wire decode_content_block inner_of get is_server_tool_result inner_fields
from_wire-fails_example = from_wire-fails spell user_wire (user_content (decode_block 2)) refl

abbrev idle_payload : SessionStateChangedPayload
idle_payload = record {
  state = some "idle";
  waiting_on_user = none;
  sdk_host_only = true;
  uuid = "";
  session_id = "";
}

abbrev idle_system : WireSystem
idle_system = record {
  type = "system";
  subtype = "session_state_changed";
  nested = none;
  task_id = "";
  description = "";
  session_id = "";
  uuid = "";
  raw = some idle;
}

yielded-from_wire_system_example :
    ((from_wire_system spell idle_system).session_state_changed
      ≡ some (record { session_id = ""; uuid = ""; state = "idle"; waiting_on_user = none }))
    × ((round {E = String}
          (received (from_wire_system spell idle_system) true)
          (start new_session_state)).yielded
        ≡ [])
unfolding decode_session_state_changed_payload get
yielded-from_wire_system_example =
    yielded-from_wire_system spell idle_system idle idle_payload "idle" true
      (start new_session_state) refl refl refl refl
