-- ===== src/Agent/Lines.antt =====
-- domains/agent/session_manager.go: what a round of readLoop makes of a line, from its text on. A decoded
-- line that is not a message goes to the case of the switch of readLoop, any other to FromWire.
pub mod Delivered
use claude_agent_sdk_go.Base.{String, Option, none, some}
use claude_agent_sdk_go.Base.Result.{Result, ok, err}
use claude_agent_sdk_go.Json.{Value}
use claude_agent_sdk_go.Protocol.Parser.{WireMessage, parse_line}
use claude_agent_sdk_go.Messages.Types.{Message}
use claude_agent_sdk_go.Messages.Convert.{ConvertError, from_wire}
use claude_agent_sdk_go.Agent.Control.{
  Frame, transcript_mirror, control_response, control_request, control_cancel, end_frame,
  error_frame, message_frame, Received, undecodable, line,
}

-- msg, convertErr := messages.FromWire(wire), where an error is a message that there is not
abbrev pub message_or_none : Result ConvertError (Option Message) → Option Message
message_or_none (ok msg) = msg
message_or_none (err e) = none

-- The text of a json.RawMessage
abbrev pub spelled : (Value → String) → Option Value → String
spelled spell none = ""
spelled spell (some v) = spell v

module _ (parse_json : String → Option Value) (spell : Value → String) where
  -- The switch of readLoop
  unfoldable pub frame_of : WireMessage → Frame
  frame_of w = elim w.transcript_mirror [
    | some m ↦ transcript_mirror m.file_path m.entries
    | none ↦ elim w.control_response [
      | some m ↦
          control_response m.response.request_id
            (record { body = spelled spell m.response.response; err = m.response.error })
      | none ↦ elim w.control_request [
        | some m ↦ control_request m.request_id
        | none ↦ elim w.control_cancel [
          | some m ↦ control_cancel m.request_id
          | none ↦ elim w.end [
            | some m ↦ end_frame
            | none ↦ elim w.error [
              | some m ↦ error_frame m.message
              | none ↦ message_frame (message_or_none (from_wire spell w))
            ]
          ]
        ]
      ]
    ]
  ]

  -- The error of ParseLine goes to errCh, by the text of its message
  unfoldable pub received_of : String → Received
  received_of text = elim (parse_line parse_json text) [
    | err e ↦ undecodable e.msg
    | ok w ↦ line (frame_of w)
  ]
