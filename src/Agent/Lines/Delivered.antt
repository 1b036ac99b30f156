-- ===== src/Agent/Lines/Delivered.antt =====
-- What readLoop does with the lines of system messages and of types that it does not know.
use claude_agent_sdk_go.Base.{String, ◌≡◌, refl, ap, ◌∙◌, Bool, true, false, Option, none, some}
use claude_agent_sdk_go.Base.Result.{ok, ◌>>=◌, ok_or-some}
use claude_agent_sdk_go.Json.{Value}
use claude_agent_sdk_go.Json.Decode.{decode_struct}
use claude_agent_sdk_go.Protocol.Wire.{
  Envelope, decode_envelope, SystemMessage as WireSystem, decode_system_message,
}
use claude_agent_sdk_go.Protocol.Parser.{
  WireMessage, empty_message, decode_as, parse_type, parse_line,
}
use claude_agent_sdk_go.Protocol.Parser.Steps.{parse_line_typed}
use claude_agent_sdk_go.Protocol.Parser.OneField.{is_message_type, parse_type_unknown}
use claude_agent_sdk_go.Messages.Types.{Message}
use claude_agent_sdk_go.Messages.Convert.{from_wire, switch_wire, from_wire_system}
use claude_agent_sdk_go.Messages.Convert.Payloads.{IsCarried, from_wire_system-IsCarried}
use claude_agent_sdk_go.Agent.Control.{
  Manager, read_round, on_frame, on_message, record_action, deliver, line,
}
use claude_agent_sdk_go.Agent.Lines.{frame_of, received_of}

on_message_quiet :
    (has_store : Bool) (msg : Message) (m : Manager)
    → msg.result ≡ none
    → on_message has_store (some msg) false m ≡ record_action (deliver msg) m
unfolding on_message
on_message_quiet true msg m h = rw h refl
on_message_quiet false msg m h = refl

module _ (parse_json : String → Option Value) (spell : Value → String) where
  received_of-eq :
      (text : String) (w : WireMessage)
      → parse_line parse_json text ≡ ok w
      → received_of parse_json spell text ≡ line (frame_of parse_json spell w)
  unfolding received_of
  received_of-eq text w h = rw (h, received_of) refl

  -- The value that ParseLine makes of a system line
  pub system_line :
      (text : String) (v : Value) (env : Envelope) (s : WireSystem)
      → parse_json text ≡ some v
      → decode_struct decode_envelope v ≡ some env
      → env.type ≡ "system"
      → decode_struct decode_system_message v ≡ some s
      → parse_line parse_json text
        ≡ ok (record empty_message { system = some (record s { raw = some v }) })
  unfolding parse_type decode_as
  system_line text v env s h read typed decoded =
      parse_line_typed parse_json text v env h read
      ∙ ap (λ t. parse_type t text v) typed
      ∙ ap
          (λ r.
            r >>= (λ m. ok (record empty_message { system = some (record m { raw = some v }) })))
          (ok_or-some _ (decode_struct decode_system_message v) decoded)

  -- readLoop delivers a system message for every line of type "system" whose own fields decode: its
  -- payload may be unknown or broken, and the message has the whole line as its raw value.
  pub system_line-delivers :
      (has_store : Bool) (text : String) (v : Value) (env : Envelope) (s : WireSystem) (m : Manager)
      → parse_json text ≡ some v
      → decode_struct decode_envelope v ≡ some env
      → env.type ≡ "system"
      → decode_struct decode_system_message v ≡ some s
      → (msg : Message) × (read_round has_store (received_of parse_json spell text) false m
          ≡ some (record_action (deliver msg) m))
        × IsCarried
            (record {
              session_id = s.session_id;
              subtype = s.subtype;
              nested = s.nested;
              task_id = s.task_id;
              uuid = s.uuid;
              raw = some v;
            })
            msg
  unfolding read_round on_frame on_message frame_of from_wire switch_wire
  system_line-delivers has_store text v env s m h read typed decoded =
      let w : WireSystem = record s { raw = some v } in
      let carried = from_wire_system-IsCarried spell w in
      let msg = from_wire_system spell w in
      let received = received_of-eq text _ (system_line text v env s h read typed decoded) in
      (
        msg,
        ap (λ r. read_round has_store r false m) received
            ∙ ap some (on_message_quiet has_store msg m carried.no_result),
        carried,
      )

  -- A line of a type that ParseLine does not know changes nothing: readLoop goes on to the next.
  pub unknown_line-skipped :
      (has_store : Bool) (text : String) (v : Value) (env : Envelope) (gave_up : Bool) (m : Manager)
      → parse_json text ≡ some v
      → decode_struct decode_envelope v ≡ some env
      → is_message_type env.type ≡ false
      → read_round has_store (received_of parse_json spell text) gave_up m ≡ some m
  unfolding read_round on_frame on_message frame_of from_wire switch_wire
  unknown_line-skipped has_store text v env gave_up m h read unknown =
      ap (λ r. read_round has_store r gave_up m)
        (received_of-eq text empty_message (
          parse_line_typed parse_json text v env h read
          ∙ parse_type_unknown env.type text v unknown))
