-- ===== src/Agent/ErrorLine.antt =====
-- domains/agent/mirror.go: mirrorErrorLine, and session_manager.go: deliverMirrorError, which reads that
-- line back as a message. The line is the value that json.Marshal writes, with sorted keys, and `uuid`
-- is what reqid.New gives.
use claude_agent_sdk_go.Base.{String, ◌≡◌, refl, ap, Option, none, some, [], ◌∷◌}
use claude_agent_sdk_go.Base.Result.{Result, ok, err}
use claude_agent_sdk_go.Json.{Value, Fields, str, obj, get}
use claude_agent_sdk_go.Json.Encode.{fields_of, omit_text}
use claude_agent_sdk_go.Json.Decode.{decode_struct}
use claude_agent_sdk_go.Sessions.Types.{SessionKey}
use claude_agent_sdk_go.Protocol.Wire.{
  decode_envelope, decode_system_message, SystemMessage as WireSystem,
}
use claude_agent_sdk_go.Protocol.Parser.{WireMessage, DecodeError, parse_line}
use claude_agent_sdk_go.Messages.Types.{Message}
use claude_agent_sdk_go.Messages.Convert.{from_wire, switch_wire, from_wire_system}
use claude_agent_sdk_go.Messages.Convert.Payloads.{IsCarried, from_wire_system-IsCarried}
use claude_agent_sdk_go.Agent.Lines.{message_or_none}
use claude_agent_sdk_go.Agent.Lines.Delivered.{system_line}

unfoldable pub key_fields : SessionKey → Fields
key_fields k = fields_of (
    ("project_key", some (str k.project_key))
    ∷ ("session_id", some (str k.session_id))
    ∷ ("subpath", omit_text k.subpath)
    ∷ [])

abbrev session_of : Option SessionKey → String
session_of none = ""
session_of (some k) = k.session_id

abbrev key_value : Option SessionKey → Option Value
key_value none = none
key_value (some k) = some (obj (key_fields k))

-- mirrorErrorLine
unfoldable pub mirror_error_line : String → Option SessionKey → String → Value
mirror_error_line uuid key err_text = obj (
    fields_of (
      ("error", some (str err_text))
      ∷ ("key", key_value key)
      ∷ ("session_id", some (str (session_of key)))
      ∷ ("subtype", some (str "mirror_error"))
      ∷ ("type", some (str "system"))
      ∷ ("uuid", some (str uuid))
      ∷ []))

module _ (parse_json : String → Option Value) (spell : Value → String) where
  abbrev message_of_wire : Result DecodeError WireMessage → Option Message
  message_of_wire (err e) = none
  message_of_wire (ok w) = message_or_none (from_wire spell w)

  -- deliverMirrorError: the message that it offers to the consumer, if any
  unfoldable pub deliver_mirror_error : String → Option Message
  deliver_mirror_error text = message_of_wire (parse_line parse_json text)

-- The line decodes as a system message.
error_system : String → Option SessionKey → WireSystem
error_system uuid key = record {
  type = "system";
  subtype = "mirror_error";
  nested = none;
  task_id = "";
  description = "";
  session_id = session_of key;
  uuid = uuid;
  raw = none;
}

line_decodes :
    (uuid : String) (key : Option SessionKey) (e : String)
    → decode_struct decode_system_message (mirror_error_line uuid key e)
      ≡ some (error_system uuid key)
unfolding error_system mirror_error_line fields_of decode_system_message get
line_decodes uuid none e = refl
line_decodes uuid (some k) e = refl

line_typed :
    (uuid : String) (key : Option SessionKey) (e : String)
    → decode_struct decode_envelope (mirror_error_line uuid key e)
      ≡ some (record { type = "system" })
unfolding mirror_error_line fields_of decode_envelope get
line_typed uuid none e = refl
line_typed uuid (some k) e = refl

-- Where encoding/json reads back the line of a failed append, the report is a system message of subtype
-- mirror_error, for the session of the key if there is one, with the whole line as its raw value.
pub deliver_mirror_error-IsCarried :
    (parse_json : String → Option Value) (spell : Value → String) (text uuid : String)
    (key : Option SessionKey) (e : String)
    → parse_json text ≡ some (mirror_error_line uuid key e)
    → (msg : Message) × (deliver_mirror_error parse_json spell text ≡ some msg)
      × IsCarried
          (record {
            session_id = session_of key;
            subtype = "mirror_error";
            nested = none;
            task_id = "";
            uuid = uuid;
            raw = some (mirror_error_line uuid key e);
          })
          msg
unfolding deliver_mirror_error error_system from_wire switch_wire
deliver_mirror_error-IsCarried parse_json spell text uuid key e read =
    let v = mirror_error_line uuid key e in
    let w : WireSystem = record (error_system uuid key) { raw = some v } in
    (
      from_wire_system spell w,
      ap (message_of_wire parse_json spell) (
          system_line parse_json spell text v _ _ read (line_typed uuid key e) refl
            (line_decodes uuid key e)),
      from_wire_system-IsCarried spell w,
    )
