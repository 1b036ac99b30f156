-- ===== src/Protocol/Builder/RoundTrip.antt =====
-- What the SDK builds, ParseLine and ParseControlRequestBody read back.
use claude_agent_sdk_go.Base.{String, ◌≡◌, refl, Option, none, some}
use claude_agent_sdk_go.Base.Result.{ok}
use claude_agent_sdk_go.Json.{Value, get}
use claude_agent_sdk_go.Protocol.Wire.{decode_envelope}
use claude_agent_sdk_go.Protocol.Frames.{
  ControlRequestEnvelope, decode_control_request_envelope, decode_control_response_envelope,
  decode_control_response_body,
}
use claude_agent_sdk_go.Protocol.Parser.{empty_message, decode_as, parse_type, parse_line}
use claude_agent_sdk_go.Protocol.Parser.Steps.{parse_line_typed}
use claude_agent_sdk_go.Protocol.Requests.{
  ControlBody, interrupt, set_permission_mode, set_model, parse_control_request_body, parse_subtype,
  decode_control_request_base, decode_interrupt_request_body, decode_set_perm_mode_request_body,
  decode_set_model_request_body,
}
use claude_agent_sdk_go.Protocol.Builder.{
  build_control_request, build_control_response, build_control_error_response,
  build_interrupt_request, build_set_permission_mode_request, build_set_model_request,
}

abbrev pub request_envelope : String → Value → ControlRequestEnvelope
request_envelope id body = record { type = "control_request"; request_id = id; request = some body }

-- The requests that builder.go has a function of their own for; the bodies of others go through
-- BuildControlRequest as they are.
pub data Sent : Type 0 where
  send_interrupt : Sent
  send_mode : String → Sent
  send_model : String → Sent

abbrev pub build_sent : String → Sent → Value
build_sent id send_interrupt = build_interrupt_request id
build_sent id (send_mode mode) = build_set_permission_mode_request id mode
build_sent id (send_model model) = build_set_model_request id model

abbrev pub body_of : Sent → ControlBody
body_of send_interrupt = interrupt (record { subtype = "interrupt" })
body_of (send_mode mode) =
    set_permission_mode (record { subtype = "set_permission_mode"; mode = mode })
body_of (send_model model) = set_model (record { subtype = "set_model"; model = model })

module _ (parse_json : String → Option Value) (text : String) where
  -- A line that decodes to what BuildControlRequest builds is read as that request.
  pub parse_line-build_control_request :
      (id : String) (body : Value)
      → parse_json text ≡ some (build_control_request id body)
      → parse_line parse_json text
        ≡ ok (record empty_message { control_request = some (request_envelope id body) })
  unfolding build_control_request decode_envelope get parse_type decode_as
      decode_control_request_envelope
  parse_line-build_control_request id body h =
      parse_line_typed parse_json text (build_control_request id body)
        (record { type = "control_request" }) h refl

  -- A response, or an error, is read as the one for its request.
  pub parse_line-build_control_response :
      (id : String) (body : Value)
      → parse_json text ≡ some (build_control_response id body)
      → parse_line parse_json text
        ≡ ok (record empty_message {
          control_response = some (record {
            type = "control_response";
            response = record {
              subtype = "success";
              request_id = id;
              response = some body;
              error = "";
            };
          });
        })
  unfolding build_control_response decode_envelope get parse_type decode_as
      decode_control_response_envelope decode_control_response_body
  parse_line-build_control_response id body h =
      parse_line_typed parse_json text (build_control_response id body)
        (record { type = "control_response" }) h refl

  pub parse_line-build_control_error_response :
      (id msg : String)
      → parse_json text ≡ some (build_control_error_response id msg)
      → parse_line parse_json text
        ≡ ok (record empty_message {
          control_response = some (record {
            type = "control_response";
            response = record { subtype = "error"; request_id = id; response = none; error = msg };
          });
        })
  unfolding build_control_error_response decode_envelope get parse_type decode_as
      decode_control_response_envelope decode_control_response_body
  parse_line-build_control_error_response id msg h =
      parse_line_typed parse_json text (build_control_error_response id msg)
        (record { type = "control_response" }) h refl

  -- The line is the control request of this id, with this body.
  abbrev pub IsRequest : String → ControlBody → Type 0
  IsRequest id body =
      (env : ControlRequestEnvelope) × (parse_line parse_json text
        ≡ ok (record empty_message { control_request = some env }))
      × (env.request_id ≡ id)
      × (parse_control_request_body env ≡ ok body)

  request_envelope-IsRequest :
      (id : String) (v : Value) (body : ControlBody)
      → parse_json text ≡ some (build_control_request id v)
      → parse_control_request_body (request_envelope id v) ≡ ok body
      → IsRequest id body
  request_envelope-IsRequest id v body h parsed =
      (request_envelope id v, parse_line-build_control_request id v h, refl, parsed)

  -- A line that decodes to what BuildInterruptRequest, BuildSetPermissionModeRequest or
  -- BuildSetModelRequest builds is read as the control request of that id, and
  -- ParseControlRequestBody gives the body that was built.
  pub build_sent-IsRequest :
      (id : String) (r : Sent) → parse_json text ≡ some (build_sent id r) → IsRequest id (body_of r)
  unfolding build_interrupt_request build_set_permission_mode_request build_set_model_request
      parse_control_request_body parse_subtype decode_control_request_base get
      decode_interrupt_request_body decode_set_perm_mode_request_body decode_set_model_request_body
  build_sent-IsRequest id send_interrupt h =
      request_envelope-IsRequest id _ (body_of send_interrupt) h refl
  build_sent-IsRequest id (send_mode mode) h =
      request_envelope-IsRequest id _ (body_of (send_mode mode)) h refl
  build_sent-IsRequest id (send_model model) h =
      request_envelope-IsRequest id _ (body_of (send_model model)) h refl
