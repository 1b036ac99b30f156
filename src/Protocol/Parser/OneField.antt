-- ===== src/Protocol/Parser/OneField.antt =====
-- What ParseLine sets of a WireMessage.
use claude_agent_sdk_go.Base.{
  String, ◌≡◌, refl, Option, none, some, List, [], ◌∷◌, ◌++◌, inl, inr, Bool-cases, eq_iff, ap, ◌∙◌,
  if_true, if_false, true, false, Bool, ◌||◌, subst, sym, str_eq, string_eq, if◌then◌else◌, arith,
}
use claude_agent_sdk_go.Base.Result.{Result, ok, ◌>>=◌, bind-eq-ok}
use claude_agent_sdk_go.Json.{Value, Fields}
use claude_agent_sdk_go.Json.Decode.{decode_struct}
use claude_agent_sdk_go.Protocol.Wire.{Envelope, decode_envelope}
use claude_agent_sdk_go.Protocol.Wire.{
  decode_inbound_role_message, decode_result_message, decode_system_message,
}
use claude_agent_sdk_go.Protocol.Frames.{
  decode_control_cancel_request, decode_control_request_envelope, decode_control_response_envelope,
  decode_conversation_reset_message, decode_end_message, decode_error_message,
  decode_rate_limit_event, decode_stream_event, decode_transcript_mirror,
}
use claude_agent_sdk_go.Protocol.Parser.Steps.{parse_line-eq-ok}
use claude_agent_sdk_go.Protocol.Parser.{
  WireMessage, empty_message, DecodeError, decode_as, parse_type, parse_line,
}

abbrev pub if_set {ℓ} : {A : Type ℓ} → String → Option A → List String
if_set t none = []
if_set t (some a) = t ∷ []

-- The types whose field is not nil
abbrev pub set_fields : WireMessage → List String
set_fields w =
    if_set "user" w.user
    ++ if_set "assistant" w.assistant
    ++ if_set "system" w.system
    ++ if_set "result" w.result
    ++ if_set "stream_event" w.stream_event
    ++ if_set "rate_limit_event" w.rate_limit_event
    ++ if_set "transcript_mirror" w.transcript_mirror
    ++ if_set "conversation_reset" w.conv_reset
    ++ if_set "control_request" w.control_request
    ++ if_set "control_response" w.control_response
    ++ if_set "control_cancel_request" w.control_cancel
    ++ if_set "end" w.end
    ++ if_set "error" w.error

-- The types that ParseLine knows
abbrev pub is_message_type : String → Bool
is_message_type t =
    str_eq t "user"
    || str_eq t "assistant"
    || str_eq t "system"
    || str_eq t "result"
    || str_eq t "stream_event"
    || str_eq t "rate_limit_event"
    || str_eq t "transcript_mirror"
    || str_eq t "conversation_reset"
    || str_eq t "control_request"
    || str_eq t "control_response"
    || str_eq t "control_cancel_request"
    || str_eq t "end"
    || str_eq t "error"

-- A parse of a line of type `t` sets the field of the type alone, or no field where it knows none.
abbrev Sets : String → Result DecodeError WireMessage → Type 0
Sets t r = (w : WireMessage) → r ≡ ok w → set_fields w ≡ (if is_message_type t then t ∷ [] else [])

set-Sets :
    {A : Type 0} (k : String) (decode : Fields → Option A) (set : A → WireMessage)
    (msg line : String) (v : Value)
    → is_message_type k ≡ true
    → ((a : A) → set_fields (set a) ≡ k ∷ [])
    → Sets k (decode_as decode msg line v >>= (λ a. ok (set a)))
set-Sets k decode set msg line v known sets w h =
    let (a, read, same) = bind-eq-ok (decode_as decode msg line v) (λ a. ok (set a)) h in
    let e : set a ≡ w = cc in ap set_fields (sym e) ∙ sets a ∙ sym (if_true _ _ _ known)

case-Sets :
    (k t : String) {r rest : Result DecodeError WireMessage}
    → Sets k r
    → (str_eq t k ≡ false → Sets t rest)
    → Sets t (if str_eq t k then r else rest)
case-Sets k t {r} {rest} here others =
    elim (Bool-cases (str_eq t k)) as (λ _. Sets t (if str_eq t k then r else rest)) [
      | inl same ↦
          subst (Sets t) (sym (if_true _ _ _ same))
            (subst (λ s. Sets s r) (sym ((eq_iff t k).0 same)) here)
      | inr other ↦ subst (Sets t) (sym (if_false _ _ _ other)) (others other)
    ]

parse_type-Sets : (t line : String) (v : Value) → Sets t (parse_type t line v)
unfolding parse_type
parse_type-Sets t line v =
    case-Sets "user" t
      (set-Sets "user" decode_inbound_role_message (λ m. record empty_message { user = some m }) _
        line v refl (λ m. refl))
      (λ n0.
        case-Sets "assistant" t
          (set-Sets "assistant" decode_inbound_role_message
            (λ m. record empty_message { assistant = some m }) _ line v refl (λ m. refl))
          (λ n1.
            case-Sets "system" t
              (set-Sets "system" decode_system_message
                (λ m. record empty_message { system = some (record m { raw = some v }) }) _ line v
                refl (λ m. refl))
              (λ n2.
                case-Sets "result" t
                  (set-Sets "result" decode_result_message
                    (λ m. record empty_message { result = some m }) _ line v refl (λ m. refl))
                  (λ n3.
                    case-Sets "stream_event" t
                      (set-Sets "stream_event" decode_stream_event
                        (λ m. record empty_message { stream_event = some m }) _ line v refl
                        (λ m. refl))
                      (λ n4.
                        case-Sets "rate_limit_event" t
                          (set-Sets "rate_limit_event" decode_rate_limit_event
                            (λ m. record empty_message { rate_limit_event = some m }) _ line v refl
                            (λ m. refl))
                          (λ n5.
                            case-Sets "transcript_mirror" t
                              (set-Sets "transcript_mirror" decode_transcript_mirror
                                (λ m. record empty_message { transcript_mirror = some m }) _ line v
                                refl (λ m. refl))
                              (λ n6.
                                case-Sets "conversation_reset" t
                                  (set-Sets "conversation_reset" decode_conversation_reset_message
                                    (λ m. record empty_message { conv_reset = some m }) _ line v
                                    refl (λ m. refl))
                                  (λ n7.
                                    case-Sets "control_request" t
                                      (set-Sets "control_request" decode_control_request_envelope
                                        (λ m. record empty_message { control_request = some m }) _
                                        line v refl (λ m. refl))
                                      (λ n8.
                                        case-Sets "control_response" t
                                          (set-Sets "control_response"
                                            decode_control_response_envelope
                                            (λ m. record empty_message {
                                              control_response = some m;
                                            })
                                            _ line v refl (λ m. refl))
                                          (λ n9.
                                            case-Sets "control_cancel_request" t
                                              (set-Sets "control_cancel_request"
                                                decode_control_cancel_request
                                                (λ m. record empty_message {
                                                  control_cancel = some m;
                                                })
                                                _ line v refl (λ m. refl))
                                              (λ n10.
                                                case-Sets "end" t
                                                  (set-Sets "end" decode_end_message
                                                    (λ m. record empty_message { end = some m }) _
                                                    line v refl (λ m. refl))
                                                  (λ n11.
                                                    case-Sets "error" t
                                                      (set-Sets "error" decode_error_message
                                                        (λ m. record empty_message {
                                                          error = some m;
                                                        })
                                                        _ line v refl (λ m. refl))
                                                      (λ n12. λ w h.
                                                        let e : empty_message ≡ w = cc in
                                                        ap set_fields (sym e)
                                                        ∙ sym (
                                                            if_false (is_message_type t) (t ∷ []) []
                                                            (rw
                                                            (
                                                            n0, n1, n2, n3, n4, n5, n6, n7, n8, n9,
                                                            n10, n11, n12,
                                                            )
                                                            refl)))))))))))))))

pub parse_type_unknown :
    (t line : String) (v : Value)
    → is_message_type t ≡ false
    → parse_type t line v ≡ ok empty_message
unfolding parse_type
parse_type_unknown t line v h = ground arith

-- A line that ParseLine accepts is JSON with a type, and the message has the field of that type
-- alone, or no field at all where the type is none of the thirteen.
pub parse_line-Sets :
    (parse_json : String → Option Value) (line : String) (w : WireMessage)
    → parse_line parse_json line ≡ ok w
    → (v : Value) × (env : Envelope) × (parse_json line ≡ some v)
      × (decode_struct decode_envelope v ≡ some env)
      × (set_fields w ≡ (if is_message_type env.type then env.type ∷ [] else []))
parse_line-Sets parse_json line w h =
    let (v, env, decoded, read, parsed) = parse_line-eq-ok parse_json line w h in
    (v, env, decoded, read, parse_type-Sets env.type line v w parsed)
