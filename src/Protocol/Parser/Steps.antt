-- ===== src/Protocol/Parser/Steps.antt =====
-- What the steps of ParseLine did where it went through.
use claude_agent_sdk_go.Base.{String, ◌≡◌, Option, some, ap, ◌∙◌}
use claude_agent_sdk_go.Base.Result.{ok, ◌>>=◌, bind-eq-ok, ok_or, ok_or-eq-ok, ok_or-some}
use claude_agent_sdk_go.Json.{Value}
use claude_agent_sdk_go.Json.Decode.{decode_struct}
use claude_agent_sdk_go.Protocol.Wire.{Envelope, decode_envelope}
use claude_agent_sdk_go.Protocol.Parser.{
  WireMessage, DecodeError, decode_as, parse_type, parse_value, parse_line,
}

abbrev not_json : String → DecodeError
not_json line = record { msg = "failed to decode CLI JSON"; line = line }

module _ (parse_json : String → Option Value) (line : String) where
  pub parse_line-eq-ok :
      (w : WireMessage)
      → parse_line parse_json line ≡ ok w
      → (v : Value) × (env : Envelope) × (parse_json line ≡ some v)
        × (decode_struct decode_envelope v ≡ some env)
        × (parse_type env.type line v ≡ ok w)
  unfolding parse_line parse_value decode_as
  parse_line-eq-ok w h =
      let (v, decoded, rest) =
        bind-eq-ok (ok_or (not_json line) (parse_json line)) (parse_value line) h in
      let (env, read, parsed) =
        bind-eq-ok (ok_or (not_json line) (decode_struct decode_envelope v))
          (λ env. parse_type env.type line v) rest in
      (
        v,
        env,
        ok_or-eq-ok _ (parse_json line) decoded,
        ok_or-eq-ok _ (decode_struct decode_envelope v) read,
        parsed,
      )

  pub parse_line_typed :
      (v : Value) (env : Envelope)
      → parse_json line ≡ some v
      → decode_struct decode_envelope v ≡ some env
      → parse_line parse_json line ≡ parse_type env.type line v
  unfolding parse_line parse_value decode_as
  parse_line_typed v env h read =
      ap (λ r. r >>= parse_value line) (ok_or-some (not_json line) (parse_json line) h)
      ∙ ap (λ r. r >>= (λ env. parse_type env.type line v))
          (ok_or-some (not_json line) (decode_struct decode_envelope v) read)
