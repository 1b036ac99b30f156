-- ===== src/Agent/RunEnd/HostOnly.antt =====
-- hostOnly decodes the raw text of a system message a second time.
use claude_agent_sdk_go.Base.{String, ◌≡◌, refl, ap, ◌∙◌, Bool, [], ◌∷◌, if◌then◌else◌, some, none}
use claude_agent_sdk_go.Json.{Value, Fields, obj, null, end}
use claude_agent_sdk_go.Json.Decode.{
  bind-Always, decode_struct, get_bool, get_text, get_maybe_bool, get_maybe_text,
}
use claude_agent_sdk_go.Protocol.Wire.{SystemMessage as WireSystem}
use claude_agent_sdk_go.Protocol.Activity.{
  SessionStateChangedPayload, decode_session_state_changed_payload,
}
use claude_agent_sdk_go.Messages.Types.{Message, SystemMessage, new_message}
use claude_agent_sdk_go.Messages.Activity.{session_state_from_wire}
use claude_agent_sdk_go.Messages.Convert.{
  from_wire_system, system_payload_from_wire, switch_payload,
}
use claude_agent_sdk_go.Agent.RunEnd.Delivery.{yielded-received}
use claude_agent_sdk_go.Agent.RunEnd.{
  received, message, RunState, round, host_only, raw_host_only, decode_host_only,
}

-- The payload has the flag that hostOnly decodes.
abbrev IsRead : Fields → SessionStateChangedPayload → Type 0
IsRead m p = decode_host_only m ≡ some p.sdk_host_only

decode-IsRead :
    (m : Fields) (p : SessionStateChangedPayload)
    → decode_session_state_changed_payload m ≡ some p
    → IsRead m p
unfolding decode_session_state_changed_payload
decode-IsRead m = bind-Always (IsRead m) (get_maybe_text m "state") _ λ state _.
    bind-Always (IsRead m) (get_maybe_bool m "waiting_on_user") _ λ waiting _.
      bind-Always (IsRead m) (get_bool m "sdk_host_only") _ λ hidden read.
        bind-Always (IsRead m) (get_text m "uuid") _ λ uuid _.
          bind-Always (IsRead m) (get_text m "session_id") _
            λ session_id _ p h. let flag : some hidden ≡ some p.sdk_host_only = cc in read ∙ flag

raw_host_only-IsRead :
    (v : Value) (p : SessionStateChangedPayload)
    → decode_struct decode_session_state_changed_payload v ≡ some p
    → raw_host_only (some v) ≡ p.sdk_host_only
unfolding raw_host_only
raw_host_only-IsRead null p h = rw (decode-IsRead end p h, raw_host_only) refl
raw_host_only-IsRead (obj m) p h = rw (decode-IsRead m p h, raw_host_only) refl
raw_host_only-IsRead _ p h = absurd (cc)

switch_state :
    (spell : Value → String) (msg : Message) (v : Value) (p : SessionStateChangedPayload)
    → decode_struct decode_session_state_changed_payload v ≡ some p
    → switch_payload spell "session_state_changed" msg v
      ≡ record msg { session_state_changed = session_state_from_wire p }
unfolding switch_payload
switch_state spell msg v p read =
    ap
      (λ o. elim o [
        | none ↦ msg
        | some q ↦ record msg { session_state_changed = session_state_from_wire q }
      ])
      read

state_from_wire :
    (p : SessionStateChangedPayload) (state : String)
    → p.state ≡ some state
    → session_state_from_wire p
      ≡ some (record {
        session_id = p.session_id;
        uuid = p.uuid;
        state = state;
        waiting_on_user = p.waiting_on_user;
      })
unfolding session_state_from_wire
state_from_wire p state h = rw (h, session_state_from_wire) refl

-- For a state change whose payload decodes and has a state, the message has that state, and a round of
-- run that receives it, in any state and whatever the consumer answers, yields it to the consumer
-- exactly if the payload does not say that it is for the host only.
pub yielded-from_wire_system :
    {E : Type 0} (spell : Value → String) (m : WireSystem) (v : Value)
    (p : SessionStateChangedPayload) (state : String) (accepts : Bool) (r : RunState)
    → m.subtype ≡ "session_state_changed"
    → m.raw ≡ some v
    → decode_struct decode_session_state_changed_payload v ≡ some p
    → p.state ≡ some state
    → ((from_wire_system spell m).session_state_changed
        ≡ some (record {
          session_id = p.session_id;
          uuid = p.uuid;
          state = state;
          waiting_on_user = p.waiting_on_user;
        }))
      × ((round {E = E} (received (from_wire_system spell m) accepts) r).yielded
          ≡ (if p.sdk_host_only then [] else message (from_wire_system spell m) ∷ []))
unfolding from_wire_system system_payload_from_wire host_only
yielded-from_wire_system spell m v p state accepts r sub raw read has_state =
    let s : SystemMessage = record {
      session_id = m.session_id;
      subtype = m.subtype;
      nested = m.nested;
      task_id = m.task_id;
      uuid = m.uuid;
      raw = m.raw;
    } in
    let msg : Message = record new_message { system = some s } in
    let changed = session_state_from_wire p in
    let whole : from_wire_system spell m ≡ record msg { session_state_changed = changed } =
      ap (λ o. elim o [ none ↦ msg | some w ↦ switch_payload spell m.subtype msg w ]) raw
      ∙ ap (λ t. switch_payload spell t msg v) sub
      ∙ switch_state spell msg v p read in
    let whole_message = from_wire_system spell m in
    let given = state_from_wire p state has_state in
    (
      ap (λ x. x.session_state_changed) whole ∙ given,
      yielded-received whole_message accepts r
          ∙ ap (λ b. if b then [] else message whole_message ∷ [])
              (ap host_only (whole ∙ ap (λ o. record msg { session_state_changed = o }) given)
                ∙ ap raw_host_only raw
                ∙ raw_host_only-IsRead v p read),
    )
