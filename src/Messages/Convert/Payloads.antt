-- ===== src/Messages/Convert/Payloads.antt =====
-- What FromWire makes of a system message, and where it fails.
use claude_agent_sdk_go.Base.{
  Bool, true, String, ◌≡◌, refl, ap, ◌∙◌, sym, true, Option, some, none, inl, inr, ◌⊎◌, List, [],
  ◌∷◌, ◌++◌, str_eq, if-cases, if_true, eq_iff, if◌then◌else◌, Option-cases,
}
use claude_agent_sdk_go.Base.Result.{Result, ok, err, ◌>>=◌, wrap_error}
use claude_agent_sdk_go.Json.{Value, Fields}
use claude_agent_sdk_go.Json.Decode.{decode_struct}
use claude_agent_sdk_go.Protocol.Wire.{InboundRoleMessage, SystemMessage as WireSystem}
use claude_agent_sdk_go.Protocol.Parser.{WireMessage}
use claude_agent_sdk_go.Protocol.Parser.OneField.{if_set}
use claude_agent_sdk_go.Messages.Blocks.{ContentError, ContentBlocks, content_blocks_from_raw}
use claude_agent_sdk_go.Messages.Tasks.{TaskUpdatedMessage, task_updated_from_wire}
use claude_agent_sdk_go.Messages.Activity.{
  SessionStateChangedMessage, BackgroundTasksChangedMessage, HookEventMessage,
  session_state_from_wire, background_tasks_from_wire, hook_event_from_wire,
}
use claude_agent_sdk_go.Protocol.Lifecycle.{
  decode_task_started_payload, decode_task_progress_payload, decode_task_updated_payload,
  decode_task_notification_payload,
}
use claude_agent_sdk_go.Protocol.Activity.{
  decode_hook_event_payload, decode_session_state_changed_payload,
  decode_background_tasks_changed_payload, decode_permission_denied_payload,
}
use claude_agent_sdk_go.Protocol.Events.{
  decode_api_retry_payload, decode_thinking_tokens_payload, decode_compact_boundary_payload,
  decode_informational_payload, decode_init_payload,
}
use claude_agent_sdk_go.Messages.Types.{Message, new_message, SystemMessage}
use claude_agent_sdk_go.Messages.Convert.{
  ConvertError, user_content, assistant_content, from_wire, from_wire_user, from_wire_assistant,
  some_message, with_payload, is_hook_event, switch_payload, system_payload_from_wire,
  from_wire_system,
}

-- The typed payloads of a message that are not nil, by the subtype that they are of
abbrev pub set_payloads : Message → List String
set_payloads m =
    if_set "task_started" m.task_started
    ++ if_set "task_progress" m.task_progress
    ++ if_set "task_updated" m.task_updated
    ++ if_set "task_notification" m.task_notification
    ++ if_set "hook_event" m.hook_event
    ++ if_set "session_state_changed" m.session_state_changed
    ++ if_set "background_tasks_changed" m.background_tasks_changed
    ++ if_set "permission_denied" m.permission_denied
    ++ if_set "api_retry" m.api_retry
    ++ if_set "thinking_tokens" m.thinking_tokens
    ++ if_set "compact_boundary" m.compact_boundary
    ++ if_set "init" m.init
    ++ if_set "informational" m.informational

-- The three phases of a hook have one payload.
abbrev pub payload_of : String → String
payload_of s = if is_hook_event s then "hook_event" else s

-- `m` has the system message `s`, no result, and no payload but at most that of its subtype.
pub record IsCarried (s : SystemMessage) (m : Message) : Type 0 where
  pub carries : m.system ≡ some s
  pub no_result : m.result ≡ none
  pub payload : (set_payloads m ≡ []) ⊎ (set_payloads m ≡ payload_of s.subtype ∷ [])

module _ (s : SystemMessage) where
  abbrev base : Message
  base = record new_message { system = some s }

  base-IsCarried : IsCarried s base
  base-IsCarried = record { carries = refl; no_result = refl; payload = inl refl }

  named-IsCarried :
      (k : String) (m : Message)
      → m.system ≡ some s
      → m.result ≡ none
      → set_payloads m ≡ payload_of k ∷ []
      → str_eq s.subtype k ≡ true
      → IsCarried s m
  named-IsCarried k m carries no_result one same = record {
    carries = carries;
    no_result = no_result;
    payload = inr (one ∙ ap (λ t. payload_of t ∷ []) (sym ((eq_iff s.subtype k).0 same)));
  }

  with_payload-IsCarried :
      {P : Type 0} (decode : Fields → Option P) (set : P → Message) (raw : Value)
      → ((p : P) → IsCarried s (set p))
      → IsCarried s (with_payload decode set base raw)
  with_payload-IsCarried decode set raw each =
      elim (decode_struct decode raw)
        as (λ o. IsCarried s (elim o [ none ↦ base | some p ↦ set p ])) [
          | none ↦ base-IsCarried
          | some p ↦ each p
        ]

  state-IsCarried :
      (o : Option SessionStateChangedMessage)
      → str_eq s.subtype "session_state_changed" ≡ true
      → IsCarried s (record base { session_state_changed = o })
  state-IsCarried none h = record { carries = refl; no_result = refl; payload = inl refl }
  state-IsCarried (some c) h = named-IsCarried "session_state_changed" _ refl refl refl h

  tasks-IsCarried :
      (o : Option BackgroundTasksChangedMessage)
      → str_eq s.subtype "background_tasks_changed" ≡ true
      → IsCarried s (record base { background_tasks_changed = o })
  tasks-IsCarried none h = record { carries = refl; no_result = refl; payload = inl refl }
  tasks-IsCarried (some c) h = named-IsCarried "background_tasks_changed" _ refl refl refl h

  updated-IsCarried :
      (o : Option TaskUpdatedMessage)
      → str_eq s.subtype "task_updated" ≡ true
      → IsCarried s (elim o [ none ↦ base | some t ↦ record base { task_updated = some t } ])
  updated-IsCarried none h = base-IsCarried
  updated-IsCarried (some t) h = named-IsCarried "task_updated" _ refl refl refl h

  hook-IsCarried :
      (e : HookEventMessage)
      → is_hook_event s.subtype ≡ true
      → IsCarried s (record base { hook_event = some e })
  hook-IsCarried e h = record {
    carries = refl;
    no_result = refl;
    payload = inr (ap (λ k. k ∷ []) (sym (if_true _ _ _ h)));
  }

  infixr 3 ◌or◌
  abbrev ◌or◌ :
      {b : Bool} {m n : Message}
      → (b ≡ true → IsCarried s m)
      → IsCarried s n
      → IsCarried s (if b then m else n)
  ◌or◌ {b} here there = if-cases (IsCarried s) b here (λ _. there)

  switch_payload-IsCarried :
      (spell : Value → String) (raw : Value) → IsCarried s (switch_payload spell s.subtype base raw)
  unfolding switch_payload
  switch_payload-IsCarried spell raw =
      (λ h.
        with_payload-IsCarried decode_task_started_payload _ raw
          (λ p. named-IsCarried "task_started" _ refl refl refl h))
      or (λ h.
          with_payload-IsCarried decode_task_progress_payload _ raw
            (λ p. named-IsCarried "task_progress" _ refl refl refl h))
      or (λ h.
          with_payload-IsCarried decode_task_updated_payload _ raw
            (λ p. updated-IsCarried (task_updated_from_wire p) h))
      or (λ h.
          with_payload-IsCarried decode_task_notification_payload _ raw
            (λ p. named-IsCarried "task_notification" _ refl refl refl h))
      or (λ h.
          with_payload-IsCarried decode_hook_event_payload _ raw
            (λ p. hook-IsCarried (hook_event_from_wire s.subtype p) h))
      or (λ h.
          with_payload-IsCarried decode_session_state_changed_payload _ raw
            (λ p. state-IsCarried (session_state_from_wire p) h))
      or (λ h.
          with_payload-IsCarried decode_background_tasks_changed_payload _ raw
            (λ p. tasks-IsCarried (background_tasks_from_wire p) h))
      or (λ h.
          with_payload-IsCarried decode_compact_boundary_payload _ raw
            (λ p. named-IsCarried "compact_boundary" _ refl refl refl h))
      or (λ h.
          with_payload-IsCarried decode_init_payload _ raw
            (λ p. named-IsCarried "init" _ refl refl refl h))
      or (λ h.
          with_payload-IsCarried decode_informational_payload _ raw
            (λ p. named-IsCarried "informational" _ refl refl refl h))
      or (λ h.
          with_payload-IsCarried decode_thinking_tokens_payload _ raw
            (λ p. named-IsCarried "thinking_tokens" _ refl refl refl h))
      or (λ h.
          with_payload-IsCarried decode_api_retry_payload _ raw
            (λ p. named-IsCarried "api_retry" _ refl refl refl h))
      or (λ h.
          with_payload-IsCarried decode_permission_denied_payload _ raw
            (λ p. named-IsCarried "permission_denied" _ refl refl refl h))
      or base-IsCarried

-- A system message never fails to convert: whatever its payload, the message that the caller gets has
-- the system message with its raw text, and no typed payload but at most the one of its subtype.
pub from_wire_system-IsCarried :
    (spell : Value → String) (m : WireSystem)
    → IsCarried
        (record {
          session_id = m.session_id;
          subtype = m.subtype;
          nested = m.nested;
          task_id = m.task_id;
          uuid = m.uuid;
          raw = m.raw;
        })
        (from_wire_system spell m)
unfolding from_wire_system system_payload_from_wire
from_wire_system-IsCarried spell m =
    let s : SystemMessage = record {
      session_id = m.session_id;
      subtype = m.subtype;
      nested = m.nested;
      task_id = m.task_id;
      uuid = m.uuid;
      raw = m.raw;
    } in
    elim m.raw
      as (λ raw.
        IsCarried s
          (elim raw [ none ↦ base s | some v ↦ switch_payload spell m.subtype (base s) v ])) [
            | none ↦ base-IsCarried s
            | some v ↦ switch_payload-IsCarried s spell v
          ]

wrapped-eq-err :
    (w : ContentError → ConvertError) (r : Result ContentError ContentBlocks)
    (set : ContentBlocks → Message) (e : ConvertError)
    → (wrap_error w r >>= (λ b. ok (set b))) >>= some_message ≡ err e
    → (f : ContentError) × (e ≡ w f) × (r ≡ err f)
wrapped-eq-err w (ok b) set e h = cc
wrapped-eq-err w (err f) set e h = (f, cc, refl)

-- FromWire fails only for a user or an assistant message, and only where its content fails.
pub from_wire-fails :
    (spell : Value → String) (w : WireMessage) (e : ConvertError)
    → from_wire spell w ≡ err e
    → (m : InboundRoleMessage) × (f : ContentError) × (((w.user ≡ some m) × (e ≡ user_content f))
        ⊎ ((w.assistant ≡ some m) × (e ≡ assistant_content f)))
      × (content_blocks_from_raw m.message.content ≡ err f)
unfolding from_wire from_wire_user from_wire_assistant
from_wire-fails spell w e h = elim (Option-cases w.user) [
  | inr (m, is_user) ↦
      let (f, same, failed) =
        wrapped-eq-err user_content (content_blocks_from_raw m.message.content) _ e
          (rw (is_user, from_wire) at h) in
      (m, f, inl (is_user, same), failed)
  | inl no_user ↦ elim (Option-cases w.assistant) [
    | inr (m, is_assistant) ↦
        let (f, same, failed) =
          wrapped-eq-err assistant_content (content_blocks_from_raw m.message.content) _ e
            (rw (no_user, is_assistant, from_wire) at h) in
        (m, f, inr (is_assistant, same), failed)
    | inl no_assistant ↦ absurd (cc (rw (no_user, no_assistant, from_wire) at h))
  ]
]
