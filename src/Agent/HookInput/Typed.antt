-- ===== src/Agent/HookInput/Typed.antt =====
-- The type of what ParseHookInput returns.
use claude_agent_sdk_go.Base.{
  String, Bool, true, false, ◌||◌, Option, none, some, ◌≡◌, refl, sym, ◌∙◌, subst, str_eq, eq_iff,
  if◌then◌else◌, if_true, if_false, if-cases,
}
use claude_agent_sdk_go.Base.Result.{Result, ok}
use claude_agent_sdk_go.Text.{is_empty}
use claude_agent_sdk_go.Json.{Value, Fields}
use claude_agent_sdk_go.Json.Decode.{decode_struct}
use claude_agent_sdk_go.Agent.HookFields.{
  BaseHookInput, decode_base_hook_input, decode_pre_tool_use_hook_input,
  decode_post_tool_use_hook_input, decode_post_tool_use_failure_hook_input,
  decode_user_prompt_submit_hook_input, decode_stop_hook_input, decode_subagent_stop_hook_input,
  decode_pre_compact_hook_input, decode_notification_hook_input, decode_subagent_start_hook_input,
  decode_permission_request_hook_input,
}
use claude_agent_sdk_go.Agent.HookInput.{
  HookFields, HookInput, HookInputError, fields_as, input_with, input_of, parse_base, parse_named,
  parse_hook_input, unknown_hook, pre_tool_use, post_tool_use, post_tool_use_failure,
  user_prompt_submit, stop, subagent_stop, pre_compact, notification, subagent_start,
  permission_request,
}

-- The event of a type, empty for UnknownHookInput
abbrev pub event_of : HookFields → String
event_of (pre_tool_use _) = "PreToolUse"
event_of (post_tool_use _) = "PostToolUse"
event_of (post_tool_use_failure _) = "PostToolUseFailure"
event_of (user_prompt_submit _) = "UserPromptSubmit"
event_of (stop _) = "Stop"
event_of (subagent_stop _) = "SubagentStop"
event_of (pre_compact _) = "PreCompact"
event_of (notification _) = "Notification"
event_of (subagent_start _) = "SubagentStart"
event_of (permission_request _) = "PermissionRequest"
event_of (unknown_hook v) = ""

-- The events that ParseHookInput has a type for
abbrev pub is_typed : String → Bool
is_typed e =
    str_eq e "PreToolUse"
    || str_eq e "PostToolUse"
    || str_eq e "PostToolUseFailure"
    || str_eq e "UserPromptSubmit"
    || str_eq e "Stop"
    || str_eq e "SubagentStop"
    || str_eq e "PreCompact"
    || str_eq e "Notification"
    || str_eq e "SubagentStart"
    || str_eq e "PermissionRequest"

-- The input of an event has the base that was decoded, and the type of the event if there is one.
pub record IsFor (event : String) (base : BaseHookInput) (i : HookInput) : Type 0 where
  pub same_base : i.base ≡ base
  pub typed : event_of i.fields ≡ (if is_typed event then event else "")

abbrev Gives : BaseHookInput → String → Result HookInputError HookInput → Type 0
Gives base event r = (i : HookInput) → r ≡ ok i → IsFor event base i

abbrev the_ok : HookInput → Result HookInputError HookInput
the_ok i = ok i

ok_injective : {i j : HookInput} → the_ok i ≡ ok j → i ≡ j
ok_injective h = cc

infixr 3 ◌or◌
module _ {base : BaseHookInput} where
  ◌or◌ :
      {k t : String} {r rest : Result HookInputError HookInput}
      → Gives base k r
      → (str_eq t k ≡ false → Gives base t rest)
      → Gives base t (if str_eq t k then r else rest)
  ◌or◌ {k} {t} {r} {rest} here others =
      if-cases (Gives base t) (str_eq t k)
        (λ same. subst (λ s. Gives base s r) (sym ((eq_iff t k).0 same)) here) others

  input_with-Gives :
      {A : Type 0} (k : String) (type : A → HookFields)
      → is_typed k ≡ true
      → ((a : A) → event_of (type a) ≡ k)
      → (o : Option A) → Gives base k (input_with base type o)
  input_with-Gives k type known of_k none i h = absurd (cc)
  input_with-Gives k type known of_k (some a) i h =
      subst (IsFor k base) (ok_injective h)
        (record { same_base = refl; typed = of_k a ∙ sym (if_true (is_typed k) k "" known) })

  as_typed :
      {A : Type 0} (k : String) (decode : Fields → Option A) (type : A → HookFields) (v : Value)
      → is_typed k ≡ true
      → ((a : A) → event_of (type a) ≡ k)
      → Gives base k (fields_as decode type base v)
  as_typed k decode type v known of_k = input_with-Gives k type known of_k (decode_struct decode v)

input_of-Gives :
    (event : String) (base : BaseHookInput) (v : Value) → Gives base event (input_of event base v)
unfolding input_of
input_of-Gives event base v =
    as_typed "PreToolUse" decode_pre_tool_use_hook_input pre_tool_use v refl (λ _. refl) or λ n0.
    as_typed "PostToolUse" decode_post_tool_use_hook_input post_tool_use v refl (λ _. refl) or λ n1.
    as_typed "PostToolUseFailure" decode_post_tool_use_failure_hook_input post_tool_use_failure v
      refl (λ _. refl)
    or λ n2.
        as_typed "UserPromptSubmit" decode_user_prompt_submit_hook_input user_prompt_submit v refl
          (λ _. refl)
        or λ n3. as_typed "Stop" decode_stop_hook_input stop v refl (λ _. refl) or λ n4.
            as_typed "SubagentStop" decode_subagent_stop_hook_input subagent_stop v refl (λ _. refl)
            or λ n5.
                as_typed "PreCompact" decode_pre_compact_hook_input pre_compact v refl (λ _. refl)
                or λ n6.
                    as_typed "Notification" decode_notification_hook_input notification v refl
                      (λ _. refl)
                    or λ n7.
                        as_typed "SubagentStart" decode_subagent_start_hook_input subagent_start v
                          refl (λ _. refl)
                        or λ n8.
                            as_typed "PermissionRequest" decode_permission_request_hook_input
                              permission_request v refl (λ _. refl)
                            or λ n9. λ i h. subst (IsFor event base) (ok_injective h) (record {
                              same_base = refl;
                              typed = sym (
                                  if_false (is_typed event) event ""
                                    (rw (n0, n1, n2, n3, n4, n5, n6, n7, n8, n9) refl));
                            })

abbrev Named : Option BaseHookInput → HookInput → Type 0
Named o i =
    (base : BaseHookInput) × (o ≡ some base)
    × (is_empty base.hook_event_name ≡ false)
    × IsFor base.hook_event_name base i

parse_base-IsFor :
    (o : Option BaseHookInput) (v : Value) (i : HookInput) → parse_base o v ≡ ok i → Named o i
unfolding parse_base parse_named
parse_base-IsFor none v i h = absurd (cc)
parse_base-IsFor (some base) v i h =
    if-cases
      (λ r.
        r ≡ ok i
        → (b : BaseHookInput) × (some base ≡ some b)
          × (is_empty b.hook_event_name ≡ false)
          × IsFor b.hook_event_name b i)
      (is_empty base.hook_event_name) (λ _ bad. absurd (cc))
      (λ named good. (base, refl, named, input_of-Gives base.hook_event_name base v i good)) h

-- ParseHookInput returns an input only where the raw value has a base with an event, and then the input has that
-- base and the type of the event, UnknownHookInput where the event has none.
pub parse_hook_input-IsFor :
    (raw : Option Value) (i : HookInput)
    → parse_hook_input raw ≡ ok i
    → (v : Value) × (base : BaseHookInput) × (raw ≡ some v)
      × (decode_struct decode_base_hook_input v ≡ some base)
      × (is_empty base.hook_event_name ≡ false)
      × IsFor base.hook_event_name base i
unfolding parse_hook_input
parse_hook_input-IsFor none i h = absurd (cc)
parse_hook_input-IsFor (some v) i h =
    let (base, decoded, named, typed) =
      parse_base-IsFor (decode_struct decode_base_hook_input v) v i h in
    (v, base, refl, decoded, named, typed)
