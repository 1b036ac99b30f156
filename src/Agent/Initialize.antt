-- ===== src/Agent/Initialize.antt =====
-- domains/agent/session_manager.go: initialize. It numbers the hooks of the options, gives the CLI their
-- ids and waits for its answer. The handlers are the application's, so their type is a parameter;
-- time.Duration.Seconds is one too.
pub mod Routed
use Prim.Native.String.{◌++◌ as append}
use claude_agent_sdk_go.Base.{
  ℕ, suc, ◌+◌, ◌%◌, ◌^◌, wrap64, String, ◌≡◌, Bool, true, false, not, Option, none, some, List, [],
  ◌∷◌, ◌++◌, ℤ, pos, ltb_ℤ, string_eq, if◌then◌else◌,
}
use claude_agent_sdk_go.Base.Assoc.{get, put, get-put}
use claude_agent_sdk_go.Text.{is_empty}
use claude_agent_sdk_go.Text.Numbers.{itoa}
use claude_agent_sdk_go.Json as Json
use claude_agent_sdk_go.Json.{Value, Fields, str, arr, obj, end, field, item, no_items, of_list}
use claude_agent_sdk_go.Json.Encode.{Member, fields_of, omit_text}
use claude_agent_sdk_go.Protocol.Builder.{build_control_request}

pub record HookMatcher {ℓ} (H : Type ℓ) : Type ℓ where
  pub matcher : String
  pub handler : H
  -- In nanoseconds
  pub timeout : ℤ

-- hookCounter, by the 64 bits of its int, and hookIDs
pub record Hooks {ℓ} (H : Type ℓ) : Type ℓ where
  pub counter : ℕ
  pub hook_ids : List (String × H)

-- fmt.Sprintf("hook_%d", hookCounter), from the 64 bits of the counter
unfoldable pub hook_id : ℕ → String
hook_id n = append "hook_" (itoa (wrap64 (pos n)))

abbrev pub no_hooks {ℓ} : {H : Type ℓ} → Hooks H
no_hooks = record { counter = 0; hook_ids = [] }

abbrev timeout_value : (ℤ → Value) → ℤ → Option Value
timeout_value seconds d = if ltb_ℤ (pos 0) d then some (seconds d) else none

-- hookCounter++ and sm.hookIDs[callbackID] = m.Handler
unfoldable pub register {ℓ} : {H : Type ℓ} → HookMatcher H → Hooks H → Hooks H
register m s = record {
  counter = (s.counter + 1) % 2 ^ 64;
  hook_ids = put (hook_id s.counter) m.handler s.hook_ids;
}

module _ {ℓ} {H : Type ℓ} (seconds : ℤ → Value) where
  -- The entry of a matcher
  unfoldable pub hook_entry : String → HookMatcher H → Value
  hook_entry id m = obj (
      fields_of (
        ("hookCallbackIds", some (arr (item (str id) no_items)))
        ∷ ("matcher", omit_text m.matcher)
        ∷ ("timeout", timeout_value seconds m.timeout)
        ∷ []))

  -- The loop over the matchers of an event
  unfoldable pub register_matchers : List (HookMatcher H) → Hooks H → List Value × Hooks H
  register_matchers [] s = ([], s)
  register_matchers (m ∷ ms) s =
      let (entries, s') = register_matchers ms (register m s) in
      (hook_entry (hook_id s.counter) m ∷ entries, s')

  -- The loop over sm.opts.HookHandlers, with hookWire
  unfoldable pub register_hooks :
      List (String × List (HookMatcher H)) → Fields × Hooks H → Fields × Hooks H
  register_hooks [] (wire, s) = (wire, s)
  register_hooks ((event, ms) ∷ hooks) (wire, s) =
      let (entries, s') = register_matchers ms s in
      register_hooks hooks (Json.put event (arr (of_list entries)) wire, s')

-- The body of the initialize request
unfoldable pub initialize_body : Fields → Value
initialize_body wire = obj (field "subtype" (str "initialize") (field "hooks" (obj wire) end))

-- What the select of initialize receives: a closed channel, an answer, or the end of the wait
pub data Wait : Type 0 where
  closed : Wait
  answered : String → Wait
  timed_out : String → Wait

-- The errors of initialize
pub data InitializeError : Type 0 where
  send_initialize : String → InitializeError
  initialize_error : String → InitializeError

unfoldable pub wait_error : Wait → Option InitializeError
wait_error closed = some (initialize_error "initialize request cancelled")
wait_error (answered e) =
    if is_empty e then none else some (initialize_error (append "initialize error: " e))
wait_error (timed_out e) = some (initialize_error (append "initialize timeout: " e))

-- initialize, from the error of Send, if any, and what it waits for
unfoldable pub initialize_outcome : Option String → Wait → Option InitializeError
initialize_outcome (some e) w = some (send_initialize e)
initialize_outcome none w = wait_error w
