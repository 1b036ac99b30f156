-- ===== src/Tests/Hooks.antt =====
-- Hooks, their outputs and origins at concrete inputs.
use claude_agent_sdk_go.Base.{
  String, ◌≡◌, refl, false, Option, none, some, List, [], ◌∷◌, ℤ, pos, arith, str_eq, if◌then◌else◌,
}
use claude_agent_sdk_go.Json as Json
use claude_agent_sdk_go.Json.{Value, Fields, str, obj, end, field, int64}
use claude_agent_sdk_go.Json.Folded.{
  folded_text, folded_int, store_text, store_int, equal_fold, fold_rune, HasFolded,
}
use claude_agent_sdk_go.Json.Encode.{fields_of}
use claude_agent_sdk_go.Messages.Origin.{
  MessageOrigin, decode_message_origin, parse_origin, parse_origin-human,
}
use claude_agent_sdk_go.Agent.HookOutput.{
  PreToolUseOutput, SyncHookJsonOutput, pre_tool_use_output, sync_map, specific_map, hook_event,
  sync_members, members_of, to_map,
}
use claude_agent_sdk_go.Agent.HookOutput.Sent.{IsSentAs, IsPart, sync_map-IsSentAs}
use claude_agent_sdk_go.Text.{is_empty}
use claude_agent_sdk_go.Json.Decode.{decode_struct}
use claude_agent_sdk_go.Agent.HookFields.{
  BaseHookInput, decode_base_hook_input, decode_pre_compact_hook_input,
}
use claude_agent_sdk_go.Agent.HookInput.{
  HookInput, pre_compact, parse_hook_input, parse_base, parse_named, input_of,
}
use claude_agent_sdk_go.Agent.HookInput.Typed.{IsFor, parse_hook_input-IsFor}
use claude_agent_sdk_go.Agent.Initialize.{HookMatcher, no_hooks, register_hooks}
use claude_agent_sdk_go.Agent.Initialize.Routed.{IsRouted, handlers_of, register_hooks-IsRouted}

-- A denied tool
abbrev denied : PreToolUseOutput
denied = record {
  permission_decision = "deny";
  permission_decision_reason = "";
  updated_input = none;
  additional_context = "";
}

abbrev output : SyncHookJsonOutput
output = record {
  continue = some false;
  suppress_output = false;
  stop_reason = "";
  decision = "block";
  system_message = "";
  reason = "";
  hook_specific_output = some (pre_tool_use_output denied);
}

-- A coding that knows the two objects of `output`
abbrev control : Fields
control = field "continue" (Json.bool false) (field "decision" (str "block") end)

abbrev part : Fields
part = field "permissionDecision" (str "deny") end

abbrev marshal : Value → Option String
marshal (obj m) = some (if Json.has "decision" m then "control" else "part")
marshal _ = none

abbrev parse_json : String → Option Value
parse_json s = some (obj (if str_eq s "control" then control else part))

output_map :
    sync_map marshal parse_json output
    ≡ field "continue" (Json.bool false) (
        field "decision" (str "block") (
          field "hookSpecificOutput"
            (obj (
              field "permissionDecision"
                (str "deny")
                (field "hookEventName" (str "PreToolUse") end)))
            end))
unfolding sync_map specific_map hook_event Json.put Json.get fields_of sync_members members_of
output_map = refl

sync_map-IsSentAs_example :
    IsSentAs output (sync_map marshal parse_json output)
    × IsPart output.hook_specific_output
        (Json.get "hookSpecificOutput" (sync_map marshal parse_json output))
unfolding to_map fields_of sync_members Json.get
sync_map-IsSentAs_example = sync_map-IsSentAs marshal parse_json output refl

abbrev seconds : ℤ → Value
seconds d = int64 (pos 1)

abbrev matcher_of : String → HookMatcher String
matcher_of h = record { matcher = "Bash"; handler = h; timeout = pos 0 }

abbrev hooks : List (String × List (HookMatcher String))
hooks =
    ("PreToolUse", matcher_of "check" ∷ matcher_of "log" ∷ [])
    ∷ ("Stop", matcher_of "stop" ∷ [])
    ∷ []

register_hooks-IsRouted_example :
    IsRouted (handlers_of hooks) (register_hooks seconds hooks (end, no_hooks)).1
register_hooks-IsRouted_example = register_hooks-IsRouted seconds hooks (omega arith)

abbrev typed : Value
typed = obj (field "Kind" (str "human") end)

abbrev from_human : MessageOrigin
from_human = record {
  kind = "human";
  subkind = "";
  server = "";
  sender = "";
  name = "";
  from_session = "";
  sender_task_id = "";
  body = "";
  verified_peer_pid = none;
}

parse_origin-human_example :
    (m : Fields) × (some typed ≡ some (obj m)) × HasFolded "kind" (str "human") m
unfolding parse_origin decode_message_origin folded_text folded_int store_text store_int equal_fold
    fold_rune
parse_origin-human_example = parse_origin-human (some typed) (some from_human) refl refl

-- The input of a hook on a compaction
abbrev compact_input : Value
compact_input = obj (
    field "session_id" (str "s")
      (field "hook_event_name" (str "PreCompact") (field "trigger" (str "auto") end)))

abbrev compact_base : BaseHookInput
compact_base = record {
  session_id = "s";
  transcript_path = "";
  cwd = "";
  permission_mode = "";
  prompt_id = "";
  effort = none;
  hook_event_name = "PreCompact";
}

abbrev compact : HookInput
compact = record {
  base = compact_base;
  fields = pre_compact (record { trigger = "auto"; custom_instructions = none });
}

parse_hook_input-IsFor_example :
    (v : Value) × (base : BaseHookInput) × (some compact_input ≡ some v)
    × (decode_struct decode_base_hook_input v ≡ some base)
    × (is_empty base.hook_event_name ≡ false)
    × IsFor base.hook_event_name base compact
unfolding parse_hook_input parse_base parse_named input_of decode_base_hook_input
    decode_pre_compact_hook_input Json.get
parse_hook_input-IsFor_example = parse_hook_input-IsFor (some compact_input) compact refl
