-- ===== src/Agent/HookOutput/Sent.antt =====
-- What the CLI reads in the map of a hook's output.
use claude_agent_sdk_go.Base.{String, ◌≡◌, ◌∙◌, sym, subst, Option, none, some}
use claude_agent_sdk_go.Json.{Value, Fields, obj, str, get, put, get-put}
use claude_agent_sdk_go.Json.Encode.{
  fields_of, member, get-fields_of, or_else-none, omit_text, omit_false, maybe_bool,
}
use claude_agent_sdk_go.Agent.HookOutput.{
  HookSpecificOutput, SyncHookJsonOutput, hook_event, sync_members, to_map, specific_map,
  with_specific, sync_map,
}

-- The event-specific part of a map names the event of its output.
abbrev pub IsPart : Option HookSpecificOutput → Option Value → Type 0
IsPart none v = v ≡ none
IsPart (some h) v =
    (m : Fields) × (v ≡ some (obj m)) × (get "hookEventName" m ≡ some (str (hook_event h)))

-- A field that is not zero stands under its own key, and a field that is zero not at all.
pub record IsSentAs (o : SyncHookJsonOutput) (m : Fields) : Type 0 where
  pub continue_at : get "continue" m ≡ maybe_bool o.continue
  pub suppress_output_at : get "suppressOutput" m ≡ omit_false o.suppress_output
  pub stop_reason_at : get "stopReason" m ≡ omit_text o.stop_reason
  pub decision_at : get "decision" m ≡ omit_text o.decision
  pub system_message_at : get "systemMessage" m ≡ omit_text o.system_message
  pub reason_at : get "reason" m ≡ omit_text o.reason

sync_members-IsSentAs : (o : SyncHookJsonOutput) → IsSentAs o (fields_of (sync_members o))
unfolding member sync_members
sync_members-IsSentAs o = record {
  continue_at = get-fields_of _ _ ∙ or_else-none _;
  suppress_output_at = get-fields_of _ _ ∙ or_else-none _;
  stop_reason_at = get-fields_of _ _ ∙ or_else-none _;
  decision_at = get-fields_of _ _ ∙ or_else-none _;
  system_message_at = get-fields_of _ _ ∙ or_else-none _;
  reason_at = get-fields_of _ _ ∙ or_else-none _;
}

no_part : (o : SyncHookJsonOutput) → get "hookSpecificOutput" (fields_of (sync_members o)) ≡ none
unfolding member sync_members
no_part o = get-fields_of _ _

put-IsSentAs :
    (o : SyncHookJsonOutput) (v : Value) (m : Fields)
    → IsSentAs o m
    → IsSentAs o (put "hookSpecificOutput" v m)
put-IsSentAs o v m w = record {
  continue_at = get-put _ _ v m ∙ w.continue_at;
  suppress_output_at = get-put _ _ v m ∙ w.suppress_output_at;
  stop_reason_at = get-put _ _ v m ∙ w.stop_reason_at;
  decision_at = get-put _ _ v m ∙ w.decision_at;
  system_message_at = get-put _ _ v m ∙ w.system_message_at;
  reason_at = get-put _ _ v m ∙ w.reason_at;
}

module _ (marshal : Value → Option String) (parse_json : String → Option Value) where
  specific_map-names :
      (h : HookSpecificOutput)
      → get "hookEventName" (specific_map marshal parse_json h) ≡ some (str (hook_event h))
  unfolding specific_map
  specific_map-names h = get-put _ _ _ _

  with_specific-IsPart :
      (p : Option HookSpecificOutput) (m : Fields)
      → get "hookSpecificOutput" m ≡ none
      → IsPart p (get "hookSpecificOutput" (with_specific marshal parse_json p m))
  with_specific-IsPart none m missing = missing
  with_specific-IsPart (some h) m missing =
      (specific_map marshal parse_json h, get-put _ _ _ _, specific_map-names h)

  with_specific-IsSentAs :
      (o : SyncHookJsonOutput) (p : Option HookSpecificOutput) (m : Fields)
      → IsSentAs o m
      → IsSentAs o (with_specific marshal parse_json p m)
  with_specific-IsSentAs o none m w = w
  with_specific-IsSentAs o (some h) m w = put-IsSentAs o _ m w

  -- Where encoding/json reads back the control fields that it wrote, the map of a synchronous output has
  -- each field that is not zero under its own key and no other, and its event-specific part, if there
  -- is one, is an object that names the event of its type, whatever the rest of it is.
  pub sync_map-IsSentAs :
      (o : SyncHookJsonOutput)
      → to_map marshal parse_json (sync_members o) ≡ fields_of (sync_members o)
      → IsSentAs o (sync_map marshal parse_json o)
        × IsPart o.hook_specific_output (get "hookSpecificOutput" (sync_map marshal parse_json o))
  unfolding sync_map
  sync_map-IsSentAs o reread =
      subst
        (λ m.
          IsSentAs o (with_specific marshal parse_json part m)
          × IsPart part (get "hookSpecificOutput" (with_specific marshal parse_json part m)))
        (sym reread)
        (
          with_specific-IsSentAs o part _ (sync_members-IsSentAs o),
          with_specific-IsPart part _ (no_part o),
        )
    where
      part : Option HookSpecificOutput
      part = o.hook_specific_output
