-- ===== src/Agent/Options/Shadow.antt =====
-- domains/agent/shadowwarn.go: the warning on a permission callback that allow rules keep from being
-- asked. shadowWarned is the list of the warnings that the process has logged.
pub mod Named
use Prim.Native.String.{[] as none_left, ◌∷◌ as char, ◌++◌ as append}
use claude_agent_sdk_go.Base.{
  String, Bool, true, false, not, ◌&&◌, ◌||◌, Option, none, some, List, [], ◌∷◌, ◌++◌, contains,
  str_eq, string_eq, if◌then◌else◌,
}
use claude_agent_sdk_go.Base.Once.{gather}
use claude_agent_sdk_go.Text.{is_empty, trim_space, cut, trim_suffix, has_suffix}
use claude_agent_sdk_go.Agent.Options.{Options}

-- wholeToolAllowed
unfoldable pub whole_tool_allowed : String → Option String
whole_tool_allowed entry = if is_empty (trim_space entry) then none else elim (cut "(" entry) [
  | none ↦ some entry
  | some (tool, rest) ↦
      if is_empty tool || not (has_suffix ")" entry)
      then none
      else let inner = trim_suffix ")" rest in
        if is_empty inner || str_eq inner "*" then some tool else none
]

-- The loop over AllowedTools, with `seen` in the order in which `shadowed` has it
unfoldable pub shadowed_onto : List String → List String → List String
unfolding gather
shadowed_onto = gather whole_tool_allowed

-- strings.Join(tools, ", ")
unfoldable pub listed_tools : List String → String
listed_tools [] = ""
listed_tools (t ∷ ts) = append t (tail ts)
  where
    tail : List String → String
    tail [] = ""
    tail (u ∷ us) = append ", " (append u (tail us))

abbrev pub bypass_warning : String
bypass_warning =
    "can_use_tool will not be invoked: permission_mode 'bypassPermissions' auto-approves every tool call (except explicit deny rules) before the callback is consulted. To gate every tool call, use a PreToolUse hook instead."

abbrev pub shadow_warning : List String → String
shadow_warning tools = append "can_use_tool will not be invoked for: " (
    append (listed_tools tools)
      ". An allowed_tools entry that allows a whole tool auto-approves it before the callback is consulted. To gate every tool call, use a PreToolUse hook; or narrow the entry so calls fall through to can_use_tool. Allow rules from settings files can also shadow the callback but are not visible here.")

abbrev pub warning_for : List String → String
warning_for [] = ""
warning_for (t ∷ ts) = shadow_warning (t ∷ ts)

-- CanUseToolShadowedWarning
unfoldable pub can_use_tool_shadowed_warning : Options → String
can_use_tool_shadowed_warning opts =
    if not opts.tool_permission_func && not opts.tool_permission_handler
    then ""
    else if str_eq opts.permission_mode "bypassPermissions"
    then bypass_warning
    else warning_for (shadowed_onto [] opts.allowed_tools)

-- warnIfToolPermissionShadowed: the log line, if any, and the warnings that were logged
unfoldable pub warn_if_tool_permission_shadowed :
    Options → List String → Option String × List String
warn_if_tool_permission_shadowed opts warned =
    let msg = can_use_tool_shadowed_warning opts in
    if is_empty msg
    then (none, warned)
    else if contains warned msg
    then (none, warned)
    else (some msg, msg ∷ warned)
