-- ===== src/Agent/Options/Shadow/Named.antt =====
-- Which tools the warning names.
use Prim.Native.String.{[] as empty_text, ◌∷◌ as char, ◌++◌ as append}
use Prim.Native.Char.{code}
use text.Mathlib.TextLemmas.{nil-append, cons-append, append_assoc}
use claude_agent_sdk_go.Base.{
  String, ◌≡◌, refl, ap, ◌∙◌, subst, true, false, ◌||◌, none, some, [], str_eq, string_eq,
  if◌then◌else◌, if_true, if_false, arith, Bool-cases, inl, inr,
}
use claude_agent_sdk_go.Base.Once.{Once}
use claude_agent_sdk_go.Text.{
  is_empty, trim_space, trim_left, trim_right, is_space, cut, cut_prefix, has_suffix,
}
use claude_agent_sdk_go.Text.Parts.{has_char, has_suffix-append, trim_suffix-append}
use claude_agent_sdk_go.Agent.Options.Shadow.{whole_tool_allowed}

-- tool(rule)
abbrev pub with_rule : String → String → String
with_rule tool rule = append tool (char "(" (append rule ")"))

cut-append :
    (tool rest : String)
    → has_char "(" tool ≡ false
    → cut "(" (append tool (char "(" rest)) ≡ some (tool, rest)
unfolding cut cut_prefix has_char
cut-append empty_text rest h = rw (nil-append (char "(" rest)) refl
cut-append (char c tool) rest h =
    rw (cons-append c tool (char "(" rest)) (ground (arith, cut-append tool rest))

cut_plain : (s : String) → has_char "(" s ≡ false → cut "(" s ≡ none
unfolding cut cut_prefix has_char
cut_plain empty_text h = refl
cut_plain (char c s) h = ground (arith, cut_plain s)

-- A text that ends in ")" is not blank.
trim_left-append : (s : String) → (t : String) × (trim_left is_space (append s ")") ≡ append t ")")
unfolding trim_left is_space
trim_left-append empty_text = (empty_text, rw (nil-append ")") refl)
trim_left-append (char c s) = elim (Bool-cases (is_space (code c))) [
  | inl space ↦
      let (t, e) = trim_left-append s in (t, rw (cons-append c s ")") (if_true _ _ _ space ∙ e))
  | inr other ↦ (char c s, rw (cons-append c s ")") (if_false _ _ _ other))
]

trim_right-append : (s : String) → is_empty (trim_right is_space (append s ")")) ≡ false
unfolding trim_right is_space
trim_right-append empty_text = refl
trim_right-append (char c s) = rw (cons-append c s ")") (ground (arith, trim_right-append s))

trim_space-append : (s : String) → is_empty (trim_space (append s ")")) ≡ false
unfolding trim_space
trim_space-append s =
    let (t, e) = trim_left-append s in
    ap (λ u. is_empty (trim_right is_space u)) e ∙ trim_right-append t

with_rule-append :
    (tool rule : String) → append (append tool (char "(" rule)) ")" ≡ with_rule tool rule
with_rule-append tool rule =
    append_assoc tool (char "(" rule) ")" ∙ ap (append tool) (cons-append "(" rule ")")

-- An entry "tool(rule)" of a tool's name without "(" allows the whole tool exactly if the rule is
-- empty or "*"; any other rule narrows it.
pub whole_tool_allowed-with_rule :
    (tool rule : String)
    → is_empty tool ≡ false
    → has_char "(" tool ≡ false
    → whole_tool_allowed (with_rule tool rule)
      ≡ (if is_empty rule || str_eq rule "*" then some tool else none)
unfolding whole_tool_allowed
whole_tool_allowed-with_rule tool rule named plain =
    let entry = with_rule tool rule in
    let same = with_rule-append tool rule in
    let visible : is_empty (trim_space entry) ≡ false =
      subst (λ e. is_empty (trim_space e) ≡ false) same
        (trim_space-append (append tool (char "(" rule))) in
    let closed : has_suffix ")" entry ≡ true =
      subst (λ e. has_suffix ")" e ≡ true) same
        (has_suffix-append ")" (append tool (char "(" rule))) in
    rw
      (
        visible,
        cut-append tool (append rule ")") plain,
        named,
        closed,
        trim_suffix-append ")" rule,
        whole_tool_allowed,
      )
      refl
