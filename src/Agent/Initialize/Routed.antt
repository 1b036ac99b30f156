-- ===== src/Agent/Initialize/Routed.antt =====
-- The ids that initialize gives to hooks find their handlers.
use Prim.Native.String.{[] as empty, ◌∷◌ as char, ◌++◌ as ◌+++◌}
use text.Mathlib.TextLemmas.{nil-append, cons-append}
use claude_agent_sdk_go.Base.{
  length, length-append, Bool-cases, inl, inr, pos, wrap64, ℕ, zero, suc, ◌+◌, ◌^◌, ◌<◌, String,
  ◌≡◌, refl, sym, ap, ◌∙◌, Bool, true, false, Option, none, some, List, [], ◌∷◌, ◌++◌, map,
  string_eq, ◌==◌, nat_eq, if◌then◌else◌, arith, append_assoc, append-nil, subst, ℤ,
}
use claude_agent_sdk_go.Base.Assoc.{get, get-put}
use claude_agent_sdk_go.Json.{Value, Fields, end}
use claude_agent_sdk_go.Text.Numbers.{itoa, int_number, int_number-itoa}
use claude_agent_sdk_go.Agent.Initialize.{
  HookMatcher, Hooks, hook_id, no_hooks, register, register_matchers, register_hooks,
}

tail : String → String
tail empty = empty
tail (char c s) = s

-- A text without its first characters, as many as those of another
skip : String → String → String
skip empty t = t
skip (char c s) t = skip s (tail t)

skip-append : (s t : String) → skip s (s +++ t) ≡ t
unfolding skip tail
skip-append empty t = nil-append t
skip-append (char c s) t = ap (λ x. skip s (tail x)) (cons-append c s t) ∙ skip-append s t

id_number : String → ℕ
id_number s = int_number (skip "hook_" s)

id_number-hook_id : (n : ℕ) → n < 2 ^ 64 → id_number (hook_id n) ≡ n
unfolding id_number hook_id
id_number-hook_id n h =
    ap int_number (skip-append "hook_" (itoa (wrap64 (pos n)))) ∙ int_number-itoa n h

hook_id_injective : (a b : ℕ) → a < 2 ^ 64 → b < 2 ^ 64 → hook_id a ≡ hook_id b → a ≡ b
hook_id_injective a b ha hb h =
    sym (id_number-hook_id a ha) ∙ ap id_number h ∙ id_number-hook_id b hb

eq-hook_id : (a b : ℕ) → a < 2 ^ 64 → b < 2 ^ 64 → (hook_id a == hook_id b) ≡ nat_eq a b
eq-hook_id a b ha hb = elim (Bool-cases (hook_id a == hook_id b)) [
  | inl same ↦
      let e = hook_id_injective a b ha hb ((string_eq.equal_iff _ _).0 same) in
      same ∙ sym (ground (arith, e))
  | inr other ↦ elim (Bool-cases (nat_eq a b)) [
    | inl equal ↦
        let e : a ≡ b = ground (arith, equal) in
        absurd (clash other ((string_eq.equal_iff (hook_id a) (hook_id b)).1 (ap hook_id e)))
    | inr differ ↦ other ∙ sym differ
  ]
]
  where
    clash : {x : Bool} → x ≡ false → x ≡ true → ⊥
    clash f t = absurd (cc)

module _ {ℓ} {H : Type ℓ} where
  abbrev pub handler_at : ℕ → List H → Option H
  handler_at i [] = none
  handler_at zero (h ∷ hs) = some h
  handler_at (suc i) (h ∷ hs) = handler_at i hs

  handler_at-append :
      (i : ℕ) (hs : List H) (h : H)
      → handler_at i (hs ++ (h ∷ [])) ≡ (if nat_eq (length hs) i then some h else handler_at i hs)
  handler_at-append zero [] h = refl
  handler_at-append (suc i) [] h = ground arith
  handler_at-append zero (g ∷ hs) h = ground arith
  handler_at-append (suc i) (g ∷ hs) h = ground (arith, handler_at-append i hs h)

  -- The ids 0, 1, … are those of the handlers `hs` in turn.
  pub record IsRouted (hs : List H) (s : Hooks H) : Type ℓ where
    pub counted : s.counter ≡ length hs
    pub routed : (i : ℕ) → i < 2 ^ 64 → get (hook_id i) s.hook_ids ≡ handler_at i hs

  register-IsRouted :
      (m : HookMatcher H) (hs : List H) (s : Hooks H)
      → suc (length hs) < 2 ^ 64
      → IsRouted hs s
      → IsRouted (hs ++ (m.handler ∷ [])) (register m s)
  unfolding register
  register-IsRouted m hs s low r = record {
    counted = omega (arith, r.counted, length-append hs (m.handler ∷ []));
    routed = λ i small.
        get-put (hook_id s.counter) (hook_id i) m.handler s.hook_ids
        ∙ ap (λ n. if hook_id n == hook_id i then some m.handler else get (hook_id i) s.hook_ids)
            r.counted
        ∙ ap (λ b. if b then some m.handler else get (hook_id i) s.hook_ids)
            (eq-hook_id (length hs) i (omega (arith, low)) small)
        ∙ ap (λ o. if nat_eq (length hs) i then some m.handler else o) (r.routed i small)
        ∙ sym (handler_at-append i hs m.handler);
  }

  abbrev handlers : List (HookMatcher H) → List H
  handlers ms = map (λ m. m.handler) ms

  -- The handlers of the options, in the order in which the loops reach them
  abbrev pub handlers_of : List (String × List (HookMatcher H)) → List H
  handlers_of [] = []
  handlers_of ((event, ms) ∷ hooks) = handlers ms ++ handlers_of hooks

  module _ (seconds : ℤ → Value) where
    register_matchers-IsRouted :
        (ms : List (HookMatcher H)) (hs : List H) (s : Hooks H)
        → length hs + length (handlers ms) < 2 ^ 64
        → IsRouted hs s
        → IsRouted (hs ++ handlers ms) (register_matchers seconds ms s).1
    unfolding register_matchers
    register_matchers-IsRouted [] hs s low r = subst (λ l. IsRouted l s) (sym (append-nil hs)) r
    register_matchers-IsRouted (m ∷ ms) hs s low r =
        subst (λ l. IsRouted l (register_matchers seconds (m ∷ ms) s).1)
          (append_assoc hs (m.handler ∷ []) (handlers ms))
          (register_matchers-IsRouted ms (hs ++ (m.handler ∷ [])) (register m s)
            (omega (arith, low, length-append hs (m.handler ∷ [])))
            (register-IsRouted m hs s (omega (arith, low)) r))

    register_onto-IsRouted :
        (hooks : List (String × List (HookMatcher H))) (hs : List H) (wire : Fields) (s : Hooks H)
        → length hs + length (handlers_of hooks) < 2 ^ 64
        → IsRouted hs s
        → IsRouted (hs ++ handlers_of hooks) (register_hooks seconds hooks (wire, s)).1
    unfolding register_hooks
    register_onto-IsRouted [] hs wire s low r = subst (λ l. IsRouted l s) (sym (append-nil hs)) r
    register_onto-IsRouted ((event, ms) ∷ hooks) hs wire s low r =
        subst (λ l. IsRouted l (register_hooks seconds ((event, ms) ∷ hooks) (wire, s)).1)
          (append_assoc hs (handlers ms) (handlers_of hooks))
          (register_onto-IsRouted hooks (hs ++ handlers ms) _ _
            (omega (
              arith,
              low,
              length-append hs (handlers ms),
              length-append (handlers ms) (handlers_of hooks),
            ))
            (register_matchers-IsRouted ms hs s
              (omega (arith, low, length-append (handlers ms) (handlers_of hooks))) r))

    -- Where the options have fewer than 2^64 hooks, initialize counts them all, and the id hook_i finds the
    -- handler of the i-th of them, in the order in which the loops reach them, and nothing beyond
    -- the last.
    pub register_hooks-IsRouted :
        (hooks : List (String × List (HookMatcher H)))
        → length (handlers_of hooks) < 2 ^ 64
        → IsRouted (handlers_of hooks) (register_hooks seconds hooks (end, no_hooks)).1
    unfolding get
    register_hooks-IsRouted hooks low =
        register_onto-IsRouted hooks [] end no_hooks (omega (arith, low))
          (record { counted = refl; routed = none_yet })
      where
        none_yet : (i : ℕ) → i < 2 ^ 64 → get (hook_id i) (no_hooks {H = H}).hook_ids ≡ none
        none_yet i h = refl
