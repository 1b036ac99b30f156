-- ===== src/Agent/Requests/Answered.antt =====
-- What a tool runs with, and what a hook's output becomes.
use claude_agent_sdk_go.Base.{
  String, ◌≡◌, refl, ◌∙◌, ap, sym, true, false, Option, none, some, ◌⊎◌, inl, inr, str_eq,
  string_eq, eq_iff, arith, Bool-cases, Option-cases, if_true, if_false, if◌then◌else◌,
}
use claude_agent_sdk_go.Json.{Value, Fields, put, get, get-put, get-del}
use claude_agent_sdk_go.Protocol.Requests.{CanUseToolRequest}
use claude_agent_sdk_go.Agent.Requests.{
  PermissionResult, given_or, given_or_empty, allowed, denied, permission_from_func, rename_key,
  hook_keywords, output_of,
}

-- Whatever the application's permission function answers, the response is a denial with its message, or
-- an allowance with an input: the function's own, the request's where it gave none, and an empty
-- object where neither has one.
pub permission_from_func-answers :
    (ask : CanUseToolRequest → PermissionResult) (req : CanUseToolRequest)
    → ((ask req).allow ≡ false)
        × (permission_from_func ask req ≡ denied (ask req).message (ask req).interrupt)
      ⊎ ((ask req).allow ≡ true)
        × ((input : Value) × (permission_from_func ask req
              ≡ allowed input (ask req).updated_permissions)
            × ((v : Value) → (ask req).updated_input ≡ some v → input ≡ v))
unfolding permission_from_func
permission_from_func-answers ask req = elim (Bool-cases (ask req).allow) [
  | inr no_tool ↦ inl (no_tool, if_false _ _ _ no_tool)
  | inl may ↦ inr (
    may,
    (
      given_or_empty (given_or (ask req).updated_input req.input),
      if_true _ _ _ may,
      λ v own. ap (λ o. given_or_empty (given_or o req.input)) own,
    ),
  )
]

-- The value of the old key, where it is there, in place of that of the new one
abbrev pub moved : Option Value → Option Value → Option Value
moved none o = o
moved (some v) o = some v

rename_key-lem :
    (from to k : String) (m : Fields)
    → str_eq from to ≡ false
    → get k (rename_key from to m) ≡ (
        if str_eq from k
        then none
        else if str_eq to k
        then moved (get from m) (get k m)
        else get k m)
unfolding rename_key
rename_key-lem from to k m h = elim (Option-cases (get from m)) [
  | inl gone ↦ rw (gone, rename_key) (missing gone)
  | inr (v, there) ↦
      rw (there, rename_key) (ground (arith, h, get-del from k (put to v m), get-put to k v m))
]
  where
    missing :
        get from m ≡ none
        → get k m ≡ (if str_eq from k then none else if str_eq to k then get k m else get k m)
    missing gone = elim (Bool-cases (str_eq from k)) [
      | inl same ↦
          ap (λ j. get j m) (sym ((eq_iff from k).0 same)) ∙ gone ∙ sym (if_true _ _ _ same)
      | inr away ↦ ground (arith, away)
    ]

-- A hook's output has no key in Python's spelling when it is sent: the values of async_ and continue_
-- stand under async and continue, over what stood there, and all other keys are kept.
pub hook_keywords-lem :
    (output : Option Fields)
    → let m = output_of output in
      (get "async_" (hook_keywords output) ≡ none)
      × (get "continue_" (hook_keywords output) ≡ none)
      × (get "async" (hook_keywords output) ≡ moved (get "async_" m) (get "async" m))
      × (get "continue" (hook_keywords output) ≡ moved (get "continue_" m) (get "continue" m))
unfolding hook_keywords
hook_keywords-lem output =
    let m = output_of output in
    let n = rename_key "async_" "async" m in
    let at_async = λ (k : String). rename_key-lem "async_" "async" k m refl in
    let at_continue = λ (k : String). rename_key-lem "continue_" "continue" k n refl in
    (
      at_continue "async_" ∙ at_async "async_",
      at_continue "continue_",
      at_continue "async" ∙ at_async "async",
      at_continue "continue"
          ∙ ap (λ o. moved o (get "continue" n)) (at_async "continue_")
          ∙ ap (moved (get "continue_" m)) (at_async "continue"),
    )
