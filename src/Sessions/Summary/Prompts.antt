-- ===== src/Sessions/Summary/Prompts.antt =====
-- The first prompt of a session, and folding in batches.
use claude_agent_sdk_go.Base.{
  ◌≤◌, String, ◌≡◌, refl, ◌∙◌, ap, Bool, true, false, not, ◌||◌, Option, none, some, List, [], ◌∷◌,
  ◌++◌, ℤ, arith, str_eq, ltb, ltb-false, if◌then◌else◌, Bool-cases, Option-cases, inl, inr, sym,
}
use claude_agent_sdk_go.Json.{
  Value, Fields, end, str, bool, get, index, or_null, is_true, is_str, bool_or_false, get-put,
  get-end,
}
use claude_agent_sdk_go.Text.{trim_right, rune_count, rune_take, is_ascii_space}
use claude_agent_sdk_go.Text.Laws.{rune_count-trim_right, rune_count-rune_take, rune_count-append}
use claude_agent_sdk_go.Sessions.Types.{Entry, SessionKey, SessionSummaryEntry}
use claude_agent_sdk_go.Sessions.Summary.{
  first, classify_prompt, shorten, put_fallback, lock_prompt, fold_prompts, carries_tool_result,
  entry_text_blocks, last_wins, fold_last_wins, fold_sidechain, fold_created_at, fold_cwd,
  fold_first_prompt, fold_entry, fold_entries, fold_session_summary, trim_space, replace_char,
}
use claude_agent_sdk_go.Sessions.Summary.Frames.{
  or_else, Prompt-cases, get-fold_sidechain, get-fold_cwd, get-fold_tag, get-fold_created_at,
  get-fold_last_wins,
}
use claude_agent_sdk_go.Sessions.Summary.First.{first_of}

shorten_bound : (s : String) → rune_count (shorten s) ≤ 201
unfolding shorten rune_count
shorten_bound s = elim (Bool-cases (ltb 200 (rune_count s))) [
  | inl long ↦
      rw (long, shorten)
        (omega (
          arith,
          rune_count-append (trim_right is_ascii_space (rune_take 200 s)) "…",
          rune_count-trim_right is_ascii_space (rune_take 200 s),
          rune_count-rune_take 200 s,
          ellipsis,
        ))
  | inr fits ↦ rw (fits, shorten) (omega (arith, ltb-false _ _ fits))
]
  where
    ellipsis : rune_count "…" ≡ 1
    ellipsis = refl

-- The first block that is a prompt, in the form in which a listing shows it
pub block_prompt : List String → Option String
block_prompt [] = none
block_prompt (raw ∷ blocks) = elim (classify_prompt raw) [
  | first text ↦ some text
  | _ ↦ block_prompt blocks
]

-- The prompt of an entry that the user typed: no meta entry, no compact summary, no tool result
pub entry_prompt : Entry → Option String
entry_prompt e =
    if not (is_str (index "type" e) "user")
      || is_true (index "isMeta" e)
      || is_true (index "isCompactSummary" e)
      || carries_tool_result e
    then none
    else block_prompt (entry_text_blocks e)

abbrev pub is_locked : Fields → Bool
is_locked d = bool_or_false (index "first_prompt_locked" d)

abbrev pub is_found {ℓ} : {A : Type ℓ} → Option A → Bool
is_found none = false
is_found (some a) = true

-- The lock and the prompt, as one pair
abbrev pub prompt_state : Fields → Option Value × Option Value
prompt_state d = (get "first_prompt_locked" d, get "first_prompt" d)

-- What a prompt does to the pair
abbrev pub with_prompt : Option String → Option Value × Option Value → Option Value × Option Value
with_prompt none s = s
with_prompt (some text) s = (some (bool true), some (str text))

prompt_state-put_fallback :
    (name : String) (d : Fields) → prompt_state (put_fallback name d) ≡ prompt_state d
unfolding put_fallback
prompt_state-put_fallback name d = ground (
  arith,
  get-put "command_fallback" "first_prompt_locked" (str name) d,
  get-put "command_fallback" "first_prompt" (str name) d,
)

prompt_state-lock_prompt :
    (text : String) (d : Fields)
    → prompt_state (lock_prompt text d) ≡ (some (bool true), some (str text))
unfolding lock_prompt
prompt_state-lock_prompt text d = simp get-put

prompt_state-fold_prompts :
    (d : Fields) (blocks : List String)
    → prompt_state (fold_prompts d blocks) ≡ with_prompt (block_prompt blocks) (prompt_state d)
unfolding fold_prompts block_prompt
prompt_state-fold_prompts d [] = refl
prompt_state-fold_prompts d (raw ∷ blocks) = elim (Prompt-cases (classify_prompt raw)) [
  | inl e ↦ rw (e, fold_prompts, block_prompt) (prompt_state-fold_prompts d blocks)
  | inr (inl (name, e)) ↦
      rw (e, fold_prompts, block_prompt)
        (prompt_state-fold_prompts (put_fallback name d) blocks
          ∙ ap (with_prompt (block_prompt blocks)) (prompt_state-put_fallback name d))
  | inr (inr (text, e)) ↦ rw (e, fold_prompts, block_prompt) (prompt_state-lock_prompt text d)
]

-- An entry's effect on the pair: none once locked
abbrev pub prompt_step : Option String → Option Value × Option Value → Option Value × Option Value
prompt_step o s = if bool_or_false (or_null s.0) then s else with_prompt o s

prompt_state-fold_first_prompt :
    (d : Fields) (e : Entry)
    → prompt_state (fold_first_prompt d e) ≡ prompt_step (entry_prompt e) (prompt_state d)
unfolding fold_first_prompt entry_prompt index
prompt_state-fold_first_prompt d e =
    ground (arith, prompt_state-fold_prompts d (entry_text_blocks e))

prompt_step-none : (s : Option Value × Option Value) → prompt_step none s ≡ s
prompt_step-none (l, p) = ground arith

prompt_step-or_else :
    (a b : Option String) (s : Option Value × Option Value)
    → prompt_step (or_else a b) s ≡ prompt_step b (prompt_step a s)
prompt_step-or_else none b s = ap (prompt_step b) (sym (prompt_step-none s))
prompt_step-or_else (some text) b (l, p) = ground arith

same_prompt :
    (d d' : Fields)
    → get "first_prompt_locked" d ≡ get "first_prompt_locked" d'
    → get "first_prompt" d ≡ get "first_prompt" d'
    → prompt_state d ≡ prompt_state d'
same_prompt d d' l p = λ i. (l i, p i)

module _ (parse_time : String → Option ℤ) where
  prompt_state-fold_entry :
      (d : Fields) (e : Entry)
      → prompt_state (fold_entry parse_time d e) ≡ prompt_step (entry_prompt e) (prompt_state d)
  unfolding fold_entry
  prompt_state-fold_entry d e =
      let d₁ = fold_sidechain d e in
      let d₂ = fold_created_at parse_time d₁ e in
      let d₃ = fold_cwd d₂ e in
      let d₄ = fold_first_prompt d₃ e in
      let before =
        λ (j : String) (c : str_eq "cwd" j ≡ false) (t : str_eq "created_at" j ≡ false)
            (s : str_eq "is_sidechain" j ≡ false).
          get-fold_cwd j d₂ e c
          ∙ get-fold_created_at j d₁ e parse_time t
          ∙ get-fold_sidechain j d e s in
      same_prompt _ d₄
        (get-fold_tag "first_prompt_locked" (fold_last_wins d₄ e last_wins) e refl
          ∙ get-fold_last_wins "first_prompt_locked" d₄ e last_wins refl)
        (get-fold_tag "first_prompt" (fold_last_wins d₄ e last_wins) e refl
          ∙ get-fold_last_wins "first_prompt" d₄ e last_wins refl)
      ∙ prompt_state-fold_first_prompt d₃ e
      ∙ ap (prompt_step (entry_prompt e)) (
          same_prompt d₃ d (before "first_prompt_locked" refl refl refl)
            (before "first_prompt" refl refl refl))

  -- The first prompt of a summary is the first text block of the first user entry that shows one,
  -- and it is locked with it: a locked prompt is never replaced by a later entry.
  pub prompt_state-fold_entries :
      (d : Fields) (es : List Entry)
      → prompt_state (fold_entries parse_time d es)
        ≡ prompt_step (first_of entry_prompt es) (prompt_state d)
  unfolding fold_entries first_of
  prompt_state-fold_entries d [] = sym (prompt_step-none (prompt_state d))
  prompt_state-fold_entries d (e ∷ es) =
      prompt_state-fold_entries (fold_entry parse_time d e) es
      ∙ ap (prompt_step (first_of entry_prompt es)) (prompt_state-fold_entry d e)
      ∙ sym (prompt_step-or_else (entry_prompt e) (first_of entry_prompt es) (prompt_state d))

  pub fold_entries-append :
      (d : Fields) (es fs : List Entry)
      → fold_entries parse_time d (es ++ fs)
        ≡ fold_entries parse_time (fold_entries parse_time d es) fs
  unfolding fold_entries
  fold_entries-append d [] fs = refl
  fold_entries-append d (e ∷ es) fs = fold_entries-append (fold_entry parse_time d e) es fs

  -- Folding a session's entries batch by batch, as a store does on each Append, gives the summary
  -- that folding all of them at once gives, from any previous summary or from none.
  pub fold_session_summary-append :
      (prev : Option SessionSummaryEntry) (key : SessionKey) (es fs : List Entry)
      → fold_session_summary parse_time (some (fold_session_summary parse_time prev key es)) key fs
        ≡ fold_session_summary parse_time prev key (es ++ fs)
  unfolding fold_session_summary
  fold_session_summary-append none key es fs = ground (arith, fold_entries-append end es fs)
  fold_session_summary-append (some prev) key es fs =
      ground (arith, fold_entries-append prev.fields es fs)

classify_bound : (raw text : String) → classify_prompt raw ≡ first text → rune_count text ≤ 201
unfolding classify_prompt
classify_bound raw text h = ground (arith, shorten_bound (trim_space (replace_char 0x0a " " raw)))

block_prompt_bound :
    (blocks : List String) (text : String) → block_prompt blocks ≡ some text → rune_count text ≤ 201
unfolding block_prompt
block_prompt_bound [] text h = cc
block_prompt_bound (raw ∷ blocks) text h =
    ground (arith, classify_bound raw text, block_prompt_bound blocks text)

first_of_bound :
    (es : List Entry) (text : String) → first_of entry_prompt es ≡ some text → rune_count text ≤ 201
unfolding first_of entry_prompt
first_of_bound [] text h = cc
first_of_bound (e ∷ es) text h =
    ground (arith, block_prompt_bound (entry_text_blocks e) text, first_of_bound es text)

-- The first prompt that a session's summary holds has at most 201 code points.
pub first_prompt_bound :
    (parse_time : String → Option ℤ) (key : SessionKey) (es : List Entry) (text : String)
    → get "first_prompt" (fold_session_summary parse_time none key es).fields ≡ some (str text)
    → rune_count text ≤ 201
unfolding fold_session_summary
first_prompt_bound parse_time key es text h = elim (Option-cases (first_of entry_prompt es)) [
  | inl none_found ↦
      ground (arith, state, none_found, get-end "first_prompt", get-end "first_prompt_locked")
  | inr (t, found) ↦
      ground (arith, state, found, first_of_bound es t, get-end "first_prompt_locked")
]
  where
    state :
        prompt_state (fold_entries parse_time end es)
        ≡ prompt_step (first_of entry_prompt es) (prompt_state end)
    state = prompt_state-fold_entries parse_time end es
