-- ===== src/Tests/Summaries.antt =====
-- FoldSessionSummary and SummaryToSessionInfo on a short transcript.
use claude_agent_sdk_go.Base.{String, ◌≡◌, refl, Option, none, some, [], ◌∷◌, All, ℤ, pos}
use claude_agent_sdk_go.Json.{str, obj, end, field, get, put, del, index}
use claude_agent_sdk_go.Text.{
  rune_count, cut_prefix, has_prefix, cut, trim_space, trim_left, trim_right, is_space, is_re_space,
  replace_char,
}
use claude_agent_sdk_go.Sessions.Types.{Entry, SessionKey}
use claude_agent_sdk_go.Sessions.Summary.{
  last_wins, fold_entry, fold_entries, fold_session_summary, classify_prompt, fallback,
  command_name, skip_prompt, skipped, shorten, fold_first_prompt, fold_sidechain, fold_created_at,
  fold_cwd, fold_tag, fold_last_wins, put_str, entry_text_blocks, fold_prompts, lock_prompt,
  carries_tool_result, iso_to_epoch_ms,
}
use claude_agent_sdk_go.Sessions.Summary.Frames.{or_else, str_value}
use claude_agent_sdk_go.Sessions.Summary.Fold.{last_text, fold_entries-last_wins}
use claude_agent_sdk_go.Sessions.Summary.First.{first_of}
use claude_agent_sdk_go.Sessions.Summary.Prompts.{
  prompt_state, prompt_step, entry_prompt, prompt_state-fold_entries,
}

abbrev parse_time : String → Option ℤ
parse_time s = some (pos 1000)

abbrev hello : Entry
hello = field "type" (str "user") (
    field "cwd" (str "/work") (
      field "timestamp" (str "2026-01-01T00:00:00Z")
        (field "message" (obj (field "content" (str "  hello\nthere ") end)) end)))

abbrev titled : Entry
titled = field "type" (str "custom-title") (field "customTitle" (str "My session") end)

abbrev tagged : Entry
tagged = field "type" (str "tag") (field "tag" (str "red") end)

abbrev untagged : Entry
untagged = field "type" (str "tag") (field "tag" (str "") end)

abbrev key : SessionKey
key = record { project_key = "-work"; session_id = "s1"; subpath = "" }

command_prompt : classify_prompt "<command-name>/clear</command-name>" ≡ fallback "/clear"
unfolding classify_prompt trim_space command_name cut cut_prefix replace_char
command_prompt = refl

skipped_prompt : classify_prompt "[Request interrupted by user for tool use]" ≡ skipped
unfolding classify_prompt trim_space command_name cut cut_prefix replace_char skip_prompt has_prefix
skipped_prompt = refl

fold_entries-last_wins_example :
    All
      (λ p.
        get p.1 (fold_entries parse_time end (titled ∷ hello ∷ []))
        ≡ or_else (str_value (last_text p.0 (titled ∷ hello ∷ []))) (get p.1 end))
      last_wins
fold_entries-last_wins_example = fold_entries-last_wins parse_time end (titled ∷ hello ∷ [])

prompt_state-fold_entries_example :
    prompt_state (fold_entries parse_time end (titled ∷ hello ∷ []))
    ≡ prompt_step (first_of entry_prompt (titled ∷ hello ∷ [])) (prompt_state end)
prompt_state-fold_entries_example = prompt_state-fold_entries parse_time end (titled ∷ hello ∷ [])

hello_prompt :
    get "first_prompt" (fold_session_summary parse_time none key (hello ∷ [])).fields
    ≡ some (str "hello there")
unfolding get put fold_session_summary fold_entries fold_entry fold_first_prompt fold_sidechain
    fold_created_at fold_cwd fold_tag fold_last_wins put_str entry_text_blocks fold_prompts
    lock_prompt classify_prompt trim_space command_name cut cut_prefix replace_char skip_prompt
    has_prefix shorten rune_count carries_tool_result iso_to_epoch_ms index del trim_left trim_right
    is_space is_re_space
hello_prompt = refl
