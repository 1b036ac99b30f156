-- ===== src/Sessions/Summary.antt =====
-- domains/sessions/summary.go: the running summary of a session. `time.Parse` with RFC3339Nano is
-- the parameter `parse_time`, which gives the Unix time in milliseconds, or none for an error.
pub mod Frames
pub mod Fold
pub mod First
pub mod Prompts
use Prim.Native.String.{◌++◌ as append}
use claude_agent_sdk_go.Base.{
  ℕ, String, Bool, true, false, not, ◌||◌, Option, none, some, List, [], ◌∷◌, ℤ, pos, ltb,
  if◌then◌else◌,
}
use claude_agent_sdk_go.Json.{
  Value, Items, Fields, bool, int64, int, float64, str, arr, obj, no_items, item, put, del, index,
  as_str, str_or_empty, bool_or_false, as_obj, as_arr, is_true, is_str, has, end,
}
use claude_agent_sdk_go.Text.{
  trim_left, trim_right, trim_space, is_re_space, is_ascii_space, is_empty, replace_char,
  cut_prefix, has_prefix, has_suffix, cut, rune_count, rune_take,
}
use claude_agent_sdk_go.Sessions.Types.{Entry, SessionKey, SessionSummaryEntry, SessionInfo}

-- commandNameRE.FindStringSubmatch: the text of the first command-name element
unfoldable pub command_name : String → Option String
command_name text = elim (cut "<command-name>" text) [
  | none ↦ none
  | some (_, after) ↦ elim (cut "</command-name>" after) [
    | none ↦ none
    | some (name, _) ↦ some name
  ]
]

-- `\s*<tag>[\s\S]*</tag>\s*$` at the start of the text
unfoldable pub matches_element : String → String → String → Bool
matches_element open_tag close_tag text = elim (cut_prefix open_tag (trim_left is_re_space text)) [
  | none ↦ false
  | some rest ↦ has_suffix close_tag (trim_right is_re_space rest)
]

-- `\[Request interrupted by user[^\]]*\]` at the start of the text
unfoldable pub matches_interrupt : String → Bool
matches_interrupt text = elim (cut_prefix "[Request interrupted by user" text) [
  | none ↦ false
  | some rest ↦ elim (cut "]" rest) [ none ↦ false | some _ ↦ true ]
]

-- skipPromptRE.MatchString
unfoldable pub skip_prompt : String → Bool
unfolding matches_interrupt matches_element
skip_prompt text =
    has_prefix "<local-command-stdout>" text
    || has_prefix "<session-start-hook>" text
    || has_prefix "<tick>" text
    || has_prefix "<goal>" text
    || matches_interrupt text
    || matches_element "<ide_opened_file>" "</ide_opened_file>" text
    || matches_element "<ide_selection>" "</ide_selection>" text

unfoldable pub text_items : Items → List String
text_items no_items = []
text_items (item (obj m) xs) =
    let rest = text_items xs in
    if is_str (index "type" m) "text"
    then (elim (as_str (index "text" m)) [ none ↦ rest | some s ↦ s ∷ rest ])
    else rest
text_items (item _ xs) = text_items xs

abbrev content_texts : Value → List String
content_texts (str s) = s ∷ []
content_texts (arr xs) = text_items xs
content_texts _ = []

-- entryTextBlocks
unfoldable pub entry_text_blocks : Entry → List String
unfolding text_items
entry_text_blocks e = elim (as_obj (index "message" e)) [
  | none ↦ []
  | some msg ↦ content_texts (index "content" msg)
]

unfoldable pub has_tool_result : Items → Bool
has_tool_result no_items = false
has_tool_result (item (obj m) xs) = is_str (index "type" m) "tool_result" || has_tool_result xs
has_tool_result (item _ xs) = has_tool_result xs

-- Whether a block of the entry's message is a tool result, the guard of foldFirstPrompt
unfoldable pub carries_tool_result : Entry → Bool
unfolding has_tool_result
carries_tool_result e = elim (as_obj (index "message" e)) [
  | none ↦ false
  | some msg ↦ elim (as_arr (index "content" msg)) [ none ↦ false | some xs ↦ has_tool_result xs ]
]

unfoldable pub shorten : String → String
shorten text =
    if ltb 200 (rune_count text)
    then append (trim_right is_ascii_space (rune_take 200 text)) "…"
    else text

-- What foldFirstPrompt makes of one text block
pub data Prompt : Type 0 where
  skipped : Prompt
  fallback : String → Prompt
  first : String → Prompt

unfoldable pub classify_prompt : String → Prompt
classify_prompt raw =
    let text = trim_space (replace_char 0x0a " " raw) in
    if is_empty text then skipped else elim (command_name text) [
      | some name ↦ fallback name
      | none ↦ if skip_prompt text then skipped else first (shorten text)
    ]

-- if fb, _ := data["command_fallback"].(string); fb == "" { data["command_fallback"] = name }
unfoldable pub put_fallback : String → Fields → Fields
put_fallback name fields =
    if is_empty (str_or_empty (index "command_fallback" fields))
    then put "command_fallback" (str name) fields
    else fields

unfoldable pub lock_prompt : String → Fields → Fields
lock_prompt text fields =
    put "first_prompt_locked" (bool true) (put "first_prompt" (str text) fields)

-- The loop of foldFirstPrompt over the text blocks
unfoldable pub fold_prompts : Fields → List String → Fields
fold_prompts fields [] = fields
fold_prompts fields (raw ∷ blocks) = elim (classify_prompt raw) [
  | skipped ↦ fold_prompts fields blocks
  | fallback name ↦ fold_prompts (put_fallback name fields) blocks
  | first text ↦ lock_prompt text fields
]

-- foldFirstPrompt
unfoldable pub fold_first_prompt : Fields → Entry → Fields
fold_first_prompt fields e =
    if bool_or_false (index "first_prompt_locked" fields) || not (is_str (index "type" e) "user")
    then fields
    else if is_true (index "isMeta" e) || is_true (index "isCompactSummary" e)
    then fields
    else if carries_tool_result e
    then fields
    else fold_prompts fields (entry_text_blocks e)

-- lastWins
abbrev pub last_wins : List (String × String)
last_wins =
    ("customTitle", "custom_title")
    ∷ ("aiTitle", "ai_title")
    ∷ ("lastPrompt", "last_prompt")
    ∷ ("summary", "summary_hint")
    ∷ ("gitBranch", "git_branch")
    ∷ []

-- if s, ok := v.(string); ok { m[k] = s }
unfoldable pub put_str : String → Option String → Fields → Fields
put_str k none m = m
put_str k (some s) m = put k (str s) m

-- The loop over lastWins
unfoldable pub fold_last_wins : Fields → Entry → List (String × String) → Fields
fold_last_wins fields e [] = fields
fold_last_wins fields e ((from, to) ∷ pairs) =
    fold_last_wins (put_str to (as_str (index from e)) fields) e pairs

unfoldable pub fold_sidechain : Fields → Entry → Fields
fold_sidechain fields e =
    if has "is_sidechain" fields
    then fields
    else put "is_sidechain" (bool (is_true (index "isSidechain" e))) fields

unfoldable pub fold_cwd : Fields → Entry → Fields
fold_cwd fields e =
    let cwd = str_or_empty (index "cwd" e) in
    if has "cwd" fields || is_empty cwd then fields else put "cwd" (str cwd) fields

unfoldable pub fold_tag : Fields → Entry → Fields
fold_tag fields e =
    let tag = str_or_empty (index "tag" e) in
    if is_str (index "type" e) "tag"
    then (if is_empty tag then del "tag" fields else put "tag" (str tag) fields)
    else fields

-- The zero SessionInfo with its string fields read from the summary
abbrev text_of : Fields → String → String
text_of fields k = str_or_empty (index k fields)

-- The first text that is not empty
unfoldable pub first_non_empty : List String → String
first_non_empty [] = ""
first_non_empty (s ∷ rest) = let later = first_non_empty rest in if is_empty s then later else s

module _ (parse_time : String → Option ℤ) where
  -- isoToEpochMs
  unfoldable pub iso_to_epoch_ms : Value → Option ℤ
  iso_to_epoch_ms (str s) = parse_time s
  iso_to_epoch_ms _ = none

  unfoldable pub fold_created_at : Fields → Entry → Fields
  unfolding iso_to_epoch_ms
  fold_created_at fields e =
      if has "created_at" fields then fields else elim (iso_to_epoch_ms (index "timestamp" e)) [
        | none ↦ fields
        | some ms ↦ put "created_at" (int64 ms) fields
      ]

  -- The body of the loop of FoldSessionSummary
  unfoldable pub fold_entry : Fields → Entry → Fields
  fold_entry fields e =
      fold_tag
        (fold_last_wins
          (fold_first_prompt (fold_cwd (fold_created_at (fold_sidechain fields e) e) e) e) e
          last_wins)
        e

  unfoldable pub fold_entries : Fields → List Entry → Fields
  fold_entries fields [] = fields
  fold_entries fields (e ∷ es) = fold_entries (fold_entry fields e) es

  -- FoldSessionSummary
  unfoldable pub fold_session_summary :
      Option SessionSummaryEntry → SessionKey → List Entry → SessionSummaryEntry
  fold_session_summary none key entries = record {
    session_id = key.session_id;
    mtime_ms = pos 0;
    fields = fold_entries end entries;
  }
  fold_session_summary (some prev) key entries = record {
    session_id = prev.session_id;
    mtime_ms = prev.mtime_ms;
    fields = fold_entries prev.fields entries;
  }

-- int64Of; the conversion of a float64 to int64 is the parameter `truncate`
unfoldable pub int64_of : (ℕ → ℤ) → Value → ℤ
int64_of truncate (int64 n) = n
int64_of truncate (int n) = n
int64_of truncate (float64 x) = truncate x
int64_of truncate _ = pos 0

-- The `first` of SummaryToSessionInfo
unfoldable pub first_prompt_of : Fields → String
first_prompt_of fields =
    if bool_or_false (index "first_prompt_locked" fields)
    then text_of fields "first_prompt"
    else text_of fields "command_fallback"

-- SummaryToSessionInfo
unfoldable pub summary_to_session_info : (ℕ → ℤ) → SessionSummaryEntry → String → Option SessionInfo
unfolding first_prompt_of first_non_empty
summary_to_session_info truncate e project_path =
    let prompt = first_prompt_of e.fields in
    let title =
      first_non_empty (text_of e.fields "custom_title" ∷ text_of e.fields "ai_title" ∷ []) in
    let summary =
      first_non_empty
        (title ∷ text_of e.fields "last_prompt" ∷ text_of e.fields "summary_hint" ∷ prompt ∷ []) in
    if bool_or_false (index "is_sidechain" e.fields)
    then none
    else if is_empty summary
    then none
    else some (record {
      session_id = e.session_id;
      summary = summary;
      last_modified = e.mtime_ms;
      file_size = pos 0;
      custom_title = title;
      first_prompt = prompt;
      git_branch = text_of e.fields "git_branch";
      cwd = first_non_empty (text_of e.fields "cwd" ∷ project_path ∷ []);
      tag = text_of e.fields "tag";
      created_at = int64_of truncate (index "created_at" e.fields);
    })
