-- ===== src/Sessions/Edits/Shown.antt =====
-- An edit that reports no error shows in the next listing.
use claude_agent_sdk_go.Base.{
  ℕ, String, ◌≡◌, refl, ◌∙◌, ap, Bool, true, false, Option, none, some, List, [], ◌∷◌, ◌++◌, ℤ,
  if_false,
}
use claude_agent_sdk_go.Json.{str, end, get, index}
use claude_agent_sdk_go.Sessions.Types.{Entry, SessionKey}
use claude_agent_sdk_go.Text.{trim_space, is_empty}
use claude_agent_sdk_go.Sessions.Summary.{fold_entries}
use claude_agent_sdk_go.Sessions.Summary.Prompts.{fold_entries-append}
use claude_agent_sdk_go.Sessions.Summary.Fold.{fold_entries-last_wins, last_text}
use claude_agent_sdk_go.Sessions.Summary.First.{fold_entries-tag, tag_after}
use claude_agent_sdk_go.Sessions.Edits.{
  EditError, is_session_id, sanitize_unicode, report, main_of, meta_entry, append_meta,
  rename_session, tag_session,
}

module _ {S : Type 0} (store_append : SessionKey → List Entry → S → Option String × S)
    (parse_time : String → Option ℤ) where
  -- RenameSessionViaStore of a valid session id, with a title that is not only space, appends one entry
  -- to the main transcript, after which the summary's custom title is the trimmed title.
  pub rename_session-shows :
      (uuid now project session title : String) (s : S)
      → is_session_id session ≡ true
      → is_empty (trim_space title) ≡ false
      → (e : Entry) × (rename_session store_append uuid now project session title s
          ≡ (let r = store_append (main_of project session) (e ∷ []) s in (report r.0, r.1)))
        × ((es : List Entry)
            → get "custom_title" (fold_entries parse_time end (es ++ e ∷ []))
              ≡ some (str (trim_space title)))
  unfolding rename_session append_meta get index last_text
  rename_session-shows uuid now project session title s valid visible = (
    meta_entry uuid now session "custom-title" "customTitle" (trim_space title),
    rw (valid, visible) refl,
    λ es.
        ap (get "custom_title") (fold_entries-append parse_time end es _)
        ∙ (fold_entries-last_wins parse_time (fold_entries parse_time end es) _).0,
  )

  -- What a call that appends the entry `e` comes to
  abbrev pub appends_one : String → String → Entry → S → Option EditError × S
  appends_one project session e s =
      let r = store_append (main_of project session) (e ∷ []) s in (report r.0, r.1)

  -- TagSessionViaStore of a valid session id appends one entry, after which the summary's tag is the
  -- sanitized and trimmed tag, for one that is not empty then; and none for a nil tag.
  pub tag_session-shows :
      (is_listed : ℕ → Bool) (uuid now project session tag : String) (s : S)
      → is_session_id session ≡ true
      → is_empty (trim_space (sanitize_unicode is_listed tag)) ≡ false
      → ((e : Entry) × (tag_session store_append is_listed uuid now project session (some tag) s
            ≡ appends_one project session e s)
          × ((es : List Entry)
              → get "tag" (fold_entries parse_time end (es ++ e ∷ []))
                ≡ some (str (trim_space (sanitize_unicode is_listed tag)))))
        × ((e : Entry) × (tag_session store_append is_listed uuid now project session none s
              ≡ appends_one project session e s)
            × ((es : List Entry) → get "tag" (fold_entries parse_time end (es ++ e ∷ [])) ≡ none))
  unfolding tag_session append_meta get index tag_after
  tag_session-shows is_listed uuid now project session tag s valid visible =
      let value = trim_space (sanitize_unicode is_listed tag) in
      (
        (
          meta_entry uuid now session "tag" "tag" value,
          rw (valid, visible) refl,
          λ es.
              ap (get "tag") (fold_entries-append parse_time end es _)
              ∙ fold_entries-tag parse_time (fold_entries parse_time end es) _
              ∙ if_false (is_empty value) none (some (str value)) visible,
        ),
        (
          meta_entry uuid now session "tag" "tag" "",
          rw valid refl,
          λ es.
              ap (get "tag") (fold_entries-append parse_time end es _)
              ∙ fold_entries-tag parse_time (fold_entries parse_time end es) _,
        ),
      )
