-- ===== src/Sessions/Summary/Fold.antt =====
-- What FoldSessionSummary keeps of the entries it is given: which entry decides each key.
use claude_agent_sdk_go.Base.{
  String, ◌≡◌, refl, ◌∙◌, ap, false, ◌||◌, Option, none, some, List, [], ◌∷◌, All, sym, ℤ, arith,
  str_eq,
}
use claude_agent_sdk_go.Json.{Fields, get, index, as_str}
use claude_agent_sdk_go.Sessions.Types.{Entry}
use claude_agent_sdk_go.Sessions.Summary.{
  last_wins, fold_last_wins, fold_sidechain, fold_created_at, fold_cwd, fold_first_prompt,
  fold_entry, fold_entries,
}
use claude_agent_sdk_go.Sessions.Summary.Frames.{
  or_else, str_value, get-put_str, get-fold_sidechain, get-fold_cwd, get-fold_tag,
  get-fold_created_at, get-fold_first_prompt, is_prompt_key,
}

-- The last entry whose `from` is a string
unfoldable pub last_text : String → List Entry → Option String
last_text from [] = none
last_text from (e ∷ es) = or_else (last_text from es) (as_str (index from e))

or_else_assoc {ℓ} :
    {A : Type ℓ} (a b c : Option A) → or_else a (or_else b c) ≡ or_else (or_else a b) c
or_else_assoc none b c = refl
or_else_assoc (some x) b c = refl

str_value-or_else :
    (a b : Option String) → str_value (or_else a b) ≡ or_else (str_value a) (str_value b)
str_value-or_else none b = refl
str_value-or_else (some x) b = refl

module _ (parse_time : String → Option ℤ) where
  -- A key that only the loop over lastWins writes.
  before_wins :
      (j : String) (d : Fields) (e : Entry)
      → (str_eq "is_sidechain" j || str_eq "created_at" j || str_eq "cwd" j || is_prompt_key j)
        ≡ false
      → get j (fold_first_prompt (fold_cwd (fold_created_at parse_time (fold_sidechain d e) e) e) e)
        ≡ get j d
  before_wins j d e h =
      let d₁ = fold_sidechain d e in
      let d₂ = fold_created_at parse_time d₁ e in
      ground (
        arith,
        get-fold_first_prompt j (fold_cwd d₂ e) e,
        get-fold_cwd j d₂ e,
        get-fold_created_at j d₁ e parse_time,
        get-fold_sidechain j d e,
      )

  -- One pair of lastWins: `wins` is what the loop over it does to the key.
  wins_at :
      (from to : String)
      → ((d : Fields) (e : Entry)
          → get to (fold_last_wins d e last_wins)
            ≡ or_else (str_value (as_str (index from e))) (get to d))
      → (str_eq "is_sidechain" to || str_eq "created_at" to || str_eq "cwd" to || is_prompt_key to)
        ≡ false
      → str_eq "tag" to ≡ false
      → (d : Fields) (es : List Entry)
      → get to (fold_entries parse_time d es) ≡ or_else (str_value (last_text from es)) (get to d)
  unfolding fold_entries last_text fold_entry
  wins_at from to wins h no_tag d [] = refl
  wins_at from to wins h no_tag d (e ∷ es) =
      let d₁ =
        fold_first_prompt (fold_cwd (fold_created_at parse_time (fold_sidechain d e) e) e) e in
      wins_at from to wins h no_tag (fold_entry parse_time d e) es
      ∙ ap (or_else _) (
          get-fold_tag to (fold_last_wins d₁ e last_wins) e no_tag
          ∙ wins d₁ e
          ∙ ap (or_else _) (before_wins to d e h))
      ∙ or_else_assoc (str_value (last_text from es)) _ _
      ∙ ap (λ o. or_else o (get to d))
          (sym (str_value-or_else (last_text from es) (as_str (index from e))))

  -- The titles, last prompt, summary hint and branch of a summary are those of the last entry that
  -- carries one as a string, and those of the previous summary where none does.
  pub fold_entries-last_wins :
      (d : Fields) (es : List Entry)
      → All
          (λ p.
            get p.1 (fold_entries parse_time d es)
            ≡ or_else (str_value (last_text p.0 es)) (get p.1 d))
          last_wins
  unfolding fold_last_wins
  fold_entries-last_wins d es = (
    wins_at "customTitle" "custom_title" (λ d e. simp get-put_str) refl refl d es,
    (
      wins_at "aiTitle" "ai_title" (λ d e. simp get-put_str) refl refl d es,
      (
        wins_at "lastPrompt" "last_prompt" (λ d e. simp get-put_str) refl refl d es,
        (
          wins_at "summary" "summary_hint" (λ d e. simp get-put_str) refl refl d es,
          (wins_at "gitBranch" "git_branch" (λ d e. simp get-put_str) refl refl d es, tt),
        ),
      ),
    ),
  )
