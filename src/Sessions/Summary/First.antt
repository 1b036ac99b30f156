-- ===== src/Sessions/Summary/First.antt =====
-- The keys of a summary that the first entry with a value decides, and the tag.
use claude_agent_sdk_go.Base.{
  String, ◌≡◌, refl, ◌∙◌, ap, Option, none, some, List, [], ◌∷◌, ℤ, arith, if◌then◌else◌,
  Option-cases, inl, inr, sym,
}
use claude_agent_sdk_go.Json.{
  Value, Fields, str, bool, int64, get, index, is_true, is_str, str_or_empty, get-put, get-del,
}
use claude_agent_sdk_go.Text.{is_empty}
use claude_agent_sdk_go.Sessions.Types.{Entry}
use claude_agent_sdk_go.Sessions.Summary.{
  last_wins, fold_last_wins, fold_sidechain, fold_created_at, fold_cwd, fold_tag, fold_first_prompt,
  fold_entry, fold_entries, iso_to_epoch_ms,
}
use claude_agent_sdk_go.Sessions.Summary.Frames.{
  or_else, get-fold_sidechain, get-fold_cwd, get-fold_tag, get-fold_created_at,
  get-fold_first_prompt, get-fold_last_wins,
}

-- The value of the first entry that has one
unfoldable pub first_of {ℓ} : {A : Type ℓ} → (Entry → Option A) → List Entry → Option A
first_of now [] = none
first_of now (e ∷ es) = or_else (now e) (first_of now es)

pub sidechain_of : Entry → Option Value
sidechain_of e = some (bool (is_true (index "isSidechain" e)))

pub cwd_of : Entry → Option Value
cwd_of e = let cwd = str_or_empty (index "cwd" e) in if is_empty cwd then none else some (str cwd)

-- What a tag entry leaves under "tag": an empty tag clears it.
unfoldable pub tag_after : Option Value → List Entry → Option Value
tag_after o [] = o
tag_after o (e ∷ es) =
    let tag = str_or_empty (index "tag" e) in
    tag_after
      (if is_str (index "type" e) "tag" then (if is_empty tag then none else some (str tag)) else o)
      es

or_else_assoc {ℓ} :
    {A : Type ℓ} (a b c : Option A) → or_else (or_else a b) c ≡ or_else a (or_else b c)
or_else_assoc none b c = refl
or_else_assoc (some x) b c = refl

or_else-none {ℓ} : {A : Type ℓ} (a : Option A) → or_else a none ≡ a
or_else-none none = refl
or_else-none (some x) = refl

module _ (parse_time : String → Option ℤ) where
  pub created_of : Entry → Option Value
  created_of e = elim (iso_to_epoch_ms parse_time (index "timestamp" e)) [
    | none ↦ none
    | some ms ↦ some (int64 ms)
  ]

  first_at :
      (j : String) (now : Entry → Option Value)
      → ((d : Fields) (e : Entry) → get j (fold_entry parse_time d e) ≡ or_else (get j d) (now e))
      → (d : Fields) (es : List Entry)
      → get j (fold_entries parse_time d es) ≡ or_else (get j d) (first_of now es)
  unfolding fold_entries first_of
  first_at j now step d [] = sym (or_else-none (get j d))
  first_at j now step d (e ∷ es) =
      first_at j now step (fold_entry parse_time d e) es
      ∙ ap (λ o. or_else o (first_of now es)) (step d e)
      ∙ or_else_assoc (get j d) (now e) (first_of now es)

  sidechain_step :
      (d : Fields) (e : Entry)
      → get "is_sidechain" (fold_entry parse_time d e)
        ≡ or_else (get "is_sidechain" d) (sidechain_of e)
  unfolding fold_entry fold_sidechain sidechain_of
  sidechain_step d e =
      let d₁ = fold_sidechain d e in
      let d₂ = fold_created_at parse_time d₁ e in
      let d₃ = fold_first_prompt (fold_cwd d₂ e) e in
      get-fold_tag "is_sidechain" (fold_last_wins d₃ e last_wins) e refl
      ∙ get-fold_last_wins "is_sidechain" d₃ e last_wins refl
      ∙ get-fold_first_prompt "is_sidechain" (fold_cwd d₂ e) e refl
      ∙ get-fold_cwd "is_sidechain" d₂ e refl
      ∙ get-fold_created_at "is_sidechain" d₁ e parse_time refl
      ∙ ground
          (arith, get-put "is_sidechain" "is_sidechain" (bool (is_true (index "isSidechain" e))) d)

  created_step :
      (d : Fields) (e : Entry)
      → get "created_at" (fold_entry parse_time d e) ≡ or_else (get "created_at" d) (created_of e)
  unfolding fold_entry fold_created_at created_of
  created_step d e =
      let d₁ = fold_sidechain d e in
      let d₂ = fold_created_at parse_time d₁ e in
      let d₃ = fold_first_prompt (fold_cwd d₂ e) e in
      get-fold_tag "created_at" (fold_last_wins d₃ e last_wins) e refl
      ∙ get-fold_last_wins "created_at" d₃ e last_wins refl
      ∙ get-fold_first_prompt "created_at" (fold_cwd d₂ e) e refl
      ∙ get-fold_cwd "created_at" d₂ e refl
      ∙ elim (Option-cases (iso_to_epoch_ms parse_time (index "timestamp" e))) [
        | inl bad ↦ ground (arith, bad, get-fold_sidechain "created_at" d e refl)
        | inr (ms, good) ↦ ground (
          arith,
          good,
          get-fold_sidechain "created_at" d e refl,
          get-put "created_at" "created_at" (int64 ms) d₁,
        )
      ]

  cwd_step :
      (d : Fields) (e : Entry)
      → get "cwd" (fold_entry parse_time d e) ≡ or_else (get "cwd" d) (cwd_of e)
  unfolding fold_entry fold_cwd cwd_of
  cwd_step d e =
      let d₁ = fold_sidechain d e in
      let d₂ = fold_created_at parse_time d₁ e in
      let d₃ = fold_first_prompt (fold_cwd d₂ e) e in
      get-fold_tag "cwd" (fold_last_wins d₃ e last_wins) e refl
      ∙ get-fold_last_wins "cwd" d₃ e last_wins refl
      ∙ get-fold_first_prompt "cwd" (fold_cwd d₂ e) e refl
      ∙ ground (
        arith,
        get-fold_created_at "cwd" d₁ e parse_time refl,
        get-fold_sidechain "cwd" d e refl,
        get-put "cwd" "cwd" (str (str_or_empty (index "cwd" e))) d₂,
      )

  tag_step :
      (d : Fields) (e : Entry)
      → get "tag" (fold_entry parse_time d e) ≡ tag_after (get "tag" d) (e ∷ [])
  unfolding fold_entry fold_tag tag_after
  tag_step d e =
      let d₁ = fold_sidechain d e in
      let d₂ = fold_created_at parse_time d₁ e in
      let d₃ = fold_first_prompt (fold_cwd d₂ e) e in
      let d₄ = fold_last_wins d₃ e last_wins in
      let kept : get "tag" d₄ ≡ get "tag" d =
        get-fold_last_wins "tag" d₃ e last_wins refl
        ∙ get-fold_first_prompt "tag" (fold_cwd d₂ e) e refl
        ∙ get-fold_cwd "tag" d₂ e refl
        ∙ get-fold_created_at "tag" d₁ e parse_time refl
        ∙ get-fold_sidechain "tag" d e refl in
      ground (
        arith,
        kept,
        get-put "tag" "tag" (str (str_or_empty (index "tag" e))) d₄,
        get-del "tag" "tag" d₄,
      )

  -- A summary's sidechain flag, creation time and working directory, once there, never change;
  -- where the previous summary has none they are those of the first entry that gives one.
  pub fold_entries-first_wins :
      (d : Fields) (es : List Entry)
      → (get "is_sidechain" (fold_entries parse_time d es)
          ≡ or_else (get "is_sidechain" d) (first_of sidechain_of es))
        × (get "created_at" (fold_entries parse_time d es)
            ≡ or_else (get "created_at" d) (first_of created_of es))
        × (get "cwd" (fold_entries parse_time d es) ≡ or_else (get "cwd" d) (first_of cwd_of es))
  fold_entries-first_wins d es = (
    first_at "is_sidechain" sidechain_of sidechain_step d es,
    first_at "created_at" created_of created_step d es,
    first_at "cwd" cwd_of cwd_step d es,
  )

  -- The tag is that of the last tag entry, and an empty tag clears it.
  pub fold_entries-tag :
      (d : Fields) (es : List Entry)
      → get "tag" (fold_entries parse_time d es) ≡ tag_after (get "tag" d) es
  unfolding fold_entries tag_after
  fold_entries-tag d [] = refl
  fold_entries-tag d (e ∷ es) =
      fold_entries-tag (fold_entry parse_time d e) es ∙ ap (λ o. tag_after o es) (tag_step d e)
