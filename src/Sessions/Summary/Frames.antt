-- ===== src/Sessions/Summary/Frames.antt =====
-- Which keys of the summary each part of FoldSessionSummary leaves alone.
use claude_agent_sdk_go.Base.{
  String, ◌≡◌, refl, ◌∙◌, Bool, false, ◌||◌, Option, none, some, List, [], ◌∷◌, ℤ, arith, str_eq,
  if◌then◌else◌, ◌⊎◌, inl, inr, any, Option-cases,
}
use claude_agent_sdk_go.Json.{
  Value, Fields, str, bool, int64, get, index, is_true, str_or_empty, as_str, get-put, get-del,
}
use claude_agent_sdk_go.Sessions.Types.{Entry}
use claude_agent_sdk_go.Sessions.Summary.{
  Prompt, skipped, fallback, first, classify_prompt, put_str, put_fallback, lock_prompt,
  entry_text_blocks, iso_to_epoch_ms, fold_prompts, fold_first_prompt, fold_last_wins,
  fold_sidechain, fold_cwd, fold_tag, fold_created_at,
}

pub Prompt-cases :
    (p : Prompt)
    → (p ≡ skipped)
      ⊎ (((name : String) × (p ≡ fallback name)) ⊎ ((text : String) × (p ≡ first text)))
Prompt-cases skipped = inl refl
Prompt-cases (fallback name) = inr (inl (name, refl))
Prompt-cases (first text) = inr (inr (text, refl))

abbrev pub or_else {ℓ} : {A : Type ℓ} → Option A → Option A → Option A
or_else none o = o
or_else (some a) o = some a

abbrev pub str_value : Option String → Option Value
str_value none = none
str_value (some s) = some (str s)

pub get-put_str :
    (k j : String) (o : Option String) (m : Fields)
    → get j (put_str k o m) ≡ (if str_eq k j then or_else (str_value o) (get j m) else get j m)
unfolding put_str
get-put_str k j none m = ground arith
get-put_str k j (some s) m = ground (arith, get-put k j (str s) m)

module _ (j : String) (d : Fields) (e : Entry) where
  pub get-fold_sidechain : str_eq "is_sidechain" j ≡ false → get j (fold_sidechain d e) ≡ get j d
  unfolding fold_sidechain
  get-fold_sidechain h =
      ground (arith, get-put "is_sidechain" j (bool (is_true (index "isSidechain" e))) d)

  pub get-fold_cwd : str_eq "cwd" j ≡ false → get j (fold_cwd d e) ≡ get j d
  unfolding fold_cwd
  get-fold_cwd h = ground (arith, get-put "cwd" j (str (str_or_empty (index "cwd" e))) d)

  pub get-fold_tag : str_eq "tag" j ≡ false → get j (fold_tag d e) ≡ get j d
  unfolding fold_tag
  get-fold_tag h =
      ground (arith, get-put "tag" j (str (str_or_empty (index "tag" e))) d, get-del "tag" j d)

  pub get-fold_created_at :
      (parse_time : String → Option ℤ)
      → str_eq "created_at" j ≡ false
      → get j (fold_created_at parse_time d e) ≡ get j d
  unfolding fold_created_at
  get-fold_created_at parse_time h =
      elim (Option-cases (iso_to_epoch_ms parse_time (index "timestamp" e))) [
        | inl none_found ↦ ground (arith, none_found)
        | inr (ms, found) ↦ ground (arith, found, get-put "created_at" j (int64 ms) d)
      ]

-- The keys that foldFirstPrompt writes
abbrev pub is_prompt_key : String → Bool
is_prompt_key j =
    str_eq "command_fallback" j || str_eq "first_prompt" j || str_eq "first_prompt_locked" j

get-fold_prompts :
    (j : String) (d : Fields) (blocks : List String)
    → is_prompt_key j ≡ false
    → get j (fold_prompts d blocks) ≡ get j d
unfolding fold_prompts put_fallback lock_prompt
get-fold_prompts j d [] h = refl
get-fold_prompts j d (raw ∷ blocks) h = elim (Prompt-cases (classify_prompt raw)) [
  | inl e ↦ rw (e, fold_prompts) (get-fold_prompts j d blocks h)
  | inr (inl (name, e)) ↦
      rw (e, fold_prompts)
        (get-fold_prompts j (put_fallback name d) blocks h
          ∙ ground (arith, get-put "command_fallback" j (str name) d))
  | inr (inr (text, e)) ↦ rw (e, fold_prompts) (simp get-put (ground arith))
]

pub get-fold_first_prompt :
    (j : String) (d : Fields) (e : Entry)
    → is_prompt_key j ≡ false
    → get j (fold_first_prompt d e) ≡ get j d
unfolding fold_first_prompt
get-fold_first_prompt j d e h = ground (arith, get-fold_prompts j d (entry_text_blocks e))

pub get-fold_last_wins :
    (j : String) (d : Fields) (e : Entry) (pairs : List (String × String))
    → any (λ p. str_eq p.1 j) pairs ≡ false
    → get j (fold_last_wins d e pairs) ≡ get j d
unfolding fold_last_wins
get-fold_last_wins j d e [] h = refl
get-fold_last_wins j d e ((from, to) ∷ pairs) h =
    let d₁ = put_str to (as_str (index from e)) d in
    ground (arith, get-fold_last_wins j d₁ e pairs, get-put_str to j (as_str (index from e)) d)
