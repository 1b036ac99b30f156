-- ===== src/Agent/Options/Settings/Merged.antt =====
-- What the merged settings hold, and when merging panics.
use claude_agent_sdk_go.Base.{
  String, ◌≡◌, ◌↔◌, refl, ◌∙◌, sym, subst, true, false, Option, none, some, ◌⊎◌, inl, inr, if-cases,
  str_eq, if_true, if_false, if◌then◌else◌,
}
use claude_agent_sdk_go.Text.{is_empty, trim_space, has_prefix}
use claude_agent_sdk_go.Json.{Value, Fields, null, obj, end, get, put, get-put}
use claude_agent_sdk_go.Agent.Options.{Options, SandboxSettings}
use claude_agent_sdk_go.Agent.Options.Settings.{
  Settings, merged, unreadable, panicked, sandbox_fields, with_sandbox, merge_value, merge_settings,
  merged_settings,
}

module _ (parse_json : String → Option Value) (marshal : Value → String)
    (read_file : String → Option String) where
  -- The text that trimmed settings, which are not empty, stand for: their own or that of the file
  unfoldable pub source_of : String → Option String
  source_of s = if has_prefix "{" s then some s else read_file s

  abbrev merge : SandboxSettings → String → Settings
  merge = merge_settings parse_json marshal read_file

  -- What the settings that are merged with the sandbox are: the sandbox on top of the object `m`
  pub record IsMerge (sandbox : SandboxSettings) (m : Fields) (text : String) : Type 0 where
    pub fields : Fields
    pub written : text ≡ marshal (obj fields)
    pub has_sandbox : get "sandbox" fields ≡ some (obj (sandbox_fields sandbox))
    pub keeps : (k : String) → str_eq "sandbox" k ≡ false → get k fields ≡ get k m

  with_sandbox-IsMerge :
      (sandbox : SandboxSettings) (m : Fields) (text : String)
      → with_sandbox parse_json marshal read_file sandbox m ≡ merged text
      → IsMerge sandbox m text
  unfolding with_sandbox
  with_sandbox-IsMerge sandbox m text h = record {
    fields = put "sandbox" (obj (sandbox_fields sandbox)) m;
    written = cc;
    has_sandbox = get-put "sandbox" "sandbox" _ m;
    keeps = λ k other. get-put "sandbox" k _ m ∙ if_false _ _ _ other;
  }

  merge_value-IsMerge :
      (sandbox : SandboxSettings) (o : Option Value) (text : String)
      → merge_value parse_json marshal read_file sandbox o ≡ merged text
      → (m : Fields) × (o ≡ some (obj m)) × IsMerge sandbox m text
  unfolding merge_value
  merge_value-IsMerge sandbox (some (obj m)) text h =
      (m, refl, with_sandbox-IsMerge sandbox m text h)
  merge_value-IsMerge sandbox (some null) text h = absurd (cc)
  merge_value-IsMerge sandbox _ text h = absurd (cc)

  merge_value_panics :
      (sandbox : SandboxSettings) (o : Option Value)
      → (merge_value parse_json marshal read_file sandbox o ≡ panicked) ↔ (o ≡ some null)
  unfolding merge_value with_sandbox
  merge_value_panics sandbox (some null) = (λ _. refl, λ _. refl)
  merge_value_panics sandbox (some (obj m)) = (λ h. absurd (cc), λ h. absurd (cc))
  merge_value_panics sandbox none = (λ h. absurd (cc), λ h. absurd (cc))
  merge_value_panics sandbox (some _) = (λ h. absurd (cc), λ h. absurd (cc))

  -- The object that trimmed settings give: an empty one for none, or that of their text
  abbrev pub IsBase : String → Fields → Type 0
  IsBase s m =
      ((is_empty s ≡ true) × (m ≡ end))
      ⊎ ((raw : String) × (source_of s ≡ some raw) × (parse_json raw ≡ some (obj m)))

  abbrev Merges : SandboxSettings → String → String → Type 0
  Merges sandbox s text = (m : Fields) × IsBase s m × IsMerge sandbox m text

  file-Merges :
      (sandbox : SandboxSettings) (s text : String) (o : Option String)
      → read_file s ≡ o
      → has_prefix "{" s ≡ false
      → elim o [
        | none ↦ unreadable s
        | some raw ↦ merge_value parse_json marshal read_file sandbox (parse_json raw)
      ]
        ≡ merged text
      → Merges sandbox s text
  unfolding source_of
  file-Merges sandbox s text none e path h = absurd (cc)
  file-Merges sandbox s text (some raw) e path h =
      let (m, object, merge) = merge_value-IsMerge sandbox (parse_json raw) text h in
      (m, inr (raw, if_false _ _ _ path ∙ e, object), merge)

  merge-Merges :
      (sandbox : SandboxSettings) (s text : String)
      → merge sandbox s ≡ merged text
      → Merges sandbox s text
  unfolding merge_settings source_of
  merge-Merges sandbox s text =
      let P : Settings → Type 0 = λ x. x ≡ merged text → Merges sandbox s text in
      if-cases P (is_empty s)
        (λ none_given h. (end, inl (none_given, refl), with_sandbox-IsMerge sandbox end text h))
        (λ _.
          if-cases P (has_prefix "{" s)
            (λ itself h.
              let (m, object, merge) = merge_value-IsMerge sandbox (parse_json s) text h in
              (m, inr (s, if_true _ _ _ itself, object), merge))
            (λ path. file-Merges sandbox s text (read_file s) refl path))

  -- With a sandbox, the merged settings are those of Options.Settings, or of the file that it names, or
  -- none, with the sandbox as their "sandbox" and every other key as it was.
  pub merged_settings-Merges :
      (opts : Options) (sandbox : SandboxSettings) (text : String)
      → opts.sandbox ≡ some sandbox
      → merged_settings parse_json marshal read_file opts ≡ merged text
      → (m : Fields) × IsBase (trim_space opts.settings) m × IsMerge sandbox m text
  unfolding merged_settings
  merged_settings-Merges opts sandbox text given h =
      merge-Merges sandbox (trim_space opts.settings) text (rw (given, merged_settings) at h)

  abbrev Panics : SandboxSettings → String → Settings → Type 0
  Panics sandbox s x = (x ≡ panicked) ↔ (
      (raw : String) × (is_empty s ≡ false)
      × (source_of s ≡ some raw)
      × (parse_json raw ≡ some null))

  file-Panics :
      (sandbox : SandboxSettings) (s : String) (o : Option String)
      → read_file s ≡ o
      → is_empty s ≡ false
      → has_prefix "{" s ≡ false
      → Panics sandbox s (elim o [
        | none ↦ unreadable s
        | some raw ↦ merge_value parse_json marshal read_file sandbox (parse_json raw)
      ])
  unfolding source_of
  file-Panics sandbox s none e given path =
      (λ h. absurd (cc), λ (raw, _, source, _). absurd (cc (e, sym (if_false _ _ _ path) ∙ source)))
  file-Panics sandbox s (some text) e given path =
      let source : source_of s ≡ some text = if_false _ _ _ path ∙ e in
      (
        λ h. (text, given, source, (merge_value_panics sandbox (parse_json text)).0 h),
        λ (raw, _, other, is_null).
            let same : raw ≡ text = cc in
            (merge_value_panics sandbox (parse_json text)).1
              (subst (λ t. parse_json t ≡ some null) same is_null),
      )

  merge-Panics : (sandbox : SandboxSettings) (s : String) → Panics sandbox s (merge sandbox s)
  unfolding merge_settings source_of with_sandbox
  merge-Panics sandbox s =
      let P = Panics sandbox s in
      if-cases P (is_empty s) (λ none_given. (λ h. absurd (cc), λ (raw, given, _, _). absurd (cc)))
        (λ given.
          if-cases P (has_prefix "{" s)
            (λ itself.
              let source : source_of s ≡ some s = if_true _ _ _ itself in
              (
                λ h. (s, given, source, (merge_value_panics sandbox (parse_json s)).0 h),
                λ (raw, _, other, is_null).
                    let same : raw ≡ s = cc in
                    (merge_value_panics sandbox (parse_json s)).1
                      (subst (λ t. parse_json t ≡ some null) same is_null),
              ))
            (λ path. file-Panics sandbox s (read_file s) refl given path))

  -- With a sandbox, mergedSettings panics exactly if the settings are not empty and the text that they
  -- stand for is JSON's null.
  pub merged_settings_panics :
      (opts : Options) (sandbox : SandboxSettings)
      → opts.sandbox ≡ some sandbox
      → (merged_settings parse_json marshal read_file opts ≡ panicked) ↔ (
          (raw : String) × (is_empty (trim_space opts.settings) ≡ false)
          × (source_of (trim_space opts.settings) ≡ some raw)
          × (parse_json raw ≡ some null))
  unfolding merged_settings
  merged_settings_panics opts sandbox given =
      rw (given, merged_settings) (merge-Panics sandbox (trim_space opts.settings))
