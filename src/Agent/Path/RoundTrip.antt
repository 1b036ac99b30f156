-- ===== src/Agent/Path/RoundTrip.antt =====
-- The key of the path at which the CLI writes a transcript is the transcript's key.
use Prim.Native.String.{◌++◌ as append}
use claude_agent_sdk_go.Base.{
  String, ◌≡◌, refl, ap, Bool, false, Option, some, List, [], ◌∷◌, All, arith, str_eq,
}
use claude_agent_sdk_go.Text.Parts.{
  join, has_char, split-join, trim_suffix-append, has_suffix-append,
}
use claude_agent_sdk_go.Agent.Path.{trim_last, key_of_parts, session_key_for_path}

-- The last part with the extension put on
abbrev pub with_extension : List String → List String
with_extension [] = []
with_extension (s ∷ []) = append s ".jsonl" ∷ []
with_extension (s ∷ t ∷ rest) = s ∷ with_extension (t ∷ rest)

trim_last-with_extension : (parts : List String) → trim_last (with_extension parts) ≡ parts
unfolding trim_last
trim_last-with_extension [] = refl
trim_last-with_extension (s ∷ []) = ap (λ t. t ∷ []) (trim_suffix-append ".jsonl" s)
trim_last-with_extension (s ∷ t ∷ []) = ap (λ t. s ∷ t ∷ []) (trim_suffix-append ".jsonl" t)
trim_last-with_extension (s ∷ t ∷ u ∷ rest) =
    ap (λ ts. s ∷ ts) (trim_last-with_extension (t ∷ u ∷ rest))

key_of_parts-sub :
    (project session one two : String) (rest : List String)
    → str_eq project ".." ≡ false
    → key_of_parts (project ∷ session ∷ with_extension (one ∷ two ∷ rest))
      ≡ some (record {
        project_key = project;
        session_id = session;
        subpath = join "/" (one ∷ two ∷ rest);
      })
unfolding key_of_parts
key_of_parts-sub project session one two [] up =
    rw up (ground (arith, trim_last-with_extension (one ∷ two ∷ [])))
key_of_parts-sub project session one two (t ∷ ts) up =
    rw up (ground (arith, trim_last-with_extension (one ∷ two ∷ t ∷ ts)))

module _ (rel : String → String → Option String) (is_abs : String → Bool) where
  -- A main transcript's path gives its project and session with an empty subpath, for a project
  -- other than ".." and names without a slash.
  pub session_key_for_path-main :
      (path projects_dir project session : String)
      → rel projects_dir path ≡ some (join "/" (project ∷ append session ".jsonl" ∷ []))
      → is_abs (join "/" (project ∷ append session ".jsonl" ∷ [])) ≡ false
      → str_eq project ".." ≡ false
      → All (λ p. has_char "/" p ≡ false) (project ∷ append session ".jsonl" ∷ [])
      → session_key_for_path rel is_abs path projects_dir
        ≡ some (record { project_key = project; session_id = session; subpath = "" })
  unfolding session_key_for_path key_of_parts
  session_key_for_path-main path projects_dir project session found local up plain = ground (
    arith,
    found,
    split-join "/" project (append session ".jsonl" ∷ []) plain,
    has_suffix-append ".jsonl" session,
    trim_suffix-append ".jsonl" session,
  )

  -- A sub-transcript's path gives its project, its session and the rest of the path without the
  -- extension as the subpath, for a project other than "..", a subpath of at least two parts, and
  -- names without a slash.
  pub session_key_for_path-sub :
      (path projects_dir project session one two : String) (rest : List String)
      → let parts = project ∷ session ∷ with_extension (one ∷ two ∷ rest) in
        rel projects_dir path ≡ some (join "/" parts)
        → is_abs (join "/" parts) ≡ false
        → str_eq project ".." ≡ false
        → All (λ p. has_char "/" p ≡ false) parts
        → session_key_for_path rel is_abs path projects_dir
          ≡ some (record {
            project_key = project;
            session_id = session;
            subpath = join "/" (one ∷ two ∷ rest);
          })
  unfolding session_key_for_path
  session_key_for_path-sub path projects_dir project session one two rest found local up plain =
      ground (
        arith,
        found,
        split-join "/" project (session ∷ with_extension (one ∷ two ∷ rest)) plain,
        key_of_parts-sub project session one two rest up,
      )
