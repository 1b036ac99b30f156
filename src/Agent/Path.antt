-- ===== src/Agent/Path.antt =====
-- domains/agent/mirror.go: sessionKeyForPath. filepath.Rel and filepath.IsAbs, which depend on the
-- operating system, are the parameters `rel` (none for an error) and `is_abs`; paths have slashes.
pub mod RoundTrip
use Prim.Native.String.{◌++◌ as append}
use claude_agent_sdk_go.Base.{
  String, Bool, ◌||◌, Option, none, some, List, [], ◌∷◌, str_eq, if◌then◌else◌,
}
use claude_agent_sdk_go.Text.{has_suffix, trim_suffix}
use claude_agent_sdk_go.Text.Parts.{split, join}
use claude_agent_sdk_go.Sessions.Types.{SessionKey}

-- sub[len(sub)-1] = strings.TrimSuffix(sub[len(sub)-1], ".jsonl")
unfoldable pub trim_last : List String → List String
trim_last [] = []
trim_last (s ∷ []) = trim_suffix ".jsonl" s ∷ []
trim_last (s ∷ t ∷ rest) = s ∷ trim_last (t ∷ rest)

-- The tests on the parts of the relative path
unfoldable pub key_of_parts : List String → Option SessionKey
key_of_parts [] = none
key_of_parts (project ∷ []) = none
key_of_parts (project ∷ file ∷ []) =
    if str_eq project ".."
    then none
    else if has_suffix ".jsonl" file
    then some
        (record { project_key = project; session_id = trim_suffix ".jsonl" file; subpath = "" })
    else none
key_of_parts (project ∷ session ∷ one ∷ []) = none
key_of_parts (project ∷ session ∷ one ∷ two ∷ rest) =
    if str_eq project ".."
    then none
    else some (record {
      project_key = project;
      session_id = session;
      subpath = join "/" (trim_last (one ∷ two ∷ rest));
    })

module _ (rel : String → String → Option String) (is_abs : String → Bool) where
  -- sessionKeyForPath
  unfoldable pub session_key_for_path : String → String → Option SessionKey
  session_key_for_path path projects_dir = elim (rel projects_dir path) [
    | none ↦ none
    | some r ↦ if is_abs r then none else key_of_parts (split "/" r)
  ]
