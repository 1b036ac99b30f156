-- ===== src/Sessions/Import.antt =====
-- domains/sessions/import_to_store.go: a transcript of the CLI's directory copied into a store. The
-- directory of the projects is a tree whose directories list their entries in the order of ReadDir, by
-- name; a path is the place in the tree that it leads to. The store is a parameter, whose Append
-- gives its error, if any.
pub mod Batches
use Prim.Native.String.{◌++◌ as append_text, [] as no_text, ◌∷◌ as char}
use Prim.Native.Char.{code}
use claude_agent_sdk_go.Base.{
  ℤ, pos, pos_part, ltb_ℤ, ℕ, suc, ◌+◌, ◌^◌, String, Bool, not, ◌||◌, Option, none, some, List, [],
  ◌∷◌, ◌++◌, length, ltb, leb, str_eq, nat_eq, if◌then◌else◌,
}
use claude_agent_sdk_go.Text.{is_empty, trim_right, trim_suffix, has_suffix}
use claude_agent_sdk_go.Text.Parts.{split}
use claude_agent_sdk_go.Json.{Value, Fields, obj, str, put}
use claude_agent_sdk_go.Sessions.Types.{Entry, SessionKey}
use claude_agent_sdk_go.Sessions.Edits.{is_session_id}

-- importMaxEntries, importMaxBytes
abbrev pub import_max_entries : ℕ
import_max_entries = 500

abbrev pub import_max_bytes : ℕ
import_max_bytes = 2 ^ 20

-- len of a text in UTF-8
unfoldable pub byte_length : String → ℕ
byte_length no_text = 0
byte_length (char c s) =
    let n = code c in
    (if ltb n 0x80 then 1 else if ltb n 0x800 then 2 else if ltb n 0x10000 then 3 else 4)
    + byte_length s

abbrev pub is_line_end : ℕ → Bool
is_line_end c = nat_eq c 0x0a || nat_eq c 0x0d

pub data ImportError (E : Type 0) : Type 0 where
  invalid_session_id : ImportError E
  no_projects_directory : ImportError E
  session_file_not_found : ImportError E
  not_a_json_object : String → ImportError E
  unreadable : String → ImportError E
  append_failed : E → ImportError E

-- A file with its text, or a directory with its entries
mutual
  pub data Node : Type 0 where
    file : String → Node
    dir : Nodes → Node

  pub data Nodes : Type 0 where
    no_nodes : Nodes
    node : String → Node → Nodes → Nodes

-- The entry of this name
unfoldable pub find_node : String → Nodes → Option Node
find_node name no_nodes = none
find_node name (node n x nodes) = if str_eq n name then some x else find_node name nodes

-- The text of a regular file that is not empty
abbrev pub nonempty_text : Option Node → Option String
nonempty_text (some (file t)) = if is_empty t then none else some t
nonempty_text _ = none

-- The first project that has the transcript: the project and the text
unfoldable pub first_project : String → Nodes → Option (String × String × Nodes)
first_project name no_nodes = none
first_project name (node project (file t) nodes) = first_project name nodes
first_project name (node project (dir files) nodes) = elim (nonempty_text (find_node name files)) [
  | some t ↦ some (project, t, files)
  | none ↦ first_project name nodes
]

-- In the one project of Options.Directory
abbrev pub in_project : String → String → Option Node → Option (String × String × Nodes)
in_project name project (some (dir files)) = elim (nonempty_text (find_node name files)) [
  | some t ↦ some (project, t, files)
  | none ↦ none
]
in_project name project _ = none

-- A file of a session's subagents: its subpath, its text and the entry that its metadata stands in
pub record SubFile : Type 0 where
  pub subpath : String
  pub text : String
  pub metadata : Option Node

-- collectJSONLFiles: below the directory of the prefix, whose entries are `all`
unfoldable mutual
  pub collect_node : String → Nodes → String → Node → List SubFile
  collect_node prefix all name (dir nodes) =
      collect_jsonl_files (append_text prefix (append_text name "/")) nodes nodes
  collect_node prefix all name (file t) =
      if has_suffix ".jsonl" name
      then record {
        subpath = append_text prefix (trim_suffix ".jsonl" name);
        text = t;
        metadata = find_node (append_text (trim_suffix ".jsonl" name) ".meta.json") all;
      }
        ∷ []
      else []

  pub collect_jsonl_files : String → Nodes → Nodes → List SubFile
  collect_jsonl_files prefix all no_nodes = []
  collect_jsonl_files prefix all (node name x nodes) =
      collect_node prefix all name x ++ collect_jsonl_files prefix all nodes

-- The files below "subagents" of the session's own directory
abbrev pub subagent_files : Option Node → List SubFile
subagent_files (some (dir nodes)) = elim (find_node "subagents" nodes) [
  | some (dir subs) ↦ collect_jsonl_files "subagents/" subs subs
  | _ ↦ []
]
subagent_files _ = []

-- The projects directory: that of the options, or of CLAUDE_CONFIG_DIR, or of the home directory
abbrev pub projects_directory :
    (String → String → String) → String → String → Option String → Option String
projects_directory join given config home =
    if not (is_empty given)
    then some given
    else if not (is_empty config)
    then some (join config "projects")
    else elim home [ none ↦ none | some h ↦ some (join (join h ".claude") "projects") ]

pub record ImportOptions : Type 0 where
  pub projects_dir : String
  pub directory : String
  pub skip_subagents : Bool
  pub batch_size : ℤ

-- What a call leaves: the store, and its error, if any
abbrev pub After : Type 0 → Type 0 → Type 0
After S E = S × Option (ImportError E)

abbrev pub as_entry : Option Value → Option Entry
as_entry (some (obj m)) = some m
as_entry _ = none

module _ {S E : Type 0} (append : SessionKey → List Entry → S → S × Option E)
    (parse_json : String → Option Value) where
  -- The error of Append, or else what follows
  abbrev pub appended : S × Option E → (S → After S E) → After S E
  appended (s, none) next = next s
  appended (s, some e) next = (s, some (append_failed e))

  -- flush, and what follows it
  abbrev pub flush : SessionKey → List Entry → S → (S → After S E) → After S E
  flush key [] s next = next s
  flush key (e ∷ batch) s next = appended (append key (e ∷ batch) s) next

  -- The loop of appendJSONLInBatches over the lines, with the batch and its bytes
  unfoldable pub append_lines :
      String → SessionKey → ℕ → List String → List Entry → ℕ → S → After S E
  append_lines path key size [] batch nbytes s = flush key batch s (λ t. (t, none))
  append_lines path key size (raw ∷ lines) batch nbytes s =
      let line = trim_right is_line_end raw in
      let skip = append_lines path key size lines batch nbytes s in
      if is_empty line then skip else elim (as_entry (parse_json line)) [
        | none ↦ (s, some (not_a_json_object path))
        | some e ↦
            let more = batch ++ e ∷ [] in
            let bytes = nbytes + byte_length line in
            if leb size (length more) || leb import_max_bytes bytes
            then flush key more s (λ t. append_lines path key size lines [] 0 t)
            else append_lines path key size lines more bytes s
      ]

  abbrev pub batch_of : ImportOptions → ℕ
  batch_of opts =
      if ltb_ℤ (pos 0) opts.batch_size then pos_part opts.batch_size else import_max_entries

  -- appendJSONLInBatches on the text of a file
  unfoldable pub append_jsonl_in_batches : String → String → SessionKey → ℕ → S → After S E
  append_jsonl_in_batches path text key size s = append_lines path key size (split "\n" text) [] 0 s

  abbrev pub and_then : After S E → (S → After S E) → After S E
  and_then (s, none) next = next s
  and_then (s, some e) next = (s, some e)

  -- The metadata of a subagent, as an entry of its own, and what follows
  unfoldable pub append_metadata : SessionKey → SubFile → S → (S → After S E) → After S E
  append_metadata key sub s next = elim sub.metadata [
    | none ↦ next s
    | some (dir nodes) ↦ (s, some (unreadable sub.subpath))
    | some (file raw) ↦ elim (as_entry (parse_json raw)) [
      | none ↦ next s
      | some meta ↦ appended (append key (put "type" (str "agent_metadata") meta ∷ []) s) next
    ]
  ]

  -- The loop over the subagents
  unfoldable pub import_subagents : SessionKey → ℕ → List SubFile → S → After S E
  import_subagents main size [] s = (s, none)
  import_subagents main size (sub ∷ subs) s =
      let key = record main { subpath = sub.subpath } in
      and_then (append_jsonl_in_batches sub.subpath sub.text key size s)
        (λ t. append_metadata key sub t (λ u. import_subagents main size subs u))

  -- ImportSessionToStore. `disk` is the tree below a projects directory and `project_of` the name of the
  -- project of a directory.
  module _ (disk : String → Nodes) (project_of : String → String) where
    -- findSessionTranscript
    unfoldable pub find_session_transcript :
        String → String → String → Option (String × String × Nodes)
    find_session_transcript projects id directory =
        let name = append_text id ".jsonl" in
        if not (is_empty directory)
        then in_project name (project_of directory)
            (find_node (project_of directory) (disk projects))
        else first_project name (disk projects)

    unfoldable pub import_found : String → ImportOptions → String × String × Nodes → S → After S E
    import_found id opts (project, text, files) s =
        let key : SessionKey = record { project_key = project; session_id = id; subpath = "" } in
        and_then (append_jsonl_in_batches id text key (batch_of opts) s) (λ t.
          if opts.skip_subagents
          then (t, none)
          else import_subagents key (batch_of opts) (subagent_files (find_node id files)) t)

    unfoldable pub import_session_to_store : Option String → String → ImportOptions → S → After S E
    import_session_to_store projects id opts s =
        if not (is_session_id id) then (s, some invalid_session_id) else elim projects [
          | none ↦ (s, some no_projects_directory)
          | some p ↦ elim (find_session_transcript p id opts.directory) [
            | none ↦ (s, some session_file_not_found)
            | some found ↦ import_found id opts found s
          ]
        ]
