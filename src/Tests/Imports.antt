-- ===== src/Tests/Imports.antt =====
-- An import of a transcript of three entries in batches of two.
use claude_agent_sdk_go.Base.{
  pos, String, ◌≡◌, refl, false, ◌||◌, Option, none, some, List, [], ◌∷◌, ◌++◌, str_eq,
  if◌then◌else◌, arith,
}
use claude_agent_sdk_go.Text.{trim_right}
use claude_agent_sdk_go.Json.{Value, str, obj, end, field}
use claude_agent_sdk_go.Sessions.Types.{Entry, SessionKey}
use claude_agent_sdk_go.Sessions.Import.{
  append_lines, byte_length, Nodes, no_nodes, node, file, dir, find_session_transcript, find_node,
  first_project, ImportOptions,
}
use claude_agent_sdk_go.Sessions.Import.Batches.{
  Holds, done, blank, entry, IsBatched, append_lines-IsBatched,
}

-- A store that keeps the batches
abbrev Log : Type 0
Log = List (String × List Entry)

abbrev append : SessionKey → List Entry → Log → Log × Option String
append key batch log = (log ++ (key.subpath, batch) ∷ [], none)

abbrev entry_of : String → Entry
entry_of s = field "uuid" (str s) end

abbrev parse_json : String → Option Value
parse_json s =
    if str_eq s "a" || str_eq s "b" || str_eq s "c" || str_eq s "m"
    then some (obj (entry_of s))
    else none

abbrev key : SessionKey
key = record { project_key = "p"; session_id = "s"; subpath = "" }

abbrev lines : List String
lines = "a\r" ∷ "" ∷ "b" ∷ "c" ∷ "" ∷ []

abbrev entries : List Entry
entries = entry_of "a" ∷ entry_of "b" ∷ entry_of "c" ∷ []

lines_hold : Holds parse_json lines entries
unfolding trim_right
lines_hold = entry refl refl (blank refl (entry refl refl (entry refl refl (blank refl done))))

two_batches :
    append_lines append parse_json "s.jsonl" key 2 lines [] 0 []
    ≡ (("", entry_of "a" ∷ entry_of "b" ∷ []) ∷ ("", entry_of "c" ∷ []) ∷ [], none)
unfolding append_lines trim_right byte_length
two_batches = refl

append_lines-IsBatched_example :
    ((append_lines append parse_json "s.jsonl" key 2 lines [] 0 []).1 ≡ none)
    × IsBatched append key 2 entries []
        (append_lines append parse_json "s.jsonl" key 2 lines [] 0 []).0
append_lines-IsBatched_example =
    append_lines-IsBatched append parse_json (λ k b s. refl) "s.jsonl" key 2 lines_hold [] 0 []
      (omega arith)

-- projects/p/s.jsonl and projects/p/s/subagents/agent-1.jsonl with its metadata
abbrev disk : String → Nodes
disk p =
    node "p"
      (dir (
        node "s"
          (dir (
            node "subagents"
              (dir
                (node "agent-1.jsonl" (file "c\n") (node "agent-1.meta.json" (file "m") no_nodes)))
              no_nodes))
          (node "s.jsonl" (file "a\nb\n") no_nodes)))
      no_nodes

abbrev options : ImportOptions
options = record {
  projects_dir = "projects";
  directory = "";
  skip_subagents = false;
  batch_size = pos 0;
}

found_in_p :
    find_session_transcript append parse_json disk (λ d. d) "projects" "s" ""
    ≡ some (
      "p",
      "a\nb\n",
      node "s"
          (dir (
            node "subagents"
              (dir
                (node "agent-1.jsonl" (file "c\n") (node "agent-1.meta.json" (file "m") no_nodes)))
              no_nodes))
          (node "s.jsonl" (file "a\nb\n") no_nodes),
    )
unfolding find_session_transcript first_project find_node
found_in_p = refl
