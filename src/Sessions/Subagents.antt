-- ===== src/Sessions/Subagents.antt =====
-- domains/sessions/subagents_from_store.go: the subagents of a session and their conversations. The
-- store is a `Source`: its Load, and its ListSubkeys where it is a SubkeyLister. The walk along
-- parentUuid takes fuel as in Sessions/Chain.
pub mod Listed
pub mod Conversation
use mathlib.Core.List.{reverse}
use Prim.Native.String.{◌++◌ as append}
use claude_agent_sdk_go.Base.{
  ℕ, zero, suc, String, Bool, true, false, not, ◌&&◌, ◌||◌, Option, none, some, List, [], ◌∷◌, ◌++◌,
  map, select, contains, length, str_eq, string_eq, ℤ, ◌⊎◌, inl, inr, if◌then◌else◌,
}
use claude_agent_sdk_go.Base.Assoc
use claude_agent_sdk_go.Json.{Value, null, str, index, as_str, is_str, str_or_empty}
use claude_agent_sdk_go.Base.Once.{gather}
use claude_agent_sdk_go.Text.{is_empty, has_prefix, cut_prefix}
use claude_agent_sdk_go.Text.Parts.{split}
use claude_agent_sdk_go.Sessions.Types.{Entry, SessionKey, SessionMessage}
use claude_agent_sdk_go.Sessions.Paginate.{paginate}
use claude_agent_sdk_go.Sessions.Edits.{is_session_id, main_of}
use claude_agent_sdk_go.Sessions.Chain.{
  Index, uuid_of, parent_uuid, is_transcript_entry, index_entries, to_message,
}

abbrev last_of : String → List String → String
last_of s [] = s
last_of s (t ∷ ts) = last_of t ts

-- sub[strings.LastIndex(sub, "/")+1:]
unfoldable pub last_part : String → String
last_part sub = last_of sub (split "/" sub)

-- The id of a subagent's sub-transcript
unfoldable pub subagent_id : String → Option String
unfolding last_part
subagent_id sub = if has_prefix "subagents/" sub then cut_prefix "agent-" (last_part sub) else none

-- The loop of ListSubagentsFromStore, with the ids found so far
unfoldable pub collect_ids : List String → List String → List String
unfolding gather
collect_ids = gather subagent_id

pub data SubagentError : Type 0 where
  subkeys_unsupported : SubagentError
  store_failed : String → SubagentError

pub record Source : Type 0 where
  pub load : SessionKey → String ⊎ List Entry
  pub list_subkeys : Option (SessionKey → String ⊎ List String)

-- ListSubagentsFromStore
unfoldable pub list_subagents : Source → String → String → SubagentError ⊎ List String
list_subagents store project session =
    if not (is_session_id session) then inr [] else elim store.list_subkeys [
      | none ↦ inl subkeys_unsupported
      | some lister ↦ elim (lister (main_of project session)) [
        | inl e ↦ inl (store_failed e)
        | inr subkeys ↦ inr (collect_ids [] subkeys)
      ]
    ]

-- The first sub-transcript of the agent
unfoldable pub find_subkey : String → List String → Option String
find_subkey agent [] = none
find_subkey agent (sub ∷ subs) =
    let later = find_subkey agent subs in
    if has_prefix "subagents/" sub && str_eq (last_part sub) (append "agent-" agent)
    then some sub
    else later

abbrev pub is_message : Entry → Bool
is_message e = is_str (index "type" e) "user" || is_str (index "type" e) "assistant"

-- The last user or assistant entry
unfoldable pub last_message : List Entry → Option Entry
last_message [] = none
last_message (e ∷ es) = elim (last_message es) [
  | some leaf ↦ some leaf
  | none ↦ if is_message e then some e else none
]

-- The loop of subagentChain, the leaf first
unfoldable pub walk_messages : ℕ → Index → List String → Option Entry → Option (List Entry)
walk_messages zero m seen cur = none
walk_messages (suc fuel) m seen none = some []
walk_messages (suc fuel) m seen (some e) =
    let on = walk_messages fuel m (uuid_of e ∷ seen) (Assoc.get (parent_uuid e) m) in
    if contains seen (uuid_of e)
    then some []
    else elim on [ none ↦ none | some rest ↦ some (if is_message e then e ∷ rest else rest) ]

-- subagentChain
unfoldable pub subagent_chain : List Entry → Option (List Entry)
subagent_chain entries =
    elim (walk_messages (suc (length entries)) (index_entries entries []) []
      (last_message entries)) [ none ↦ none | some walked ↦ some (reverse walked) ]

abbrev is_metadata : Entry → Bool
is_metadata e = is_str (index "type" e) "agent_metadata"

-- The last agent_metadata entry
unfoldable pub metadata : List Entry → Option Entry
metadata [] = none
metadata (e ∷ es) = elim (metadata es) [
  | some meta ↦ some meta
  | none ↦ if is_metadata e then some e else none
]

abbrev str_or_null : Option String → Value
str_or_null none = null
str_or_null (some s) = str s

-- meta[k].(string), nil where it is no string or there is no metadata
abbrev meta_value : String → Option Entry → Value
meta_value k none = null
meta_value k (some meta) = str_or_null (as_str (index k meta))

-- The messages from the entries that Load returned
unfoldable pub subagent_messages : List Entry → ℤ → ℤ → Option (List SessionMessage)
subagent_messages entries limit offset =
    let meta = metadata entries in
    elim (subagent_chain (select (λ e. not (is_metadata e) && is_transcript_entry e) entries)) [
      | none ↦ none
      | some chain ↦ some (
          map
            (λ e. record (to_message e) {
              parent_tool_use_id = meta_value "toolUseId" meta;
              parent_agent_id = meta_value "parentAgentId" meta;
            })
            (paginate chain limit offset))
    ]

-- The subpath of the sub-transcript, none where the store lists none of the agent
unfoldable pub subpath_of : Source → String → String → String → SubagentError ⊎ Option String
subpath_of store project session agent = elim store.list_subkeys [
  | none ↦ inr (some (append "subagents/agent-" agent))
  | some lister ↦ elim (lister (main_of project session)) [
    | inl e ↦ inl (store_failed e)
    | inr subkeys ↦ inr (find_subkey agent subkeys)
  ]
]

abbrev loaded : String ⊎ List Entry → ℤ → ℤ → Option (SubagentError ⊎ List SessionMessage)
loaded (inl e) limit offset = some (inl (store_failed e))
loaded (inr entries) limit offset = elim (subagent_messages entries limit offset) [
  | none ↦ none
  | some messages ↦ some (inr messages)
]

-- GetSubagentMessagesFromStore
unfoldable pub get_subagent_messages :
    Source → String → String → String → ℤ → ℤ → Option (SubagentError ⊎ List SessionMessage)
get_subagent_messages store project session agent limit offset =
    if not (is_session_id session) || is_empty agent
    then some (inr [])
    else elim (subpath_of store project session agent) [
      | inl e ↦ some (inl e)
      | inr found ↦ elim found [
        | none ↦ some (inr [])
        | some subpath ↦
            loaded
              (store.load
                (record { project_key = project; session_id = session; subpath = subpath }))
              limit offset
      ]
    ]
