-- ===== src/Sessions/Chain.antt =====
-- domains/sessions/messages_from_store.go: the conversation chain of a transcript. A walk along
-- parentUuid takes fuel, one unit for each entry visited; `none` means that it ran out, which
-- Chain/Walks.antt shows never to happen with the fuel that the functions give.
pub mod Walks
pub mod Linked
use mathlib.Core.List.{reverse}
use claude_agent_sdk_go.Base.{
  ℕ, zero, suc, String, Bool, true, false, not, ◌&&◌, ◌||◌, Option, none, some, List, [], ◌∷◌, map,
  select, contains, length, ltb, ℤ, str_eq, string_eq, if◌then◌else◌,
}
use claude_agent_sdk_go.Base.Assoc
use claude_agent_sdk_go.Json.{Value, Fields, null, index, as_str, str_or_empty, is_true, is_str}
use claude_agent_sdk_go.Text.{is_empty}
use claude_agent_sdk_go.Sessions.Types.{Entry, SessionMessage}
use claude_agent_sdk_go.Sessions.Paginate.{paginate}

-- transcriptEntryTypes
unfoldable pub is_transcript_type : String → Bool
is_transcript_type t =
    str_eq t "user"
    || str_eq t "assistant"
    || str_eq t "progress"
    || str_eq t "system"
    || str_eq t "attachment"

-- typ, _ := e["type"].(string)
abbrev pub type_of : Entry → String
type_of e = str_or_empty (index "type" e)

-- e["uuid"].(string), of an entry that has one
abbrev pub uuid_of : Entry → String
uuid_of e = str_or_empty (index "uuid" e)

abbrev pub parent_uuid : Entry → String
parent_uuid e = str_or_empty (index "parentUuid" e)

abbrev is_some {ℓ} : {A : Type ℓ} → Option A → Bool
is_some none = false
is_some (some a) = true

-- An entry of the transcript: it has a uuid and one of the transcript's types.
unfoldable pub is_transcript_entry : Entry → Bool
unfolding is_transcript_type
is_transcript_entry e = is_some (as_str (index "uuid" e)) && is_transcript_type (type_of e)

abbrev pub is_message_type : String → Bool
is_message_type t = str_eq t "user" || str_eq t "assistant"

abbrev pub Index : Type 0
Index = List (String × Entry)

-- byUUID: the last entry with a uuid wins.
unfoldable pub index_entries : List Entry → Index → Index
index_entries [] m = m
index_entries (e ∷ es) m = index_entries es (Assoc.put (uuid_of e) e m)

-- index: the last position of each uuid
unfoldable pub index_positions : ℕ → List Entry → List (String × ℕ) → List (String × ℕ)
index_positions i [] m = m
index_positions i (e ∷ es) m = index_positions (suc i) es (Assoc.put (uuid_of e) i m)

-- parentOf
unfoldable pub parent_of : Index → Entry → Option Entry
parent_of m e = if is_empty (parent_uuid e) then none else Assoc.get (parent_uuid e) m

-- The uuids that some entry names as its parent
unfoldable pub parents : List Entry → List String
parents [] = []
parents (e ∷ es) =
    let rest = parents es in if is_empty (parent_uuid e) then rest else parent_uuid e ∷ rest

-- The loop from a terminal to the first user or assistant entry, with the uuids seen
unfoldable pub find_leaf : ℕ → Index → List String → Option Entry → Option (Option Entry)
find_leaf zero m seen cur = none
find_leaf (suc fuel) m seen none = some none
find_leaf (suc fuel) m seen (some e) =
    let on = find_leaf fuel m (uuid_of e ∷ seen) (parent_of m e) in
    if contains seen (uuid_of e)
    then some none
    else if is_message_type (type_of e)
    then some (some e)
    else on

abbrev add_leaf : Option Entry → List Entry → List Entry
add_leaf none es = es
add_leaf (some e) es = e ∷ es

-- The leaves of the terminals
unfoldable pub find_leaves : ℕ → Index → List String → List Entry → Option (List Entry)
find_leaves fuel m named [] = some []
find_leaves fuel m named (e ∷ es) =
    let rest = find_leaves fuel m named es in
    if contains named (uuid_of e) then rest else elim (find_leaf fuel m [] (some e)) [
      | none ↦ none
      | some leaf ↦ elim rest [ none ↦ none | some leaves ↦ some (add_leaf leaf leaves) ]
    ]

-- index[id], 0 for a missing key
abbrev pub position : List (String × ℕ) → Entry → ℕ
position at e = elim (Assoc.get (uuid_of e) at) [ none ↦ 0 | some i ↦ i ]

-- best, from the first candidate on
unfoldable pub best : List (String × ℕ) → Entry → List Entry → Entry
best at b [] = b
best at b (e ∷ es) = best at (if ltb (position at b) (position at e) then e else b) es

-- visibleMessage
unfoldable pub visible_message : Entry → Bool
visible_message e =
    is_message_type (type_of e)
    && not (is_true (index "isMeta" e) || is_true (index "isSidechain" e))
    && is_empty (str_or_empty (index "teamName" e))

-- mainChainEntry
unfoldable pub main_chain_entry : Entry → Bool
main_chain_entry e =
    not (is_true (index "isSidechain" e))
    && is_empty (str_or_empty (index "teamName" e))
    && not (is_true (index "isMeta" e))

-- The leaf to walk back from: the newest on the main chain, or the newest of all
unfoldable pub choose_leaf : List (String × ℕ) → List Entry → List Entry → Option Entry
choose_leaf at leaves (e ∷ es) = some (best at e es)
choose_leaf at [] [] = none
choose_leaf at (e ∷ es) [] = some (best at e es)

-- The loop from the leaf to the root, the leaf first
unfoldable pub walk : ℕ → Index → List String → Option Entry → Option (List Entry)
walk zero m seen cur = none
walk (suc fuel) m seen none = some []
walk (suc fuel) m seen (some e) =
    let on = walk fuel m (uuid_of e ∷ seen) (parent_of m e) in
    if contains seen (uuid_of e)
    then some []
    else elim on [ none ↦ none | some rest ↦ some (e ∷ rest) ]

-- conversationChain after its filter
unfoldable pub chain_of : List Entry → Option (List Entry)
chain_of entries =
    let fuel = suc (length entries) in
    let m = index_entries entries [] in
    let at = index_positions 0 entries [] in
    elim (find_leaves fuel m (parents entries) entries) [
      | none ↦ none
      | some leaves ↦
          elim (walk fuel m [] (choose_leaf at leaves (select main_chain_entry leaves))) [
            | none ↦ none
            | some chain ↦ some (reverse chain)
          ]
    ]

-- conversationChain
unfoldable pub conversation_chain : List Entry → Option (List Entry)
conversation_chain all = chain_of (select is_transcript_entry all)

abbrev pub to_message : Entry → SessionMessage
to_message e = record {
  type = type_of e;
  uuid = uuid_of e;
  session_id = str_or_empty (index "sessionId" e);
  message = index "message" e;
  parent_tool_use_id = null;
  parent_agent_id = null;
}

-- GetSessionMessagesFromStore, of the entries that Load returned
unfoldable pub get_session_messages : List Entry → ℤ → ℤ → Option (List SessionMessage)
get_session_messages entries limit offset = elim (conversation_chain entries) [
  | none ↦ none
  | some chain ↦ some (map to_message (paginate (select visible_message chain) limit offset))
]
