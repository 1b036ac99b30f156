-- ===== src/Tests/Chains.antt =====
-- Transcripts with a branch, with a cycle of parents, and pages of a conversation.
use claude_agent_sdk_go.Base.{ℕ, String, ◌≡◌, refl, some, List, [], ◌∷◌}
use claude_agent_sdk_go.Base.Assoc
use claude_agent_sdk_go.Json.{str, end, field, index, get}
use claude_agent_sdk_go.Sessions.Types.{Entry}
use claude_agent_sdk_go.Sessions.Chain.{
  conversation_chain, best, chain_of, find_leaves, is_transcript_entry, parents, find_leaf, walk,
  choose_leaf, main_chain_entry, parent_of, index_positions, index_entries,
}
use claude_agent_sdk_go.Sessions.Chain.Linked.{IsBranch, conversation_chain_total}

abbrev user : String → String → Entry
user uuid parent =
    field "type" (str "user") (field "uuid" (str uuid) (field "parentUuid" (str parent) end))

abbrev branching : List Entry
branching = user "a" "" ∷ user "b" "a" ∷ user "c" "a" ∷ []

-- The branch that was left is not returned.
newest_branch : conversation_chain branching ≡ some (user "a" "" ∷ user "c" "a" ∷ [])
unfolding conversation_chain chain_of find_leaves is_transcript_entry index get parents find_leaf
    walk choose_leaf main_chain_entry parent_of best Assoc.get index_positions Assoc.put
    index_entries
newest_branch = refl

abbrev cyclic : List Entry
cyclic = user "a" "b" ∷ user "b" "a" ∷ user "c" "b" ∷ []

conversation_chain_total_example :
    (chain : List Entry) × (conversation_chain cyclic ≡ some chain) × IsBranch cyclic chain
conversation_chain_total_example = conversation_chain_total cyclic

abbrev positions : List (String × ℕ)
positions = ("a", 0) ∷ ("b", 1) ∷ ("c", 2) ∷ []

abbrev numbers : List ℕ
numbers = 1 ∷ 2 ∷ 3 ∷ 4 ∷ 5 ∷ []
