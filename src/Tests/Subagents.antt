-- ===== src/Tests/Subagents.antt =====
-- The subagents of a session with two of them, and a conversation with a cycle of parents.
use mathlib.Core.List.{reverse}
use claude_agent_sdk_go.Base.{String, ◌≡◌, refl, some, List, [], ◌∷◌, string_eq}
use claude_agent_sdk_go.Json.{str, end, field}
use claude_agent_sdk_go.Text.{has_prefix}
use claude_agent_sdk_go.Text.Parts.{split}
use claude_agent_sdk_go.Sessions.Types.{Entry}
use claude_agent_sdk_go.Sessions.Subagents.{collect_ids, subagent_id, subagent_chain}
use claude_agent_sdk_go.Base.Once.{gather}
use claude_agent_sdk_go.Sessions.Subagents.Conversation.{AllMessages, subagent_chain_total}

abbrev subkeys : List String
subkeys =
    "subagents/agent-1" ∷ "subagents/workflows/w/agent-2" ∷ "other/agent-3" ∷ "subagents/agent-1"
    ∷ []

two_agents : collect_ids [] subkeys ≡ "1" ∷ "2" ∷ []
unfolding collect_ids gather subagent_id has_prefix split
two_agents = refl

abbrev line : String → String → Entry
line uuid parent =
    field "type" (str "user") (field "uuid" (str uuid) (field "parentUuid" (str parent) end))

abbrev cyclic : List Entry
cyclic = line "a" "b" ∷ line "b" "a" ∷ []

subagent_chain_total_example :
    (walked : List Entry) × (subagent_chain cyclic ≡ some (reverse walked)) × AllMessages walked
subagent_chain_total_example = subagent_chain_total cyclic
