-- ===== src/Sessions/Subagents/Listed.antt =====
-- The ids that ListSubagentsFromStore finds.
use claude_agent_sdk_go.Base.{String, ◌≡◌, Bool, List, [], any, contains, string_eq}
use claude_agent_sdk_go.Base.Once.{Once, gives, gather-Once}
use claude_agent_sdk_go.Sessions.Subagents.{subagent_id, collect_ids}

-- The sub-transcript is one of the agent.
abbrev pub is_of : String → String → Bool
is_of = gives subagent_id

-- ListSubagentsFromStore gives each id once, and exactly the ids that some sub-transcript of the store
-- is of.
pub collect_ids-Once :
    (subs : List String)
    → Once (collect_ids [] subs)
      × ((id : String) → contains (collect_ids [] subs) id ≡ any (is_of id) subs)
unfolding collect_ids
collect_ids-Once subs = gather-Once subagent_id subs
