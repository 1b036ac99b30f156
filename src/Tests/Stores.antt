-- ===== src/Tests/Stores.antt =====
-- A short history of a MemorySessionStore.
use claude_agent_sdk_go.Base.{
  ◌++◌, String, ◌≡◌, Option, none, List, [], ◌∷◌, ℤ, pos, inc64, max_ℤ, arith,
}
use claude_agent_sdk_go.Json.{str, end, field}
use claude_agent_sdk_go.Sessions.Types.{Entry, SessionKey, session_key_eq}
use claude_agent_sdk_go.Sessions.MemoryStore.{
  new_memory_session_store, append, append_batch, load, delete,
}
use claude_agent_sdk_go.Sessions.MemoryStore.Contents.{
  Op, appends, deletes, run, contents_after, load-run-new,
}
use claude_agent_sdk_go.Sessions.MemoryStore.Coherence.{IsCoherent, HasRoom, run-new-IsCoherent}

abbrev parse_time : String → Option ℤ
parse_time s = none

abbrev key : SessionKey
key = record { project_key = "-work"; session_id = "s1"; subpath = "" }

abbrev agent_key : SessionKey
agent_key = record { project_key = "-work"; session_id = "s1"; subpath = "subagents/agent-1" }

abbrev prompt : Entry
prompt = field "type" (str "user") end

abbrev title : Entry
title = field "type" (str "custom-title") (field "customTitle" (str "t") end)

abbrev history : List Op
history =
    appends (pos 5) key (prompt ∷ [])
    ∷ appends (pos 5) agent_key (prompt ∷ [])
    ∷ deletes key
    ∷ appends (pos 9) key (title ∷ [])
    ∷ []

load-run-new_example :
    (load key (run parse_time new_memory_session_store history) ≡ title ∷ [])
    × ((now : ℤ) (es : List Entry)
        → load key (run parse_time new_memory_session_store (history ++ appends now key es ∷ []))
          ≡ load key (run parse_time new_memory_session_store history) ++ es)
unfolding contents_after
load-run-new_example = load-run-new parse_time key history

-- Delete of the main transcript takes the agent's with it.
agent_deleted : load agent_key (run parse_time new_memory_session_store history) ≡ []
unfolding contents_after
agent_deleted = (load-run-new parse_time agent_key history).0

history_room : HasRoom parse_time new_memory_session_store history
unfolding append append_batch delete inc64 max_ℤ
history_room = (omega arith, (omega arith, (omega arith, tt)))

run-new-IsCoherent_example : IsCoherent parse_time (run parse_time new_memory_session_store history)
run-new-IsCoherent_example = run-new-IsCoherent parse_time history history_room
