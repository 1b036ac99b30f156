-- ===== src/Tests/Listings.antt =====
-- The rows of a listing, from a store with one session.
use claude_agent_sdk_go.Base.{
  ℕ, String, ◌≡◌, refl, true, Option, none, some, [], ◌∷◌, ℤ, pos, arith, pair_eq, inc64, max_ℤ,
}
use claude_agent_sdk_go.Base.Assoc.{get, put}
use claude_agent_sdk_go.Json.{str, end, field}
use claude_agent_sdk_go.Sessions.Types.{Entry, SessionSummaryEntry, session_key_eq}
use claude_agent_sdk_go.Sessions.Summary.{summary_to_session_info}
use claude_agent_sdk_go.Sessions.MemoryStore.{
  MemorySessionStore, new_memory_session_store, append, append_batch, load, list_sessions,
}
use claude_agent_sdk_go.Sessions.MemoryStore.Contents.{appends, run}
use claude_agent_sdk_go.Sessions.MemoryStore.Coherence.{main_key, run-new-IsCoherent}
use claude_agent_sdk_go.Sessions.Listing.{ok, known_mtimes, is_fresh, derive_row}
use claude_agent_sdk_go.Sessions.Listing.Rows.{sidecar-derive_row}

abbrev parse_time : String → Option ℤ
parse_time s = none

abbrev truncate : ℕ → ℤ
truncate x = pos 0

abbrev title : Entry
title = field "type" (str "custom-title") (field "customTitle" (str "t") end)

abbrev store : MemorySessionStore
store =
    run parse_time new_memory_session_store (appends (pos 5) (main_key "p" "s") (title ∷ []) ∷ [])

sidecar-derive_row_example :
    (e : SessionSummaryEntry) × (get ("p", "s") store.summaries ≡ some e)
    × (is_fresh (some (known_mtimes (list_sessions "p" store) [])) e ≡ true)
    × (derive_row parse_time truncate
          (λ k. ok (load k store))
          "p"
          "/p"
          (record { session_id = "s"; mtime_ms = pos 5 })
        ≡ summary_to_session_info truncate e "/p")
unfolding append append_batch get put inc64 max_ℤ run
sidecar-derive_row_example =
    sidecar-derive_row parse_time truncate store "p" "s" "/p" title [] (pos 5)
      (run-new-IsCoherent parse_time (appends (pos 5) (main_key "p" "s") (title ∷ []) ∷ [])
        (omega arith, tt))
      refl
