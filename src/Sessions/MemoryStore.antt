-- ===== src/Sessions/MemoryStore.antt =====
-- domains/sessions/memory_store.go: MemorySessionStore. Each method runs under the store's mutex, so
-- it is a function from the state to the state and its result. The time that Append reads is its
-- argument `now`. A map's iteration order, which Go leaves open, is the order of first insertion.
pub mod Contents
pub mod Coherence
use Prim.Native.String.{compare as compare_str}
use claude_agent_sdk_go.Base.{
  String, Bool, true, false, not, ◌&&◌, Option, none, some, List, [], ◌∷◌, ◌++◌, map, select, ℤ,
  pos, inc64, max_ℤ, str_eq, is_lt, ◌==◌, pair_eq, if◌then◌else◌,
}
use claude_agent_sdk_go.Base.Assoc.{get, put, del}
use claude_agent_sdk_go.Base.Sort.{sort}
use claude_agent_sdk_go.Sessions.Types.{
  Entry, SessionKey, session_key_eq, SessionSummaryEntry, SessionListEntry,
}
use claude_agent_sdk_go.Sessions.Summary.{fold_session_summary}

pub record MemoryTranscript : Type 0 where
  pub entries : List Entry
  pub mtime_ms : ℤ

pub record MemorySessionStore : Type 0 where
  pub items : List (SessionKey × MemoryTranscript)
  pub summaries : List ((String × String) × SessionSummaryEntry)
  pub last_mtime : ℤ

-- NewMemorySessionStore
abbrev pub new_memory_session_store : MemorySessionStore
new_memory_session_store = record { items = []; summaries = []; last_mtime = pos 0 }

abbrev pub entries_of : Option MemoryTranscript → List Entry
entries_of none = []
entries_of (some t) = t.entries

abbrev pub summary_key : SessionKey → String × String
summary_key key = (key.project_key, key.session_id)

module _ (parse_time : String → Option ℤ) where
  -- The sidecar's new entry for a main transcript
  unfoldable pub fold_stamped :
      Option SessionSummaryEntry → SessionKey → List Entry → ℤ → SessionSummaryEntry
  fold_stamped prev key entries mtime = record (fold_session_summary parse_time prev key entries) {
    mtime_ms = mtime;
  }

  -- Append of a batch that is not empty
  unfoldable pub append_batch :
      ℤ → SessionKey → List Entry → MemorySessionStore → MemorySessionStore
  append_batch now key entries m =
      let mtime = max_ℤ now (inc64 m.last_mtime) in
      record {
        items =
            put key (record { entries = entries_of (get key m.items) ++ entries; mtime_ms = mtime })
              m.items;
        summaries =
            if str_eq key.subpath ""
            then put (summary_key key)
                (fold_stamped (get (summary_key key) m.summaries) key entries mtime) m.summaries
            else m.summaries;
        last_mtime = mtime;
      }

  -- Append
  unfoldable pub append : ℤ → SessionKey → List Entry → MemorySessionStore → MemorySessionStore
  append now key [] m = m
  append now key (e ∷ es) m = append_batch now key (e ∷ es) m

-- Load; a nil slice is the empty list
unfoldable pub load : SessionKey → MemorySessionStore → List Entry
load key m = entries_of (get key m.items)

abbrev pub is_main : String → SessionKey × MemoryTranscript → Bool
is_main project_key (k, t) = str_eq k.project_key project_key && str_eq k.subpath ""

-- ListSessions
unfoldable pub list_sessions : String → MemorySessionStore → List SessionListEntry
list_sessions project_key m =
    map (λ p. record { session_id = p.0.session_id; mtime_ms = p.1.mtime_ms })
      (select (is_main project_key) m.items)

-- The transcripts that Delete removes
abbrev pub covers : SessionKey → SessionKey → Bool
covers key k =
    if str_eq key.subpath ""
    then str_eq k.project_key key.project_key && str_eq k.session_id key.session_id
    else k == key

-- Delete
unfoldable pub delete : SessionKey → MemorySessionStore → MemorySessionStore
delete key m = record {
  items = del (covers key) m.items;
  summaries =
      if str_eq key.subpath "" then del (λ k. k == summary_key key) m.summaries else m.summaries;
  last_mtime = m.last_mtime;
}

abbrev is_sub : SessionKey → SessionKey × MemoryTranscript → Bool
is_sub key (k, t) =
    str_eq k.project_key key.project_key
    && str_eq k.session_id key.session_id
    && not (str_eq k.subpath "")

abbrev pub str_before : String → String → Bool
str_before a b = is_lt (compare_str a b)

-- ListSubkeys
unfoldable pub list_subkeys : SessionKey → MemorySessionStore → List String
list_subkeys key m = sort str_before (map (λ p. p.0.subpath) (select (is_sub key) m.items))

-- ListSessionSummaries
unfoldable pub list_session_summaries : String → MemorySessionStore → List SessionSummaryEntry
list_session_summaries project_key m =
    map (λ p. p.1) (select (λ p. str_eq p.0.0 project_key) m.summaries)
