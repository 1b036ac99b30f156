-- ===== src/Sessions/Listing.antt =====
-- domains/sessions/list_from_store.go: the listings of a SessionStore. The store is a `Reader`: its
-- Load, and the listing methods that it implements. Load runs at most 16 at a time; each call has a
-- result of its own, so the model makes them one after the other. The conversions of
-- FoldSessionSummary and SummaryToSessionInfo are parameters, as there, and `now` is the clock.
pub mod Rows
use Prim.Native.String.{compare as compare_str}
use claude_agent_sdk_go.Base.{
  ℕ, String, Bool, true, false, not, ◌&&◌, ◌||◌, Option, none, some, List, [], ◌∷◌, ◌++◌, map,
  select, contains, is_lt, string_eq, ℤ, pos, ltb_ℤ, eq_ℤ, if◌then◌else◌,
}
use claude_agent_sdk_go.Base.Assoc
use claude_agent_sdk_go.Base.Sort.{sort}
use claude_agent_sdk_go.Json.{Value, null, index}
use claude_agent_sdk_go.Sessions.Types.{
  Entry, SessionKey, SessionSummaryEntry, SessionListEntry, SessionInfo,
}
use claude_agent_sdk_go.Sessions.Summary.{
  fold_session_summary, summary_to_session_info, iso_to_epoch_ms,
}
use claude_agent_sdk_go.Sessions.Paginate.{paginate}

pub data Result (A : Type 0) : Type 0 where
  ok : A → Result A
  err : String → Result A

-- A SessionStore as the listings read it, with its optional interfaces
pub record Reader : Type 0 where
  pub load : SessionKey → Result (List Entry)
  pub list_sessions : Option (String → Result (List SessionListEntry))
  pub list_session_summaries : Option (String → Result (List SessionSummaryEntry))

pub record Slot : Type 0 where
  pub mtime : ℤ
  pub id : String
  pub info : Option SessionInfo

-- SessionInfo{SessionID: id, LastModified: mtime}
abbrev pub empty_row : SessionListEntry → SessionInfo
empty_row e = record {
  session_id = e.session_id;
  summary = "";
  last_modified = e.mtime_ms;
  file_size = pos 0;
  custom_title = "";
  first_prompt = "";
  git_branch = "";
  cwd = "";
  tag = "";
  created_at = pos 0;
}

-- The order of rows: newest first, by id where the times agree
unfoldable pub row_before : ℤ → String → ℤ → String → Bool
row_before m i n j = if eq_ℤ m n then is_lt (compare_str i j) else ltb_ℤ n m

abbrev pub slot_before : Slot → Slot → Bool
slot_before a b = row_before a.mtime a.id b.mtime b.id

abbrev pub info_before : SessionInfo → SessionInfo → Bool
info_before a b = row_before a.last_modified a.session_id b.last_modified b.session_id

-- `known`: the listed mtime of each session, the last that is listed
unfoldable pub known_mtimes : List SessionListEntry → List (String × ℤ) → List (String × ℤ)
known_mtimes [] known = known
known_mtimes (e ∷ es) known = known_mtimes es (Assoc.put e.session_id e.mtime_ms known)

-- A summary is fresh where nothing is listed, or its session is listed with no later mtime.
unfoldable pub is_fresh : Option (List (String × ℤ)) → SessionSummaryEntry → Bool
is_fresh none s = true
is_fresh (some known) s = elim (Assoc.get s.session_id known) [
  | none ↦ false
  | some m ↦ not (ltb_ℤ s.mtime_ms m)
]

abbrev gap : SessionListEntry → Slot
gap e = record { mtime = e.mtime_ms; id = e.session_id; info = none }

-- The slots of the page that wait for a Load
unfoldable pub fill : List Slot → List SessionListEntry
fill [] = []
fill (s ∷ slots) =
    let rest = fill slots in
    elim s.info [ none ↦ record { session_id = s.id; mtime_ms = s.mtime } ∷ rest | some _ ↦ rest ]

-- The rows of the page
unfoldable pub rows : List (String × SessionInfo) → List Slot → List SessionInfo
rows filled [] = []
rows filled (s ∷ slots) =
    let rest = rows filled slots in
    elim s.info [
      | some info ↦ info ∷ rest
      | none ↦ elim (Assoc.get s.id filled) [ none ↦ rest | some info ↦ info ∷ rest ]
    ]

unfoldable pub last_or : Entry → List Entry → Entry
last_or e [] = e
last_or e (f ∷ es) = last_or f es

module _ (parse_time : String → Option ℤ) (truncate : ℕ → ℤ) where
  -- The slots of the fresh summaries that have something to show
  unfoldable pub summary_slots :
      String → Option (List (String × ℤ)) → List SessionSummaryEntry → List Slot
  summary_slots path known [] = []
  summary_slots path known (s ∷ ss) =
      let rest = summary_slots path known ss in
      if is_fresh known s
      then elim (summary_to_session_info truncate s path) [
        | none ↦ rest
        | some info ↦ record { mtime = s.mtime_ms; id = s.session_id; info = some info } ∷ rest
      ]
      else rest

  -- The row of one listed session, from its entries
  unfoldable pub derive_row :
      (SessionKey → Result (List Entry)) → String → String → SessionListEntry → Option SessionInfo
  derive_row load project path e =
      let key : SessionKey = record {
        project_key = project;
        session_id = e.session_id;
        subpath = "";
      } in
      elim (load key) [
        | err x ↦ some (empty_row e)
        | ok entries ↦ elim entries [
          | [] ↦ none
          | x ∷ xs ↦
              summary_to_session_info truncate
                (record (fold_session_summary parse_time none key (x ∷ xs)) {
                  mtime_ms = e.mtime_ms;
                })
                path
        ]
      ]

  -- deriveViaLoad
  unfoldable pub derive_via_load :
      (SessionKey → Result (List Entry))
      → String
      → String
      → List SessionListEntry
      → List (String × SessionInfo)
      → List (String × SessionInfo)
  derive_via_load load project path [] out = out
  derive_via_load load project path (e ∷ es) out = elim (derive_row load project path e) [
    | none ↦ derive_via_load load project path es out
    | some info ↦ derive_via_load load project path es (Assoc.put e.session_id info out)
  ]

  -- ListSessionsFromStore for a store with summaries; `listing` is none for a store that is no
  -- SessionLister
  unfoldable pub list_by_summaries :
      Reader
      → String
      → String
      → ℤ
      → ℤ
      → List SessionSummaryEntry
      → Option (List SessionListEntry)
      → List SessionInfo
  list_by_summaries store project path limit offset summaries listing =
      let known : Option (List (String × ℤ)) = elim listing [
        | none ↦ none
        | some es ↦ some (known_mtimes es [])
      ] in
      let listed : List SessionListEntry = elim listing [ none ↦ [] | some es ↦ es ] in
      let fresh = map (λ s. s.session_id) (select (is_fresh known) summaries) in
      let gaps = map gap (select (λ e. not (contains fresh e.session_id)) listed) in
      let page =
        paginate (sort slot_before (summary_slots path known summaries ++ gaps)) limit offset in
      rows (derive_via_load store.load project path (fill page) []) page

  -- ListSessionsFromStore for a store without summaries
  unfoldable pub list_by_load :
      Reader → String → String → ℤ → ℤ → List SessionListEntry → List SessionInfo
  list_by_load store project path limit offset listing =
      paginate
        (sort info_before (map (λ p. p.1) (derive_via_load store.load project path listing [])))
        limit offset

  -- ListSessionsFromStore
  unfoldable pub list_sessions_from_store :
      Reader → String → String → ℤ → ℤ → Result (List SessionInfo)
  list_sessions_from_store store project path limit offset = elim store.list_session_summaries [
    | none ↦ elim store.list_sessions [
      | none ↦ err "sessions: store implements neither SessionSummaryLister nor SessionLister"
      | some lister ↦ elim (lister project) [
        | err x ↦ err x
        | ok listing ↦ ok (list_by_load store project path limit offset listing)
      ]
    ]
    | some summary_lister ↦ elim (summary_lister project) [
      | err x ↦ err x
      | ok summaries ↦ elim store.list_sessions [
        | none ↦ ok (list_by_summaries store project path limit offset summaries none)
        | some lister ↦ elim (lister project) [
          | err x ↦ err x
          | ok listing ↦
              ok (list_by_summaries store project path limit offset summaries (some listing))
        ]
      ]
    ]
  ]

  -- GetSessionInfoFromStore
  unfoldable pub get_session_info_from_store :
      Reader → ℤ → String → String → String → Result (Option SessionInfo)
  get_session_info_from_store store now project path session =
      let key : SessionKey = record { project_key = project; session_id = session; subpath = "" } in
      elim (store.load key) [
        | err x ↦ err x
        | ok entries ↦ elim entries [
          | [] ↦ ok none
          | e ∷ es ↦
              let mtime : ℤ = elim (iso_to_epoch_ms parse_time (index "timestamp" (last_or e es))) [
                | none ↦ now
                | some ms ↦ ms
              ] in
              ok (
                summary_to_session_info truncate
                  (record (fold_session_summary parse_time none key (e ∷ es)) { mtime_ms = mtime })
                  path)
        ]
      ]
