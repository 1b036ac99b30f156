-- ===== src/Sessions/MemoryStore/Coherence.antt =====
-- The summary sidecar of a MemorySessionStore agrees with its transcripts, whatever was called.
use claude_agent_sdk_go.Base.{
  String, ◌≡◌, refl, sym, subst, false, Option, none, some, List, [], ◌∷◌, ◌++◌, ℤ, ◌≤ℤ◌, ◌<ℤ◌,
  max_int64, inc64, max_ℤ, lt-inc64, max_ℤ-right, arith, str_eq, eq_iff, ◌==◌, pair_eq, Bool-cases,
  inl, inr,
}
use claude_agent_sdk_go.Base.Assoc.{
  get, put, get-put, get-put_self, get-del, Distinct, put-Distinct, del-Distinct,
}
use claude_agent_sdk_go.Json.{end}
use claude_agent_sdk_go.Sessions.Types.{Entry, SessionKey, session_key_eq, SessionSummaryEntry}
use claude_agent_sdk_go.Sessions.Summary.{fold_entries, fold_session_summary}
use claude_agent_sdk_go.Sessions.Summary.Prompts.{fold_entries-append}
use claude_agent_sdk_go.Sessions.MemoryStore.{
  MemoryTranscript, MemorySessionStore, new_memory_session_store, entries_of, fold_stamped,
  append_batch, append, delete,
}
use claude_agent_sdk_go.Sessions.MemoryStore.Contents.{Op, appends, deletes, run}

abbrev pub main_key : String → String → SessionKey
main_key project_key session_id = record {
  project_key = project_key;
  session_id = session_id;
  subpath = "";
}

-- A new write time is not before any earlier one.
later_stamp : (now last : ℤ) → last <ℤ max_int64 → last <ℤ max_ℤ now (inc64 last)
later_stamp now last room = omega (arith, lt-inc64 last room, max_ℤ-right now (inc64 last))

put_stamped :
    (key k : SessionKey) (t u : MemoryTranscript) (items : List (SessionKey × MemoryTranscript))
    (mtime : ℤ)
    → u.mtime_ms ≡ mtime
    → (last : ℤ) → (get k items ≡ some t → t.mtime_ms ≤ℤ last)
    → last <ℤ mtime
    → get k (put key u items) ≡ some t
    → t.mtime_ms ≤ℤ mtime
put_stamped key k t u items mtime stamp last old later h = ground (arith, get-put key k u items)

module _ (parse_time : String → Option ℤ) where
  -- The summary of a main transcript: its entries folded at once, with its write time
  abbrev pub summary_for : String → Option MemoryTranscript → Option SessionSummaryEntry
  summary_for session_id none = none
  summary_for session_id (some t) = some (record {
    session_id = session_id;
    mtime_ms = t.mtime_ms;
    fields = fold_entries parse_time end t.entries;
  })

  pub record IsCoherent (m : MemorySessionStore) : Type 0 where
    pub sidecar :
        (p sid : String) → get (p, sid) m.summaries ≡ summary_for sid (get (main_key p sid) m.items)
    pub items_distinct : Distinct m.items
    pub summaries_distinct : Distinct m.summaries
    pub stamped :
        (k : SessionKey) (t : MemoryTranscript)
        → get k m.items ≡ some t
        → t.mtime_ms ≤ℤ m.last_mtime

  fold_stamped-summary_for :
      (p sid : String) (o : Option MemoryTranscript) (es : List Entry) (mtime : ℤ)
      → some (fold_stamped parse_time (summary_for sid o) (main_key p sid) es mtime)
        ≡ summary_for sid (some (record { entries = entries_of o ++ es; mtime_ms = mtime }))
  unfolding fold_stamped fold_session_summary
  fold_stamped-summary_for p sid none es mtime = refl
  fold_stamped-summary_for p sid (some t) es mtime =
      ground (arith, fold_entries-append parse_time end t.entries es)

  -- The sidecar equation of one main transcript
  abbrev Agrees : MemorySessionStore → String → String → Type 0
  Agrees m p sid = get (p, sid) m.summaries ≡ summary_for sid (get (main_key p sid) m.items)

  append_batch-Agrees_self :
      (now : ℤ) (es : List Entry) (m : MemorySessionStore) (p sid : String)
      → Agrees m p sid
      → Agrees (append_batch parse_time now (main_key p sid) es m) p sid
  unfolding append_batch
  append_batch-Agrees_self now es m p sid c =
      rw (get-put_self {K = String × String} (p, sid), get-put_self (main_key p sid), c)
        (fold_stamped-summary_for p sid (get (main_key p sid) m.items) es _)

  append_batch-Agrees_ne :
      (now : ℤ) (key : SessionKey) (es : List Entry) (m : MemorySessionStore) (p sid : String)
      → (key == main_key p sid) ≡ false
      → Agrees m p sid
      → Agrees (append_batch parse_time now key es m) p sid
  unfolding append_batch
  append_batch-Agrees_ne now key es m p sid other c = elim (Bool-cases (str_eq key.subpath "")) [
    | inl main ↦ rw main (simp get-put (ground arith))
    | inr sub ↦ rw sub (simp get-put (ground arith))
  ]

  append_batch-Agrees :
      (now : ℤ) (key : SessionKey) (es : List Entry) (m : MemorySessionStore) (p sid : String)
      → Agrees m p sid
      → Agrees (append_batch parse_time now key es m) p sid
  append_batch-Agrees now key es m p sid c = elim (Bool-cases (key == main_key p sid)) [
    | inl same ↦
        subst (λ k. Agrees (append_batch parse_time now k es m) p sid)
          (sym ((session_key_eq.equal_iff key (main_key p sid)).0 same))
          (append_batch-Agrees_self now es m p sid c)
    | inr other ↦ append_batch-Agrees_ne now key es m p sid other c
  ]

  append_batch-IsCoherent :
      (now : ℤ) (key : SessionKey) (es : List Entry) (m : MemorySessionStore)
      → m.last_mtime <ℤ max_int64
      → IsCoherent m
      → IsCoherent (append_batch parse_time now key es m)
  unfolding append_batch
  append_batch-IsCoherent now key es m room c = record {
    sidecar = λ p sid. append_batch-Agrees now key es m p sid (c.sidecar p sid);
    items_distinct = put-Distinct key _ m.items c.items_distinct;
    summaries_distinct = elim (Bool-cases (str_eq key.subpath "")) [
      | inl main ↦ rw main (put-Distinct _ _ m.summaries c.summaries_distinct)
      | inr sub ↦ rw sub c.summaries_distinct
    ];
    stamped = λ k t.
        put_stamped key k t _ m.items _ refl m.last_mtime (c.stamped k t)
          (later_stamp now m.last_mtime room);
  }

  delete-Agrees :
      (key : SessionKey) (m : MemorySessionStore) (p sid : String)
      → Agrees m p sid
      → Agrees (delete key m) p sid
  unfolding delete
  delete-Agrees key m p sid c = elim (Bool-cases (str_eq key.subpath "")) [
    | inl main ↦ rw main (simp get-del (ground arith))
    | inr sub ↦ rw sub (simp get-del (ground (arith, eq_iff key.subpath "", eq_iff "" key.subpath)))
  ]

  delete-IsCoherent :
      (key : SessionKey) (m : MemorySessionStore) → IsCoherent m → IsCoherent (delete key m)
  unfolding delete
  delete-IsCoherent key m c = record {
    sidecar = λ p sid. delete-Agrees key m p sid (c.sidecar p sid);
    items_distinct = del-Distinct _ m.items c.items_distinct;
    summaries_distinct = elim (Bool-cases (str_eq key.subpath "")) [
      | inl main ↦ rw main (del-Distinct _ m.summaries c.summaries_distinct)
      | inr sub ↦ rw sub c.summaries_distinct
    ];
    stamped = λ k t. simp get-del (ground (arith, c.stamped k t));
  }

  -- The write time never reaches the end of int64 before an append of the history.
  abbrev pub HasRoom : MemorySessionStore → List Op → Type 0
  HasRoom m [] = Unit
  HasRoom m (appends now key es ∷ ops) =
      (m.last_mtime <ℤ max_int64) × HasRoom (append parse_time now key es m) ops
  HasRoom m (deletes key ∷ ops) = HasRoom (delete key m) ops

  append-IsCoherent :
      (now : ℤ) (key : SessionKey) (es : List Entry) (m : MemorySessionStore)
      → m.last_mtime <ℤ max_int64
      → IsCoherent m
      → IsCoherent (append parse_time now key es m)
  unfolding append
  append-IsCoherent now key [] m room c = c
  append-IsCoherent now key (e ∷ es) m room c = append_batch-IsCoherent now key (e ∷ es) m room c

  run-IsCoherent :
      (m : MemorySessionStore) (ops : List Op)
      → HasRoom m ops
      → IsCoherent m
      → IsCoherent (run parse_time m ops)
  unfolding run
  run-IsCoherent m [] room c = c
  run-IsCoherent m (appends now key es ∷ ops) room c =
      run-IsCoherent (append parse_time now key es m) ops room.1
        (append-IsCoherent now key es m room.0 c)
  run-IsCoherent m (deletes key ∷ ops) room c =
      run-IsCoherent (delete key m) ops room (delete-IsCoherent key m c)

  -- After any history of a new store whose clock stays in range, the sidecar holds a summary for
  -- exactly the main transcripts, each the fold of all that transcript's entries at once and with
  -- its write time; no key is stored twice, and no write time is after the last one.
  pub run-new-IsCoherent :
      (ops : List Op)
      → HasRoom new_memory_session_store ops
      → IsCoherent (run parse_time new_memory_session_store ops)
  unfolding get
  run-new-IsCoherent ops room = run-IsCoherent new_memory_session_store ops room (record {
    sidecar = λ p sid. refl;
    items_distinct = tt;
    summaries_distinct = tt;
    stamped = λ k t h. cc;
  })

  -- A batch that is not empty, appended while the clock is in range, is stamped with a write time
  -- after every earlier one, behind the entries that its key held.
  pub append-stamps :
      (now : ℤ) (key : SessionKey) (e : Entry) (es : List Entry) (m : MemorySessionStore)
      → m.last_mtime <ℤ max_int64
      → let m' = append parse_time now key (e ∷ es) m in
        (m.last_mtime <ℤ m'.last_mtime)
        × (get key m'.items
            ≡ some (record {
              entries = entries_of (get key m.items) ++ e ∷ es;
              mtime_ms = m'.last_mtime;
            }))
  unfolding append append_batch
  append-stamps now key e es m room =
      (later_stamp now m.last_mtime room, get-put_self key _ m.items)
