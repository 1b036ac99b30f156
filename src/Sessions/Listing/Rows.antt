-- ===== src/Sessions/Listing/Rows.antt =====
-- A MemorySessionStore gives the same rows by its summaries as by loading its transcripts.
use claude_agent_sdk_go.Base.{
  ℕ, String, ◌≡◌, refl, ◌∙◌, ap, subst, true, false, ◌&&◌, Option, none, some, List, [], ◌∷◌, map,
  select, ℤ, ltb_ℤ_irrefl, arith, str_eq, string_eq, ◌==◌, pair_eq, Bool-cases, inl, inr,
}
use claude_agent_sdk_go.Base.Assoc.{get, put, get-put, Distinct}
use claude_agent_sdk_go.Sessions.Types.{
  Entry, SessionKey, session_key_eq, SessionSummaryEntry, SessionListEntry,
}
use claude_agent_sdk_go.Sessions.Summary.{fold_session_summary, summary_to_session_info}
use claude_agent_sdk_go.Sessions.MemoryStore.{
  MemoryTranscript, MemorySessionStore, list_sessions, load, is_main,
}
use claude_agent_sdk_go.Sessions.MemoryStore.Coherence.{main_key, summary_for, IsCoherent}
use claude_agent_sdk_go.Sessions.Listing.{ok, known_mtimes, is_fresh, derive_row}

abbrev listing_of : String → List (SessionKey × MemoryTranscript) → List SessionListEntry
listing_of p items =
    map (λ i. record { session_id = i.0.session_id; mtime_ms = i.1.mtime_ms })
      (select (is_main p) items)

mtime_or : Option MemoryTranscript → Option ℤ → Option ℤ
mtime_or none o = o
mtime_or (some t) o = some t.mtime_ms

main_key-lem :
    (p sid : String) (k : SessionKey)
    → (k == main_key p sid)
      ≡ ((str_eq k.project_key p && str_eq k.subpath "") && str_eq k.session_id sid)
main_key-lem p sid k = ground arith

is_here :
    (p sid : String) (k : SessionKey) (t : MemoryTranscript)
    → is_main p (k, t) ≡ true
    → (k == main_key p sid) ≡ str_eq k.session_id sid
is_here p sid k t main = main_key-lem p sid k ∙ ap (λ b. b && str_eq k.session_id sid) main

is_elsewhere :
    (p sid : String) (k : SessionKey) (t : MemoryTranscript)
    → is_main p (k, t) ≡ false
    → (k == main_key p sid) ≡ false
is_elsewhere p sid k t sub = main_key-lem p sid k ∙ ap (λ b. b && str_eq k.session_id sid) sub

-- The mtime known of a session is that of its main transcript.
get-known_mtimes :
    (p sid : String) (items : List (SessionKey × MemoryTranscript)) (known : List (String × ℤ))
    → Distinct items
    → get sid (known_mtimes (listing_of p items) known)
      ≡ mtime_or (get (main_key p sid) items) (get sid known)
unfolding known_mtimes mtime_or get
get-known_mtimes p sid [] known d = refl
get-known_mtimes p sid ((k, t) ∷ items) known d = elim (Bool-cases (is_main p (k, t))) [
  | inr sub ↦ rw (sub, is_elsewhere p sid k t sub) (get-known_mtimes p sid items known d.1)
  | inl main ↦
      let later =
        get-known_mtimes p sid items (put k.session_id t.mtime_ms known) d.1
        ∙ ap (mtime_or (get (main_key p sid) items)) (get-put k.session_id sid t.mtime_ms known) in
      rw (main, is_here p sid k t main, later)
        (elim (Bool-cases (str_eq k.session_id sid)) [
          | inl same ↦ rw (same, only same main) refl
          | inr other ↦ rw other refl
        ])
]
  where
    only :
        str_eq k.session_id sid ≡ true → is_main p (k, t) ≡ true → get (main_key p sid) items ≡ none
    only same main =
        subst (λ j. get j items ≡ none)
          ((session_key_eq.equal_iff k (main_key p sid)).0 (is_here p sid k t main ∙ same)) d.0

module _ (parse_time : String → Option ℤ) (truncate : ℕ → ℤ) where
  -- In a coherent MemorySessionStore, a session with entries has a summary that the listing takes as
  -- fresh, and which gives the row that loading and folding the transcript would give.
  pub sidecar-derive_row :
      (m : MemorySessionStore) (p sid path : String) (x : Entry) (xs : List Entry) (mtime : ℤ)
      → IsCoherent parse_time m
      → get (main_key p sid) m.items ≡ some (record { entries = x ∷ xs; mtime_ms = mtime })
      → (e : SessionSummaryEntry) × (get (p, sid) m.summaries ≡ some e)
        × (is_fresh (some (known_mtimes (list_sessions p m) [])) e ≡ true)
        × (derive_row parse_time truncate
              (λ k. ok (load k m))
              p
              path
              (record { session_id = sid; mtime_ms = mtime })
            ≡ summary_to_session_info truncate e path)
  unfolding list_sessions derive_row load fold_session_summary is_fresh mtime_or get
  sidecar-derive_row m p sid path x xs mtime c h =
      let known =
        get-known_mtimes p sid m.items [] c.items_distinct ∙ ap (λ o. mtime_or o none) h in
      (
        _,
        c.sidecar p sid ∙ ap (summary_for parse_time sid) h,
        ground (arith, known, ltb_ℤ_irrefl mtime),
        rw (h, derive_row, load) refl,
      )
