-- ===== src/Sessions/Fork/Parents.antt =====
-- The loop that skips progress entries: where it ends, what it finds, and where it never ends.
use claude_agent_sdk_go.Base.{
  ℕ, zero, suc, ◌<◌, String, ◌≡◌, refl, subst, true, false, none, some, List, [], ◌∷◌, contains,
  str_eq, string_eq, eq_iff, arith, inl, inr, Bool-cases, Option-cases, All,
}
use claude_agent_sdk_go.Base.Assoc
use claude_agent_sdk_go.Json.{Value, null, str}
use claude_agent_sdk_go.Text.{is_empty}
use claude_agent_sdk_go.Sessions.Types.{Entry}
use claude_agent_sdk_go.Sessions.Chain.{parent_uuid}
use claude_agent_sdk_go.Sessions.Fork.{fork_parent, mapped, is_progress}

module _ (by_uuid : List (String × Entry)) (mapping : List (String × String)) where
  -- A progress entry whose parent is one of the ring
  abbrev pub InRing : List String → String → Type 0
  InRing ring pid =
      (is_empty pid ≡ false)
      × ((p : Entry) × (Assoc.get pid by_uuid ≡ some p)
          × (is_progress p ≡ true)
          × (contains ring (parent_uuid p) ≡ true))

  at_ring :
      (ring ids : List String) (pid : String)
      → All (InRing ring) ids
      → contains ids pid ≡ true
      → InRing ring pid
  at_ring ring [] pid h k = absurd (empty k)
    where
      empty : contains {A = String} [] pid ≡ true → ⊥
      empty k = cc
  at_ring ring (j ∷ ids) pid h k = elim (Bool-cases (str_eq j pid)) [
    | inl same ↦ subst (InRing ring) ((eq_iff j pid).0 same) h.0
    | inr other ↦ at_ring ring ids pid h.1 (ground (arith, k, other))
  ]

  -- From a ring of progress entries, each the child of another of the ring, the loop never ends: no
  -- number of rounds is enough.
  pub fork_parent-ring :
      (ring : List String) (fuel : ℕ) (pid : String)
      → All (InRing ring) ring
      → contains ring pid ≡ true
      → fork_parent fuel by_uuid mapping pid ≡ none
  unfolding fork_parent
  fork_parent-ring ring zero pid h k = refl
  fork_parent-ring ring (suc fuel) pid h k =
      let (named, (p, found, progress, next)) = at_ring ring ring pid h k in
      let on = fork_parent-ring ring fuel (parent_uuid p) h next in
      ground (arith, named, found, progress, on)

  -- The parent of a copy, from the parent `pid` of its original: up the progress entries to the nearest
  -- entry that is none, and its new uuid; null only where the way ends at no uuid or at a uuid that
  -- the transcript does not have.
  pub data IsNearest : String → Value → Type 0 where
    at_root : (pid : String) → is_empty pid ≡ true → IsNearest pid null
    at_missing :
        (pid : String) → is_empty pid ≡ false → Assoc.get pid by_uuid ≡ none → IsNearest pid null
    at_copied :
        (pid : String) (p : Entry)
        → is_empty pid ≡ false
        → Assoc.get pid by_uuid ≡ some p
        → is_progress p ≡ false
        → IsNearest pid (str (mapped mapping pid))
    past_progress :
        (pid : String) (p : Entry) (v : Value)
        → is_empty pid ≡ false
        → Assoc.get pid by_uuid ≡ some p
        → is_progress p ≡ true
        → IsNearest (parent_uuid p) v
        → IsNearest pid v

  -- Where every progress entry has a parent of a lower rank, as in a transcript whose entries come after
  -- their parents, the loop ends within one round more than the rank, and finds the parent
  -- of the copy.
  pub fork_parent_total :
      (rank : String → ℕ) (fuel : ℕ) (pid : String)
      → ((q : String) (p : Entry)
          → Assoc.get q by_uuid ≡ some p
          → is_progress p ≡ true
          → rank (parent_uuid p) < rank q)
      → rank pid < fuel
      → (v : Value) × (fork_parent fuel by_uuid mapping pid ≡ some v) × IsNearest pid v
  unfolding fork_parent
  fork_parent_total rank zero pid falls room = absurd (omega arith)
  fork_parent_total rank (suc fuel) pid falls room = elim (Bool-cases (is_empty pid)) [
    | inl root ↦ (null, rw root refl, at_root pid root)
    | inr child ↦ elim (Option-cases (Assoc.get pid by_uuid)) [
      | inl gone ↦ (null, rw (child, gone) refl, at_missing pid child gone)
      | inr (p, found) ↦ elim (Bool-cases (is_progress p)) [
        | inr copied ↦ (
          str (mapped mapping pid),
          ground (arith, child, found, copied),
          at_copied pid p child found copied,
        )
        | inl skipped ↦
            let (v, e, c) =
              fork_parent_total rank fuel (parent_uuid p) falls
                (omega (arith, falls pid p found skipped)) in
            (
              v,
              ground (arith, child, found, skipped, e),
              past_progress pid p v child found skipped c,
            )
      ]
    ]
  ]
