-- ===== src/Sessions/Fork/Copies.antt =====
-- What a fork writes for each entry.
use claude_agent_sdk_go.Base.{
  ℕ, ◌<◌, String, ◌≡◌, refl, Bool, true, false, none, some, List, [], ◌∷◌, str_eq, string_eq, inl,
  inr, Bool-cases, Option-cases, All,
}
use claude_agent_sdk_go.Base.Assoc
use claude_agent_sdk_go.Json.{
  Value, Fields, bool, str, obj, end, field, put, index, get, as_str, get-put, get-del,
}
use claude_agent_sdk_go.Text.{is_empty}
use claude_agent_sdk_go.Sessions.Types.{Entry}
use claude_agent_sdk_go.Sessions.Chain.{uuid_of, parent_uuid}
use claude_agent_sdk_go.Sessions.Fork.{
  fork_entry, fork_entries, fork_logical, mapped, is_progress, is_nil,
}
use claude_agent_sdk_go.Sessions.Fork.Parents.{IsNearest, fork_parent_total}

-- The keys that a copy does not keep
abbrev pub rewritten : List String
rewritten =
    "uuid" ∷ "parentUuid" ∷ "logicalParentUuid" ∷ "sessionId" ∷ "timestamp" ∷ "isSidechain"
    ∷ "forkedFrom" ∷ "teamName" ∷ "agentName" ∷ "slug" ∷ "sourceToolAssistantUUID" ∷ []

get-fork_logical :
    (k : String) (mapping : List (String × String)) (orig : Entry) (m : Fields)
    → str_eq "logicalParentUuid" k ≡ false
    → get k (fork_logical mapping orig m) ≡ get k m
unfolding fork_logical
get-fork_logical k mapping orig m h =
    elim (Option-cases (as_str (index "logicalParentUuid" orig))) [
      | inl gone ↦ rw (gone, fork_logical) refl
      | inr (lp, found) ↦ elim (Bool-cases (is_empty lp)) [
        | inl root ↦ rw (found, root, fork_logical) refl
        | inr named ↦ rw (found, named, fork_logical) (rw (get-put "logicalParentUuid" k, h) refl)
      ]
    ]

-- A copy of an entry: in the fork, under its new uuid and with its parent, on the main chain, with the
-- name of where it is from, and with everything else as it was but for the keys that are rewritten
pub record IsCopy (mapping : List (String × String)) (session fork_id : String) (parent : Value)
    (orig copy : Entry) : Type 0 where
  pub new_uuid : get "uuid" copy ≡ some (str (mapped mapping (uuid_of orig)))
  pub new_parent : get "parentUuid" copy ≡ some parent
  pub new_session : get "sessionId" copy ≡ some (str fork_id)
  pub main_chain : get "isSidechain" copy ≡ some (bool false)
  pub source :
      get "forkedFrom" copy
      ≡ some (obj (field "sessionId" (str session) (field "messageUuid" (index "uuid" orig) end)))
  pub no_team : get "teamName" copy ≡ none
  pub kept : (k : String) → All (λ j. str_eq j k ≡ false) rewritten → get k copy ≡ get k orig

fork_entry-IsCopy :
    (mapping : List (String × String)) (session fork_id now : String) (parent : Value) (last : Bool)
    (orig : Entry)
    → IsCopy mapping session fork_id parent orig
        (fork_entry mapping session fork_id now parent last orig)
unfolding fork_entry
fork_entry-IsCopy mapping session fork_id now parent last orig = record {
  new_uuid = simp (get-put, get-del, get-fork_logical);
  new_parent = simp (get-put, get-del, get-fork_logical);
  new_session = simp (get-put, get-del);
  main_chain = simp (get-put, get-del);
  source = simp (get-put, get-del);
  no_team = simp (get-put, get-del);
  kept = λ k h.
      let m₁ = put "parentUuid" parent (put "uuid" (str (mapped mapping (uuid_of orig))) orig) in
      let logical = get-fork_logical k mapping orig m₁ h.1.1.0 in
      simp (
        get-put, get-del, logical, h.0, h.1.0, h.1.1.0, h.1.1.1.0, h.1.1.1.1.0, h.1.1.1.1.1.0,
        h.1.1.1.1.1.1.0, h.1.1.1.1.1.1.1.0, h.1.1.1.1.1.1.1.1.0, h.1.1.1.1.1.1.1.1.1.0,
        h.1.1.1.1.1.1.1.1.1.1.0,
      );
}

-- Each entry's copy, in order, with the parent that it is due
pub AreCopies :
    List (String × Entry)
    → List (String × String)
    → String
    → String
    → List Entry
    → List Entry
    → Type 0
AreCopies by_uuid mapping session fork_id [] [] = Unit
AreCopies by_uuid mapping session fork_id [] (c ∷ cs) = ⊥
AreCopies by_uuid mapping session fork_id (o ∷ os) [] = ⊥
AreCopies by_uuid mapping session fork_id (o ∷ os) (c ∷ cs) =
    ((v : Value) × IsNearest by_uuid mapping (parent_uuid o) v
      × IsCopy mapping session fork_id v o c)
    × AreCopies by_uuid mapping session fork_id os cs

module _ (new_uuid : ℕ → String) where
  -- Where every progress entry has a parent of a lower rank, and the fuel is more than every rank, the
  -- copying ends with one copy for each entry, in order: in the fork, under the entry's new uuid, with
  -- the new uuid of the nearest ancestor that is no progress entry as its parent, null only where
  -- there is none in the transcript, and with every key kept but those that a fork rewrites.
  pub fork_entries_total :
      (by_uuid : List (String × Entry)) (mapping : List (String × String))
      (session fork_id now : String) (rank : String → ℕ) (fuel : ℕ) (origs : List Entry)
      → ((q : String) (p : Entry)
          → Assoc.get q by_uuid ≡ some p
          → is_progress p ≡ true
          → rank (parent_uuid p) < rank q)
      → ((q : String) → rank q < fuel)
      → (copies : List Entry) × (fork_entries new_uuid fuel by_uuid mapping session fork_id now
            origs
          ≡ some copies)
        × AreCopies by_uuid mapping session fork_id origs copies
  unfolding fork_entries AreCopies
  fork_entries_total by_uuid mapping session fork_id now rank fuel [] falls room = ([], refl, tt)
  fork_entries_total by_uuid mapping session fork_id now rank fuel (o ∷ os) falls room =
      let (v, e, c) =
        fork_parent_total by_uuid mapping rank fuel (parent_uuid o) falls (room (parent_uuid o)) in
      let (cs, f, rest) =
        fork_entries_total by_uuid mapping session fork_id now rank fuel os falls room in
      (
        fork_entry mapping session fork_id now v (is_nil os) o ∷ cs,
        rw (e, f, fork_entries) refl,
        ((v, c, fork_entry-IsCopy mapping session fork_id now v (is_nil os) o), rest),
      )
