-- ===== src/Sessions/Subagents/Conversation.antt =====
-- The walk of subagentChain ends, and keeps the messages alone.
use mathlib.Core.List.{reverse}
use claude_agent_sdk_go.Base.{
  ℕ, zero, suc, ◌<◌, String, ◌≡◌, refl, sym, subst, Bool, true, false, Option, none, some, List, [],
  ◌∷◌, contains, length, arith, string_eq, All, Bool-cases, Option-cases, inl, inr, if_true,
  if_false, if◌then◌else◌,
}
use claude_agent_sdk_go.Base.Assoc
use claude_agent_sdk_go.Sessions.Types.{Entry}
use claude_agent_sdk_go.Sessions.Chain.{Index, uuid_of, parent_uuid, index_entries}
use claude_agent_sdk_go.Sessions.Chain.Walks.{
  IsIndex, IsKnown, AllKnown, All-uuids, built-IsIndex, unseen, unseen-lt, unseen-nil, uuids,
  length-uuids,
}
use claude_agent_sdk_go.Sessions.Subagents.{is_message, last_message, walk_messages, subagent_chain}

parent-IsKnown :
    (keys : List String) (m : Index) (e : Entry)
    → IsIndex keys m
    → IsKnown keys (Assoc.get (parent_uuid e) m)
parent-IsKnown keys m e h = elim (Option-cases (Assoc.get (parent_uuid e) m)) [
  | inl gone ↦ subst (IsKnown keys) (sym gone) tt
  | inr (p, q) ↦
      let (same, known) = h.found (parent_uuid e) p q in
      subst (IsKnown keys) (sym q) (subst (λ k. contains keys k ≡ true) (sym same) known)
]

-- Every entry is a user or assistant entry.
abbrev pub AllMessages : List Entry → Type 0
AllMessages es = All (λ e. is_message e ≡ true) es

keep-AllMessages :
    (e : Entry) (rest : List Entry)
    → AllMessages rest
    → AllMessages (if is_message e then e ∷ rest else rest)
keep-AllMessages e rest h = elim (Bool-cases (is_message e)) [
  | inl message ↦ subst AllMessages (sym (if_true _ _ rest message)) (message, h)
  | inr other ↦ subst AllMessages (sym (if_false _ (e ∷ rest) rest other)) h
]

walk_messages_total :
    (fuel : ℕ) (keys : List String) (m : Index) (seen : List String) (cur : Option Entry)
    → IsIndex keys m
    → IsKnown keys cur
    → unseen keys seen < fuel
    → (walked : List Entry) × (walk_messages fuel m seen cur ≡ some walked) × AllMessages walked
unfolding walk_messages
walk_messages_total zero keys m seen cur h k room = absurd (omega arith)
walk_messages_total (suc fuel) keys m seen none h k room = ([], refl, tt)
walk_messages_total (suc fuel) keys m seen (some e) h k room =
    elim (Bool-cases (contains seen (uuid_of e))) [
      | inl cycle ↦ ([], rw cycle refl, tt)
      | inr new ↦
          let (rest, q, all) =
            walk_messages_total fuel keys m (uuid_of e ∷ seen) (Assoc.get (parent_uuid e) m) h
              (parent-IsKnown keys m e h) (omega (arith, unseen-lt keys seen (uuid_of e) k new)) in
          ((if is_message e then e ∷ rest else rest), rw (new, q) refl, keep-AllMessages e rest all)
    ]

pick-IsKnown :
    (keys : List String) (o : Option Entry) (b : Bool) (e : Entry)
    → IsKnown keys o
    → contains keys (uuid_of e) ≡ true
    → IsKnown keys (elim o [ some leaf ↦ some leaf | none ↦ if b then some e else none ])
pick-IsKnown keys (some leaf) b e h k = h
pick-IsKnown keys none true e h k = k
pick-IsKnown keys none false e h k = tt

last_message-IsKnown :
    (keys : List String) (es : List Entry) → AllKnown keys es → IsKnown keys (last_message es)
unfolding last_message
last_message-IsKnown keys [] h = tt
last_message-IsKnown keys (e ∷ es) h =
    pick-IsKnown keys (last_message es) (is_message e) e (last_message-IsKnown keys es h.1) h.0

-- subagentChain ends for every list of entries, also where parents form a cycle, within as many rounds
-- as there are entries and one more, and it holds user and assistant entries alone.
pub subagent_chain_total :
    (entries : List Entry)
    → (walked : List Entry) × (subagent_chain entries ≡ some (reverse walked)) × AllMessages walked
unfolding subagent_chain
subagent_chain_total entries =
    let keys = uuids entries in
    let (walked, e, all) =
      walk_messages_total (suc (length entries)) keys (index_entries entries []) []
        (last_message entries) (built-IsIndex entries)
        (last_message-IsKnown keys entries (All-uuids entries))
        (omega (arith, unseen-nil keys, length-uuids entries)) in
    (walked, rw (e, subagent_chain) refl, all)
