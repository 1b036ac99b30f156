-- ===== src/Sessions/Chain/Linked.antt =====
-- What conversationChain returns: the branch that ends at the newest leaf.
use mathlib.Core.List.{reverse}
use claude_agent_sdk_go.Base.{
  ℕ, zero, suc, ◌≤◌, String, ◌≡◌, refl, true, false, Option, none, some, List, [], ◌∷◌, select,
  contains, arith, string_eq, if◌then◌else◌, Bool-cases, Option-cases, inl, inr, ltb, ltb→lt,
  ltb-false, subst,
}
use claude_agent_sdk_go.Sessions.Types.{Entry}
use claude_agent_sdk_go.Sessions.Chain.{
  Index, uuid_of, index_entries, parent_of, walk, conversation_chain, is_transcript_entry, best,
  position,
}
use claude_agent_sdk_go.Sessions.Chain.Walks.{chain_of_total}

-- Every entry, from the leaf on, is followed by its parent.
pub Linked : Index → List Entry → Type 0
Linked m [] = Unit
Linked m (e ∷ []) = Unit
Linked m (e ∷ f ∷ rest) = (parent_of m e ≡ some f) × Linked m (f ∷ rest)

-- No uuid stands twice, nor one of those seen.
pub Fresh : List String → List Entry → Type 0
Fresh seen [] = Unit
Fresh seen (e ∷ rest) = (contains seen (uuid_of e) ≡ false) × Fresh (uuid_of e ∷ seen) rest

-- The first entry of a walk, if it has one, is that from which it starts.
pub StartsAt : Option Entry → List Entry → Type 0
StartsAt cur [] = Unit
StartsAt cur (e ∷ rest) = cur ≡ some e

Linked-cons :
    (m : Index) (e : Entry) (rest : List Entry)
    → StartsAt (parent_of m e) rest
    → Linked m rest
    → Linked m (e ∷ rest)
unfolding Linked StartsAt
Linked-cons m e [] s l = tt
Linked-cons m e (f ∷ rest) s l = (s, l)

Thread : Index → List String → Option Entry → List Entry → Type 0
Thread m seen cur walked = StartsAt cur walked × Linked m walked × Fresh seen walked

step-Thread :
    (m : Index) (seen : List String) (e : Entry) (rest : List Entry)
    → contains seen (uuid_of e) ≡ false
    → Thread m (uuid_of e ∷ seen) (parent_of m e) rest
    → Thread m seen (some e) (e ∷ rest)
unfolding StartsAt Fresh Thread
step-Thread m seen e rest new (s, l, f) = (refl, Linked-cons m e rest s l, (new, f))

walk-Thread :
    (fuel : ℕ) (m : Index) (seen : List String) (cur : Option Entry) (walked : List Entry)
    → walk fuel m seen cur ≡ some walked
    → Thread m seen cur walked
unfolding walk Thread StartsAt Linked Fresh
walk-Thread zero m seen cur walked h = cc
walk-Thread (suc fuel) m seen none walked h =
    let nil : [] ≡ walked = cc in
    subst (λ w. StartsAt none w × Linked m w × Fresh seen w) nil (tt, tt, tt)
walk-Thread (suc fuel) m seen (some e) walked h = elim (Bool-cases (contains seen (uuid_of e))) [
  | inl cycle ↦
      let nil : [] ≡ walked = ground (arith, h, cycle) in
      subst (λ w. StartsAt (some e) w × Linked m w × Fresh seen w) nil (tt, tt, tt)
  | inr new ↦ elim (Option-cases (walk fuel m (uuid_of e ∷ seen) (parent_of m e))) [
    | inl out ↦ absurd (ran_out new out)
    | inr (rest, q) ↦ subst (Thread m seen (some e)) (longer new rest q) (
        step-Thread m seen e rest new
          (walk-Thread fuel m (uuid_of e ∷ seen) (parent_of m e) rest q))
  ]
]
  where
    ran_out :
        contains seen (uuid_of e) ≡ false
        → walk fuel m (uuid_of e ∷ seen) (parent_of m e) ≡ none
        → ⊥
    ran_out new out = ground (arith, h)

    longer :
        contains seen (uuid_of e) ≡ false
        → (rest : List Entry) → walk fuel m (uuid_of e ∷ seen) (parent_of m e) ≡ some rest
        → e ∷ rest ≡ walked
    longer new rest q = ground (arith, h)

-- An entry that stands at or after each of the others
pub IsNewest : List (String × ℕ) → Entry → List Entry → Type 0
IsNewest at x [] = Unit
IsNewest at x (e ∷ es) = (position at e ≤ position at x) × IsNewest at x es

-- `best` takes a candidate that stands at or after every other.
pub best-IsNewest :
    (at : List (String × ℕ)) (b : Entry) (es : List Entry) → IsNewest at (best at b es) (b ∷ es)
unfolding best IsNewest
best-IsNewest at b [] = (omega arith, tt)
best-IsNewest at b (e ∷ es) = elim (Bool-cases (ltb (position at b) (position at e))) [
  | inl newer ↦
      let (first, rest) = best-IsNewest at e es in
      subst (λ c. IsNewest at (best at c es) (b ∷ e ∷ es)) (taken newer)
        (omega (arith, ltb→lt (position at b) (position at e) newer, first), (first, rest))
  | inr older ↦
      let (first, rest) = best-IsNewest at b es in
      subst (λ c. IsNewest at (best at c es) (b ∷ e ∷ es)) (kept older)
        (first, (omega (arith, ltb-false (position at b) (position at e) older, first), rest))
]
  where
    taken :
        ltb (position at b) (position at e) ≡ true
        → e ≡ (if ltb (position at b) (position at e) then e else b)
    taken newer = ground arith

    kept :
        ltb (position at b) (position at e) ≡ false
        → b ≡ (if ltb (position at b) (position at e) then e else b)
    kept older = ground arith

-- A chain, oldest first: each entry's parent, read in the index of the transcript, is the one
-- before it, and no uuid stands twice.
pub record IsBranch (all chain : List Entry) : Type 0 where
  pub newest_first : List Entry
  pub reversed : chain ≡ reverse newest_first
  pub linked : Linked (index_entries (select is_transcript_entry all) []) newest_first
  pub distinct : Fresh [] newest_first

-- conversationChain ends for every list of entries, also where parents form a cycle, within as many
-- rounds for each walk as there are transcript entries, and one more. Its result is a branch:
-- each entry is preceded by its parent, and no uuid stands twice.
pub conversation_chain_total :
    (all : List Entry)
    → (chain : List Entry) × (conversation_chain all ≡ some chain) × IsBranch all chain
unfolding conversation_chain Thread
conversation_chain_total all =
    let (chain, e, c) = chain_of_total (select is_transcript_entry all) in
    let (s, l, f) = walk-Thread _ _ [] c.leaf c.walked c.walk_ends in
    (chain, e, record { newest_first = c.walked; reversed = c.reversed; linked = l; distinct = f })
