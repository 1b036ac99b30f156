-- ===== src/Sessions/Chain/Walks.antt =====
-- The walks along parentUuid end, also where parents form a cycle.
use mathlib.Core.List.{reverse}
use claude_agent_sdk_go.Base.{
  ltb, ℕ, zero, suc, ◌≤◌, ◌<◌, String, ◌≡◌, refl, ap, sym, Bool, true, false, not, Option, none,
  some, List, [], ◌∷◌, map, select, contains, length, arith, str_eq, eq_iff, eq_refl, string_eq,
  subst, All, Bool-cases, Option-cases, inl, inr,
}
use claude_agent_sdk_go.Base.Assoc
use claude_agent_sdk_go.Base.Assoc.{get, get-put}
use claude_agent_sdk_go.Text.{is_empty}
use claude_agent_sdk_go.Sessions.Types.{Entry}
use claude_agent_sdk_go.Sessions.Chain.{
  Index, uuid_of, type_of, parent_uuid, is_message_type, index_entries, index_positions, parent_of,
  parents, find_leaf, find_leaves, choose_leaf, best, position, main_chain_entry, walk, chain_of,
}

-- Every entry of the index stands under its own uuid, which is one of the keys.
pub record IsIndex (keys : List String) (m : Index) : Type 0 where
  pub found :
      (k : String) (e : Entry) → Assoc.get k m ≡ some e → (uuid_of e ≡ k) × (contains keys k ≡ true)

put-IsIndex :
    (keys : List String) (e : Entry) (m : Index)
    → contains keys (uuid_of e) ≡ true
    → IsIndex keys m
    → IsIndex keys (Assoc.put (uuid_of e) e m)
put-IsIndex keys e m known h = record {
  found = λ k x p. elim (Bool-cases (str_eq (uuid_of e) k)) [
    | inl same ↦
        subst (λ j. (uuid_of x ≡ j) × (contains keys j ≡ true)) ((eq_iff (uuid_of e) k).0 same)
          (ap uuid_of (new_entry k x p same), known)
    | inr other ↦ h.found k x (old_entry k x p other)
  ];
}
  where
    new_entry :
        (k : String) (x : Entry)
        → Assoc.get k (Assoc.put (uuid_of e) e m) ≡ some x
        → str_eq (uuid_of e) k ≡ true
        → x ≡ e
    new_entry k x p same = ground (arith, get-put (uuid_of e) k e m)

    old_entry :
        (k : String) (x : Entry)
        → Assoc.get k (Assoc.put (uuid_of e) e m) ≡ some x
        → str_eq (uuid_of e) k ≡ false
        → Assoc.get k m ≡ some x
    old_entry k x p other = ground (arith, get-put (uuid_of e) k e m)

pub index_entries-IsIndex :
    (keys : List String) (es : List Entry) (m : Index)
    → All (λ e. contains keys (uuid_of e) ≡ true) es
    → IsIndex keys m
    → IsIndex keys (index_entries es m)
unfolding index_entries
index_entries-IsIndex keys [] m known h = h
index_entries-IsIndex keys (e ∷ es) m known h =
    index_entries-IsIndex keys es (Assoc.put (uuid_of e) e m) known.1
      (put-IsIndex keys e m known.0 h)

abbrev pub uuids : List Entry → List String
uuids = map uuid_of

All-contains-cons :
    (k : String) (keys : List String) (es : List Entry)
    → All (λ e. contains keys (uuid_of e) ≡ true) es
    → All (λ e. contains (k ∷ keys) (uuid_of e) ≡ true) es
All-contains-cons k keys [] h = tt
All-contains-cons k keys (e ∷ es) h = (ground (arith, h.0), All-contains-cons k keys es h.1)

pub All-uuids : (es : List Entry) → All (λ e. contains (uuids es) (uuid_of e) ≡ true) es
All-uuids [] = tt
All-uuids (e ∷ es) =
    (rw (eq_refl (uuid_of e)), All-contains-cons (uuid_of e) (uuids es) es (All-uuids es))

pub built-IsIndex : (es : List Entry) → IsIndex (uuids es) (index_entries es [])
unfolding get
built-IsIndex es =
    index_entries-IsIndex (uuids es) es [] (All-uuids es)
      (record { found = λ k e p. absurd (nothing k e p) })
  where
    nothing : (k : String) (e : Entry) → Assoc.get k [] ≡ some e → ⊥
    nothing k e p = cc

pub unseen : List String → List String → ℕ
unseen keys seen = length (select (λ k. not (contains seen k)) keys)

unseen-le : (keys seen : List String) (id : String) → unseen keys (id ∷ seen) ≤ unseen keys seen
unfolding unseen
unseen-le [] seen id = omega arith
unseen-le (k ∷ keys) seen id = ground (arith, unseen-le keys seen id)

-- Each round of a walk leaves fewer uuids unseen.
pub unseen-lt :
    (keys seen : List String) (id : String)
    → contains keys id ≡ true
    → contains seen id ≡ false
    → unseen keys (id ∷ seen) < unseen keys seen
unfolding unseen
unseen-lt [] seen id known new = cc
unseen-lt (k ∷ keys) seen id known new = elim (Bool-cases (str_eq k id)) [
  | inl same ↦
      let p : k ≡ id = (eq_iff k id).0 same in
      ground (arith, eq_iff id k, p, sym p, ap (contains seen) p, unseen-le keys seen id)
  | inr other ↦ ground (arith, unseen-lt keys seen id)
]

pub unseen-nil : (keys : List String) → unseen keys [] ≡ length keys
unfolding unseen
unseen-nil [] = refl
unseen-nil (k ∷ keys) = ap suc (unseen-nil keys)

pub length-uuids : (es : List Entry) → length (uuids es) ≡ length es
length-uuids [] = refl
length-uuids (e ∷ es) = ap suc (length-uuids es)

-- What a walk stands on, if anything, is an entry of the transcript.
abbrev pub IsKnown : List String → Option Entry → Type 0
IsKnown keys none = Unit
IsKnown keys (some e) = contains keys (uuid_of e) ≡ true

parent_of-IsKnown :
    (keys : List String) (m : Index) (e : Entry) → IsIndex keys m → IsKnown keys (parent_of m e)
unfolding parent_of
parent_of-IsKnown keys m e h = elim (Bool-cases (is_empty (parent_uuid e))) [
  | inl root ↦ rw root tt
  | inr child ↦ elim (Option-cases (Assoc.get (parent_uuid e) m)) [
    | inl gone ↦ rw (child, gone) tt
    | inr (p, q) ↦ rw (child, q) (known p (h.found (parent_uuid e) p q))
  ]
]
  where
    known :
        (p : Entry)
        → (uuid_of p ≡ parent_uuid e) × (contains keys (parent_uuid e) ≡ true)
        → contains keys (uuid_of p) ≡ true
    known p f = rw f.0 f.1

walk_total :
    (fuel : ℕ) (keys : List String) (m : Index) (seen : List String) (cur : Option Entry)
    → IsIndex keys m
    → IsKnown keys cur
    → unseen keys seen < fuel
    → (chain : List Entry) × (walk fuel m seen cur ≡ some chain)
unfolding walk
walk_total zero keys m seen cur h k room = absurd (omega arith)
walk_total (suc fuel) keys m seen none h k room = ([], refl)
walk_total (suc fuel) keys m seen (some e) h k room =
    elim (Bool-cases (contains seen (uuid_of e))) [
      | inl cycle ↦ ([], rw cycle)
      | inr new ↦
          let (rest, q) =
            walk_total fuel keys m (uuid_of e ∷ seen) (parent_of m e) h
              (parent_of-IsKnown keys m e h)
              (omega (arith, unseen-lt keys seen (uuid_of e) k new)) in
          (e ∷ rest, rw (new, q))
    ]

find_leaf_total :
    (fuel : ℕ) (keys : List String) (m : Index) (seen : List String) (cur : Option Entry)
    → IsIndex keys m
    → IsKnown keys cur
    → unseen keys seen < fuel
    → (leaf : Option Entry) × (find_leaf fuel m seen cur ≡ some leaf) × IsKnown keys leaf
unfolding find_leaf
find_leaf_total zero keys m seen cur h k room = absurd (omega arith)
find_leaf_total (suc fuel) keys m seen none h k room = (none, refl, tt)
find_leaf_total (suc fuel) keys m seen (some e) h k room =
    elim (Bool-cases (contains seen (uuid_of e))) [
      | inl cycle ↦ (none, rw cycle, tt)
      | inr new ↦ elim (Bool-cases (is_message_type (type_of e))) [
        | inl message ↦ (some e, rw (new, message), k)
        | inr other ↦
            let (leaf, q, known) =
              find_leaf_total fuel keys m (uuid_of e ∷ seen) (parent_of m e) h
                (parent_of-IsKnown keys m e h)
                (omega (arith, unseen-lt keys seen (uuid_of e) k new)) in
            (leaf, rw (new, other, q), known)
      ]
    ]

abbrev pub AllKnown : List String → List Entry → Type 0
AllKnown keys es = All (λ e. contains keys (uuid_of e) ≡ true) es

find_leaves_total :
    (fuel : ℕ) (keys : List String) (m : Index) (named : List String) (es : List Entry)
    → IsIndex keys m
    → AllKnown keys es
    → unseen keys [] < fuel
    → (leaves : List Entry) × (find_leaves fuel m named es ≡ some leaves) × AllKnown keys leaves
unfolding find_leaves
find_leaves_total fuel keys m named [] h k room = ([], refl, tt)
find_leaves_total fuel keys m named (e ∷ es) h k room =
    let (rest, q, known) = find_leaves_total fuel keys m named es h k.1 room in
    elim (Bool-cases (contains named (uuid_of e))) [
      | inl parent ↦ (rest, rw parent q, known)
      | inr terminal ↦
          (let (leaf, l, found) = find_leaf_total fuel keys m [] (some e) h k.0 room in
            elim (Option-cases leaf) [
              | inl n ↦ (rest, rw (terminal, l, q, n) refl, known)
              | inr (x, n) ↦
                  (x ∷ rest, rw (terminal, l, q, n) refl, (subst (IsKnown keys) n found, known))
            ])
    ]

best-known :
    (keys : List String) (at : List (String × ℕ)) (b : Entry) (es : List Entry)
    → contains keys (uuid_of b) ≡ true
    → AllKnown keys es
    → contains keys (uuid_of (best at b es)) ≡ true
unfolding best
best-known keys at b [] k h = k
best-known keys at b (e ∷ es) k h = elim (Bool-cases (ltb (position at b) (position at e))) [
  | inl newer ↦ rw newer (best-known keys at e es h.0 h.1)
  | inr older ↦ rw older (best-known keys at b es k h.1)
]

pub select-AllKnown :
    (keys : List String) (p : Entry → Bool) (es : List Entry)
    → AllKnown keys es
    → AllKnown keys (select p es)
select-AllKnown keys p [] h = tt
select-AllKnown keys p (e ∷ es) h = elim (Bool-cases (p e)) [
  | inl kept ↦ rw kept (h.0, select-AllKnown keys p es h.1)
  | inr gone ↦ rw gone (select-AllKnown keys p es h.1)
]

choose_leaf-IsKnown :
    (keys : List String) (at : List (String × ℕ)) (leaves main : List Entry)
    → AllKnown keys leaves
    → AllKnown keys main
    → IsKnown keys (choose_leaf at leaves main)
unfolding choose_leaf
choose_leaf-IsKnown keys at leaves (e ∷ es) h k = best-known keys at e es k.0 k.1
choose_leaf-IsKnown keys at [] [] h k = tt
choose_leaf-IsKnown keys at (e ∷ es) [] h k = best-known keys at e es h.0 h.1

-- What conversationChain does once its walks have ended
pub record IsChain (entries chain : List Entry) : Type 0 where
  pub leaf : Option Entry
  pub walked : List Entry
  pub walk_ends : walk (suc (length entries)) (index_entries entries []) [] leaf ≡ some walked
  pub leaf_known : IsKnown (uuids entries) leaf
  pub reversed : chain ≡ reverse walked

module _ (entries : List Entry) where
  abbrev fuel : ℕ
  fuel = suc (length entries)

  abbrev entry_index : Index
  entry_index = index_entries entries []

  abbrev leaf_of : List Entry → Option Entry
  leaf_of leaves =
      choose_leaf (index_positions 0 entries []) leaves (select main_chain_entry leaves)

  enough_fuel : unseen (uuids entries) [] < fuel
  enough_fuel = omega (arith, unseen-nil (uuids entries), length-uuids entries)

  leaves_found :
      (leaves : List Entry) × (find_leaves fuel entry_index (parents entries) entries ≡ some leaves)
      × AllKnown (uuids entries) leaves
  leaves_found =
      find_leaves_total fuel (uuids entries) entry_index (parents entries) entries
        (built-IsIndex entries) (All-uuids entries) enough_fuel

  leaf_of-IsKnown :
      (leaves : List Entry)
      → AllKnown (uuids entries) leaves
      → IsKnown (uuids entries) (leaf_of leaves)
  leaf_of-IsKnown leaves known =
      choose_leaf-IsKnown (uuids entries) (index_positions 0 entries []) leaves
        (select main_chain_entry leaves) known
        (select-AllKnown (uuids entries) main_chain_entry leaves known)

  chain_from :
      (leaves walked : List Entry)
      → find_leaves fuel entry_index (parents entries) entries ≡ some leaves
      → walk fuel entry_index [] (leaf_of leaves) ≡ some walked
      → chain_of entries ≡ some (reverse walked)
  unfolding chain_of
  chain_from leaves walked l w = ground (arith, l, w)

  pub chain_of_total :
      (chain : List Entry) × (chain_of entries ≡ some chain) × IsChain entries chain
  chain_of_total =
      let (leaves, l, known) = leaves_found in
      let start = leaf_of-IsKnown leaves known in
      let (walked, w) =
        walk_total fuel (uuids entries) entry_index [] (leaf_of leaves) (built-IsIndex entries)
          start enough_fuel in
      (
        reverse walked,
        chain_from leaves walked l w,
        record {
          leaf = leaf_of leaves;
          walked = walked;
          walk_ends = w;
          leaf_known = start;
          reversed = refl;
        },
      )
