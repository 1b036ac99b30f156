-- ===== src/Agent/Mirror/Flushed.antt =====
-- What a flush of transcriptMirror appends and reports, for a store that does not fail.
use claude_agent_sdk_go.Base.{
  String, ◌≡◌, refl, ◌∙◌, sym, ap, Bool, true, false, ◌||◌, Option, none, some, List, [], ◌∷◌, ◌++◌,
  any, append-nil, append_assoc, string_eq, str_eq, arith, Option-cases, inl, inr,
}
use claude_agent_sdk_go.Base.Assoc.{get, put, get-put, Distinct}
use claude_agent_sdk_go.Sessions.Types.{Entry, SessionKey}
use claude_agent_sdk_go.Agent.Mirror.{
  MirrorItem, TranscriptMirror, Backend, appended, Report, entries_at, group, attempt, attempts,
  mirror_append, flush_batches, flush,
}
use claude_agent_sdk_go.Agent.Mirror.Batches.{entries_for, group_lem}

abbrev is_some : Option (List Entry) → Bool
is_some none = false
is_some (some es) = true

-- Whether an item is at the path
abbrev pub is_pending : String → List MirrorItem → Bool
is_pending path items = any (λ it. str_eq it.path path) items

is_some-group :
    (path : String) (items : List MirrorItem) (batches : List (String × List Entry))
    → is_some (get path (group items batches))
      ≡ (is_some (get path batches) || is_pending path items)
unfolding group
is_some-group path [] batches = ground arith
is_some-group path (it ∷ items) batches =
    let es = entries_at (get it.path batches) ++ it.entries in
    is_some-group path items (put it.path es batches)
    ∙ ap (λ o. is_some o || is_pending path items) (get-put it.path path es batches)
    ∙ ground arith

-- One batch for each path that is pending and for no other, with all its entries in the order in which
-- they came
pub record AreBatches (items : List MirrorItem) (batches : List (String × List Entry))
    : Type 0 where
  pub once : Distinct batches
  pub pending : (path : String) → is_some (get path batches) ≡ is_pending path items
  pub whole : (path : String) → entries_at (get path batches) ≡ entries_for path items

group-AreBatches : (items : List MirrorItem) → AreBatches items (group items [])
unfolding get
group-AreBatches items = record {
  once = (group_lem items).0;
  pending = λ path. is_some-group path items [];
  whole = (group_lem items).1;
}

module _ (key_for_path : String → Option SessionKey) (no_key : String → String) where
  -- The batches of the paths that have a key, under it
  abbrev pub keyed : List (String × List Entry) → List (SessionKey × List Entry)
  keyed [] = []
  keyed ((path, es) ∷ batches) = elim (key_for_path path) [
    | none ↦ keyed batches
    | some key ↦ (key, es) ∷ keyed batches
  ]

  -- The reports of the paths that have none
  abbrev pub keyless : List (String × List Entry) → List Report
  keyless [] = []
  keyless ((path, es) ∷ batches) = elim (key_for_path path) [
    | none ↦ (none, no_key path) ∷ keyless batches
    | some key ↦ keyless batches
  ]

  module _ {S : Type 0} (b : Backend S) (log : S → List (SessionKey × List Entry))
      (takes : (key : SessionKey) (es : List Entry) (s : S) → (b.append key es s).0 ≡ appended)
      (logs : (key : SessionKey) (es : List Entry) (s : S)
        → log (b.append key es s).1 ≡ log s ++ (key, es) ∷ []) where
    attempt_takes :
        (rest : Option String → S → Option String × S) (key : SessionKey) (es : List Entry) (s : S)
        → attempt b rest key es s ≡ (none, (b.append key es s).1)
    unfolding attempt
    attempt_takes rest key es s = rw (takes key es s, attempt) refl

    mirror_append_takes :
        (key : SessionKey) (es : List Entry) (s : S)
        → mirror_append b key es s ≡ (none, (b.append key es s).1)
    unfolding mirror_append attempts
    mirror_append_takes key es s = attempt_takes _ key es s

    flush_batches-cons :
        (path : String) (es : List Entry) (batches : List (String × List Entry)) (s : S)
        (key : SessionKey)
        → key_for_path path ≡ some key
        → flush_batches b key_for_path no_key ((path, es) ∷ batches) s
          ≡ flush_batches b key_for_path no_key batches (b.append key es s).1
    unfolding flush_batches
    flush_batches-cons path es batches s key found =
        rw (found, flush_batches)
          (ap
            (λ p.
              let (reports, s₂) = flush_batches b key_for_path no_key batches p.1 in
              elim p.0 [ none ↦ (reports, s₂) | some e ↦ ((some key, e) ∷ reports, s₂) ])
            (mirror_append_takes key es s))

    flush_batches_lem :
        (batches : List (String × List Entry)) (s : S)
        → ((flush_batches b key_for_path no_key batches s).0 ≡ keyless batches)
          × (log (flush_batches b key_for_path no_key batches s).1 ≡ log s ++ keyed batches)
    unfolding flush_batches
    flush_batches_lem [] s = (refl, sym (append-nil (log s)))
    flush_batches_lem ((path, es) ∷ batches) s = elim (Option-cases (key_for_path path)) [
      | inl keyless_path ↦
          let (reports, logged) = flush_batches_lem batches s in
          (
            rw (keyless_path, flush_batches, keyless) (ap (◌∷◌ (none, no_key path)) reports),
            rw (keyless_path, flush_batches, keyed) logged,
          )
      | inr (key, found) ↦
          let s₁ = (b.append key es s).1 in
          let (reports, logged) = flush_batches_lem batches s₁ in
          let step = flush_batches-cons path es batches s key found in
          (
            ap (λ r. r.0) step ∙ reports ∙ rw (found, keyless) refl,
            ap (λ r. log r.1) step
                ∙ rw (found, keyed)
                    (logged
                      ∙ ap (λ xs. xs ++ keyed batches) (logs key es s)
                      ∙ append_assoc (log s) ((key, es) ∷ []) (keyed batches)),
          )
    ]

    -- Where the store takes every Append, a flush appends one batch for each pending path that has a
    -- key, under that key and for no other path, with all the pending entries of the path in the
    -- order in which they came; it reports each pending path that has no key, and nothing else; and
    -- it leaves nothing pending.
    pub flush_lem :
        (m : TranscriptMirror) (s : S)
        → (batches : List (String × List Entry)) × AreBatches m.pending batches
          × ((flush b key_for_path no_key m s).1 ≡ keyless batches)
          × (log (flush b key_for_path no_key m s).2 ≡ log s ++ keyed batches)
          × ((flush b key_for_path no_key m s).0.pending ≡ [])
    unfolding flush
    flush_lem m s =
        let (reports, logged) = flush_batches_lem (group m.pending []) s in
        (group m.pending [], group-AreBatches m.pending, reports, logged, refl)
