-- ===== src/Sessions/MemoryStore/Contents.antt =====
-- What Load returns after Append and Delete, and after any history of them.
use claude_agent_sdk_go.Base.{
  String, ◌≡◌, refl, ◌∙◌, ap, Option, List, [], ◌∷◌, ◌++◌, append-nil, if_true, ℤ, arith, ◌==◌,
  if◌then◌else◌, Bool-cases, inl, inr,
}
use claude_agent_sdk_go.Base.{equal_refl}
use claude_agent_sdk_go.Base.Assoc.{get, get-put, get-del}
use claude_agent_sdk_go.Sessions.Types.{Entry, SessionKey, session_key_eq}
use claude_agent_sdk_go.Sessions.MemoryStore.{
  MemorySessionStore, new_memory_session_store, append_batch, append, load, covers, delete,
}

module _ (parse_time : String → Option ℤ) where
  -- Append adds its batch after the entries of its key, and changes no other transcript.
  pub load-append :
      (now : ℤ) (key j : SessionKey) (es : List Entry) (m : MemorySessionStore)
      → load j (append parse_time now key es m) ≡ (if key == j then load key m ++ es else load j m)
  unfolding load append append_batch
  load-append now key j [] m = elim (Bool-cases (key == j)) [
    | inl same ↦
        rw (append-nil (load key m))
          (ground (arith, ap (λ k. load k m) ((session_key_eq.equal_iff key j).0 same)))
    | inr other ↦ rw other refl
  ]
  load-append now key j (e ∷ es) m = simp get-put (ground arith)

-- Delete empties the transcripts that its key covers, and changes no other.
pub load-delete :
    (key j : SessionKey) (m : MemorySessionStore)
    → load j (delete key m) ≡ (if covers key j then [] else load j m)
unfolding load delete
load-delete key j m = simp get-del (ground arith)

-- A call that changes the store
pub data Op : Type 0 where
  appends : ℤ → SessionKey → List Entry → Op
  deletes : SessionKey → Op

-- What a transcript holds after a history: the batches appended under its key, in order and whole,
-- since the last Delete that covers it. An entry whose uuid it holds already is held again.
unfoldable pub contents_after : SessionKey → List Entry → List Op → List Entry
contents_after k held [] = held
contents_after k held (appends now key es ∷ ops) =
    contents_after k (if key == k then held ++ es else held) ops
contents_after k held (deletes key ∷ ops) = contents_after k (if covers key k then [] else held) ops

module _ (parse_time : String → Option ℤ) where
  unfoldable pub run : MemorySessionStore → List Op → MemorySessionStore
  run m [] = m
  run m (appends now key es ∷ ops) = run (append parse_time now key es m) ops
  run m (deletes key ∷ ops) = run (delete key m) ops

  load-run :
      (k : SessionKey) (m : MemorySessionStore) (ops : List Op)
      → load k (run m ops) ≡ contents_after k (load k m) ops
  unfolding run contents_after
  load-run k m [] = refl
  load-run k m (appends now key es ∷ ops) =
      load-run k (append parse_time now key es m) ops
      ∙ ap (λ held. contents_after k held ops)
          (load-append parse_time now key k es m ∙ held_under now key es)
    where
      held_under :
          ℤ
          → (key : SessionKey) (es : List Entry)
          → (if key == k then load key m ++ es else load k m)
            ≡ (if key == k then load k m ++ es else load k m)
      held_under now key es = elim (Bool-cases (key == k)) [
        | inl same ↦ rw same (ap (λ j. load j m ++ es) ((session_key_eq.equal_iff key k).0 same))
        | inr other ↦ rw other refl
      ]
  load-run k m (deletes key ∷ ops) =
      load-run k (delete key m) ops ∙ ap (λ held. contents_after k held ops) (load-delete key k m)

  run-append :
      (m : MemorySessionStore) (ops more : List Op) → run m (ops ++ more) ≡ run (run m ops) more
  unfolding run
  run-append m [] more = refl
  run-append m (appends now key es ∷ ops) more =
      run-append (append parse_time now key es m) ops more
  run-append m (deletes key ∷ ops) more = run-append (delete key m) ops more

  load-run-append :
      (k : SessionKey) (ops : List Op) (now : ℤ) (es : List Entry)
      → load k (run new_memory_session_store (ops ++ appends now k es ∷ []))
        ≡ load k (run new_memory_session_store ops) ++ es
  unfolding run
  load-run-append k ops now es =
      let m = run new_memory_session_store ops in
      ap (load k) (run-append new_memory_session_store ops (appends now k es ∷ []))
      ∙ load-append parse_time now k k es m
      ∙ if_true _ _ _ (equal_refl k)

  -- After any history of appends and deletes of a new store, Load of any key returns exactly the batches
  -- appended under it since the last Delete that covers it, in order and whole; and one Append more
  -- adds all its entries, those with a uuid that the store holds already included.
  pub load-run-new :
      (k : SessionKey) (ops : List Op)
      → (load k (run new_memory_session_store ops) ≡ contents_after k [] ops)
        × ((now : ℤ) (es : List Entry)
            → load k (run new_memory_session_store (ops ++ appends now k es ∷ []))
              ≡ load k (run new_memory_session_store ops) ++ es)
  unfolding load get
  load-run-new k ops = (load-run k new_memory_session_store ops, load-run-append k ops)
