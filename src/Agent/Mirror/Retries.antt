-- ===== src/Agent/Mirror/Retries.antt =====
-- How often transcriptMirror.append calls the store, and what its result says.
use claude_agent_sdk_go.Base.{
  ℕ, zero, suc, ◌+◌, ◌-◌, ◌≤◌, String, ◌≡◌, refl, true, false, Option, none, some, List, arith, ltb,
  ◌⊎◌, inl, inr, Bool-cases,
}
use claude_agent_sdk_go.Sessions.Types.{Entry, SessionKey}
use claude_agent_sdk_go.Agent.Mirror.{
  Attempt, appended, failed, Backend, attempt, attempts, mirror_append, mirror_attempts,
}

Attempt-cases :
    (a : Attempt)
    → (a ≡ appended)
      ⊎ (((e : String) × (a ≡ failed e true)) ⊎ ((e : String) × (a ≡ failed e false)))
Attempt-cases appended = inl refl
Attempt-cases (failed e true) = inr (inl (e, refl))
Attempt-cases (failed e false) = inr (inr (e, refl))

module _ {S : Type 0} (b : Backend S) where
  -- The same store, with the calls of Append counted
  abbrev pub counted : Backend (ℕ × S)
  counted = record {
    append =
        λ key entries (n, s). let (outcome, s') = b.append key entries s in (outcome, (n + 1, s'));
    wait = λ k (n, s). let (waited, s') = b.wait k s in (waited, (n, s'));
  }

  -- What a round that retries adds
  attempt_bound :
      (rest : Option String → ℕ × S → Option String × (ℕ × S)) (left : ℕ)
      → ((err : Option String) (s : ℕ × S) → (rest err s).1.0 ≤ s.0 + left)
      → (key : SessionKey) (entries : List Entry) (s : ℕ × S)
      → (attempt counted rest key entries s).1.0 ≤ s.0 + suc left
  unfolding attempt
  attempt_bound rest left h key entries (n, s) = elim (Attempt-cases (b.append key entries s).0) [
    | inl e ↦ rw (e, attempt) (omega arith)
    | inr (inl (x, e)) ↦ rw (e, attempt) (omega arith)
    | inr (inr (x, e)) ↦
        rw (e, attempt) (omega (arith, h (some x) (n + 1, (b.append key entries s).1)))
  ]

  attempts_bound :
      (left : ℕ) (key : SessionKey) (entries : List Entry) (err : Option String) (s : ℕ × S)
      → (attempts counted left key entries err s).1.0 ≤ s.0 + left
  unfolding attempts
  attempts_bound zero key entries err s = omega arith
  attempts_bound (suc left) key entries err s =
      let again =
        attempt_bound (attempts counted left key entries) left (attempts_bound left key entries) key
          entries in
      let waited = counted.wait (mirror_attempts - suc left) s in
      elim (Bool-cases (ltb (suc left) mirror_attempts)) [
        | inr first ↦ rw first (again s)
        | inl retry ↦ elim (Bool-cases waited.0) [
          | inl on ↦ rw (retry, on) (again waited.1)
          | inr over ↦ rw (retry, over) (omega arith)
        ]
      ]

  -- Append is called at most three times for a batch.
  pub mirror_append_bound :
      (key : SessionKey) (entries : List Entry) (s : S)
      → (mirror_append counted key entries (0, s)).1.0 ≤ 3
  unfolding mirror_append
  mirror_append_bound key entries s = attempts_bound 3 key entries none (0, s)

  -- The last call of Append succeeded, and left the state `s`.
  abbrev pub Landed : SessionKey → List Entry → S → Type 0
  Landed key entries s =
      (before : S) × ((b.append key entries before).0 ≡ appended)
      × (s ≡ (b.append key entries before).1)

  attempt-Landed :
      (rest : Option String → S → Option String × S) (key : SessionKey) (entries : List Entry)
      → ((e : String) (s : S) → (rest (some e) s).0 ≡ none → Landed key entries (rest (some e) s).1)
      → (s : S) → (attempt b rest key entries s).0 ≡ none
      → Landed key entries (attempt b rest key entries s).1
  unfolding attempt
  attempt-Landed rest key entries again s h = elim (Attempt-cases (b.append key entries s).0) [
    | inl e ↦ (s, e, rw (e, attempt) refl)
    | inr (inl (x, e)) ↦ absurd (failed_now x (rw (e, attempt) at h))
    | inr (inr (x, e)) ↦ rw (e, attempt) (again x (b.append key entries s).1 (rw (e, attempt) at h))
  ]
    where
      failed_now : (x : String) → some x ≡ none → ⊥
      failed_now x p = cc

  attempts-Landed :
      (left : ℕ) (key : SessionKey) (entries : List Entry) (e : String) (s : S)
      → (attempts b left key entries (some e) s).0 ≡ none
      → Landed key entries (attempts b left key entries (some e) s).1
  unfolding attempts
  attempts-Landed zero key entries e s h = cc
  attempts-Landed (suc left) key entries e s h =
      let again =
        attempt-Landed (attempts b left key entries) key entries
          (attempts-Landed left key entries) in
      let waited = b.wait (mirror_attempts - suc left) s in
      elim (Bool-cases (ltb (suc left) mirror_attempts)) [
        | inr first ↦ rw first (again s (rw first at h))
        | inl retry ↦ elim (Bool-cases waited.0) [
          | inl on ↦ rw (retry, on) (again waited.1 (rw (retry, on) at h))
          | inr over ↦ absurd (stopped (rw (retry, over) at h))
        ]
      ]
    where
      stopped : some e ≡ none → ⊥
      stopped p = cc

  -- Where no error is reported, the last call of Append for the batch succeeded.
  pub mirror_append-Landed :
      (key : SessionKey) (entries : List Entry) (s : S)
      → (mirror_append b key entries s).0 ≡ none
      → Landed key entries (mirror_append b key entries s).1
  unfolding mirror_append attempts
  mirror_append-Landed key entries s h =
      attempt-Landed (attempts b 2 key entries) key entries (attempts-Landed 2 key entries) s h
