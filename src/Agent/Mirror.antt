-- ===== src/Agent/Mirror.antt =====
-- domains/agent/mirror.go: transcriptMirror. It is used from the read loop alone, so a method is a
-- function on its state. The store behind it, its clock and the context are a `Backend` over a state
-- of their own; json.Marshal is the parameter `marshal_size`, 0 for an error.
pub mod Batches
pub mod Flushed
pub mod Retries
use claude_agent_sdk_go.Base.{
  ℕ, zero, suc, ◌+◌, ◌-◌, ◌^◌, String, Bool, true, false, ◌||◌, Option, none, some, List, [], ◌∷◌,
  ◌++◌, length, ltb, string_eq, if◌then◌else◌,
}
use claude_agent_sdk_go.Base.Assoc.{get, put}
use claude_agent_sdk_go.Sessions.Types.{Entry, SessionKey}

abbrev pub mirror_max_entries : ℕ
mirror_max_entries = 500

abbrev pub mirror_max_bytes : ℕ
mirror_max_bytes = 2 ^ 20

abbrev pub mirror_attempts : ℕ
mirror_attempts = 3

pub record MirrorItem : Type 0 where
  pub path : String
  pub entries : List Entry

pub record TranscriptMirror : Type 0 where
  pub eager : Bool
  pub pending : List MirrorItem
  pub entries : ℕ
  pub bytes : ℕ

-- newTranscriptMirror
abbrev pub new_transcript_mirror : Bool → TranscriptMirror
new_transcript_mirror eager = record { eager = eager; pending = []; entries = 0; bytes = 0 }

-- What a call of store.Append comes to: an error may be that of the call's own time limit.
pub data Attempt : Type 0 where
  appended : Attempt
  failed : String → Bool → Attempt

-- The store, and the wait before the n-th retry: true after the backoff, false if the context ended
-- first.
pub record Backend (S : Type 0) : Type 0 where
  pub append : SessionKey → List Entry → S → Attempt × S
  pub wait : ℕ → S → Bool × S

-- A report of a failure: the key, if the path has one, and the error
abbrev pub Report : Type 0
Report = Option SessionKey × String

abbrev pub entries_at : Option (List Entry) → List Entry
entries_at none = []
entries_at (some es) = es

-- The maps `order` and `byPath` of flush, in one: a path is put where it is first seen.
unfoldable pub group : List MirrorItem → List (String × List Entry) → List (String × List Entry)
group [] batches = batches
group (it ∷ items) batches =
    group items (put it.path (entries_at (get it.path batches) ++ it.entries) batches)

module _ {S : Type 0} (b : Backend S) where
  -- One call of store.Append, and what follows it: `rest` is the loop's next round.
  unfoldable pub attempt :
      (Option String → S → Option String × S) → SessionKey → List Entry → S → Option String × S
  attempt rest key entries s =
      let (outcome, s') = b.append key entries s in
      elim outcome [
        | appended ↦ (none, s')
        | failed e timed_out ↦ elim timed_out [ true ↦ (some e, s') | false ↦ rest (some e) s' ]
      ]

  -- The loop of transcriptMirror.append, with the attempts that are left and the last error
  unfoldable pub attempts : ℕ → SessionKey → List Entry → Option String → S → Option String × S
  attempts zero key entries err s = (err, s)
  attempts (suc left) key entries err s =
      let retry = attempt (attempts left key entries) key entries in
      if ltb (suc left) mirror_attempts
      then (let (waited, s') = b.wait (mirror_attempts - suc left) s in
          elim waited [ true ↦ retry s' | false ↦ (err, s') ])
      else retry s

  -- transcriptMirror.append: the error, if any
  unfoldable pub mirror_append : SessionKey → List Entry → S → Option String × S
  mirror_append key entries s = attempts mirror_attempts key entries none s

  module _ (key_for_path : String → Option SessionKey) (no_key : String → String) where
    -- The loop of flush over the paths; `no_key` is the report's text for a path without a key.
    unfoldable pub flush_batches : List (String × List Entry) → S → List Report × S
    flush_batches [] s = ([], s)
    flush_batches ((path, entries) ∷ batches) s = elim (key_for_path path) [
      | none ↦ let (reports, s') = flush_batches batches s in ((none, no_key path) ∷ reports, s')
      | some key ↦
          let (err, s₁) = mirror_append key entries s in
          let (reports, s₂) = flush_batches batches s₁ in
          elim err [ none ↦ (reports, s₂) | some e ↦ ((some key, e) ∷ reports, s₂) ]
    ]

    -- transcriptMirror.flush
    unfoldable pub flush : TranscriptMirror → S → TranscriptMirror × List Report × S
    flush m s =
        let (reports, s') = flush_batches (group m.pending []) s in
        (record m { pending = []; entries = 0; bytes = 0 }, reports, s')

    -- transcriptMirror.enqueue
    unfoldable pub enqueue :
        (List Entry → ℕ)
        → String
        → List Entry
        → TranscriptMirror
        → S
        → TranscriptMirror × List Report × S
    enqueue marshal_size path [] m s = (m, [], s)
    enqueue marshal_size path (e ∷ es) m s =
        let m' : TranscriptMirror = record m {
          pending = m.pending ++ record { path = path; entries = e ∷ es } ∷ [];
          entries = m.entries + length (e ∷ es);
          bytes = m.bytes + marshal_size (e ∷ es);
        } in
        if m.eager || ltb mirror_max_entries m'.entries || ltb mirror_max_bytes m'.bytes
        then flush m' s
        else (m', [], s)
