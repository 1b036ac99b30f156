-- ===== src/Agent/Mirror/Batches.antt =====
-- What transcriptMirror holds between calls, and what a flush hands to the store.
use claude_agent_sdk_go.Base.{
  ℕ, ◌+◌, ◌≤◌, String, ◌≡◌, refl, ◌∙◌, sym, Bool, true, false, ◌||◌, Option, List, [], ◌∷◌, ◌++◌,
  append-nil, subst, eq_refl, append_assoc, length, ltb, arith, string_eq, eq_iff, str_eq,
  if◌then◌else◌, inl, inr, Bool-cases,
}
use claude_agent_sdk_go.Base.Assoc.{get, put, get-put, get-put_self, Distinct, put-Distinct}
use claude_agent_sdk_go.Sessions.Types.{Entry, SessionKey}
use claude_agent_sdk_go.Agent.Mirror.{
  MirrorItem, TranscriptMirror, new_transcript_mirror, mirror_max_entries, mirror_max_bytes,
  Backend, entries_at, group, flush, enqueue,
}

-- The entries of the items at one path, in the order in which they came
pub entries_for : String → List MirrorItem → List Entry
entries_for path [] = []
entries_for path (it ∷ items) =
    let rest = entries_for path items in if str_eq it.path path then it.entries ++ rest else rest

put_self :
    (path : String) (es rest : List Entry) (batches : List (String × List Entry))
    → entries_at (get path (put path (entries_at (get path batches) ++ es) batches)) ++ rest
      ≡ entries_at (get path batches) ++ (if str_eq path path then es ++ rest else rest)
put_self path es rest batches =
    rw (get-put_self {K = String} path, eq_refl path)
      (append_assoc (entries_at (get path batches)) es rest)

-- What adding the entries of a path `k` does to the batch of `path`
put_entries :
    (k path : String) (es rest : List Entry) (batches : List (String × List Entry))
    → entries_at (get path (put k (entries_at (get k batches) ++ es) batches)) ++ rest
      ≡ entries_at (get path batches) ++ (if str_eq k path then es ++ rest else rest)
put_entries k path es rest batches = elim (Bool-cases (str_eq k path)) [
  | inl same ↦
      subst
        (λ j.
          entries_at (get j (put k (entries_at (get k batches) ++ es) batches)) ++ rest
          ≡ entries_at (get j batches) ++ (if str_eq k j then es ++ rest else rest))
        ((eq_iff k path).0 same) (put_self k es rest batches)
  | inr other ↦ simp (get-put, other)
]

get-group :
    (path : String) (items : List MirrorItem) (batches : List (String × List Entry))
    → entries_at (get path (group items batches))
      ≡ entries_at (get path batches) ++ entries_for path items
unfolding group entries_for
get-group path [] batches = sym (append-nil (entries_at (get path batches)))
get-group path (it ∷ items) batches =
    get-group path items (put it.path (entries_at (get it.path batches) ++ it.entries) batches)
    ∙ put_entries it.path path it.entries (entries_for path items) batches

group-Distinct :
    (items : List MirrorItem) (batches : List (String × List Entry))
    → Distinct batches
    → Distinct (group items batches)
unfolding group
group-Distinct [] batches d = d
group-Distinct (it ∷ items) batches d =
    group-Distinct items _
      (put-Distinct it.path (entries_at (get it.path batches) ++ it.entries) batches d)

-- The batches of a flush have no path twice, and the batch of a path is all the pending entries of that
-- path in the order in which they came.
pub group_lem :
    (items : List MirrorItem)
    → Distinct (group items [])
      × ((path : String) → entries_at (get path (group items [])) ≡ entries_for path items)
unfolding get
group_lem items = (group-Distinct items [] tt, λ path. get-group path items [])

pub total_entries : List MirrorItem → ℕ
total_entries [] = 0
total_entries (it ∷ items) = length it.entries + total_entries items

module _ (marshal_size : List Entry → ℕ) where
  pub total_bytes : List MirrorItem → ℕ
  total_bytes [] = 0
  total_bytes (it ∷ items) = marshal_size it.entries + total_bytes items

  -- The counters are those of what is pending, which stays within the limits; an eager mirror holds
  -- nothing back.
  pub record IsBounded (m : TranscriptMirror) : Type 0 where
    pub entries_counted : m.entries ≡ total_entries m.pending
    pub bytes_counted : m.bytes ≡ total_bytes m.pending
    pub few_entries : m.entries ≤ mirror_max_entries
    pub few_bytes : m.bytes ≤ mirror_max_bytes
    pub eager_empty : m.eager ≡ true → m.pending ≡ []

  total_entries-append :
      (items : List MirrorItem) (it : MirrorItem)
      → total_entries (items ++ it ∷ []) ≡ total_entries items + length it.entries
  unfolding total_entries
  total_entries-append [] it = omega arith
  total_entries-append (x ∷ items) it = omega (arith, total_entries-append items it)

  total_bytes-append :
      (items : List MirrorItem) (it : MirrorItem)
      → total_bytes (items ++ it ∷ []) ≡ total_bytes items + marshal_size it.entries
  unfolding total_bytes
  total_bytes-append [] it = omega arith
  total_bytes-append (x ∷ items) it = omega (arith, total_bytes-append items it)

  pub new-IsBounded : (eager : Bool) → IsBounded (new_transcript_mirror eager)
  unfolding total_entries total_bytes
  new-IsBounded eager = record {
    entries_counted = refl;
    bytes_counted = refl;
    few_entries = omega arith;
    few_bytes = omega arith;
    eager_empty = λ e. refl;
  }

  module _ {S : Type 0} (b : Backend S) (key_for_path : String → Option SessionKey)
      (no_key : String → String) where
    flush-IsBounded : (m : TranscriptMirror) (s : S) → IsBounded (flush b key_for_path no_key m s).0
    unfolding flush total_entries total_bytes
    flush-IsBounded m s = record {
      entries_counted = refl;
      bytes_counted = refl;
      few_entries = omega arith;
      few_bytes = omega arith;
      eager_empty = λ e. refl;
    }

    held-IsBounded :
        (path : String) (es : List Entry) (m : TranscriptMirror)
        → (m.eager
            || ltb mirror_max_entries (m.entries + length es)
            || ltb mirror_max_bytes (m.bytes + marshal_size es))
          ≡ false
        → IsBounded m
        → IsBounded (record m {
          pending = m.pending ++ record { path = path; entries = es } ∷ [];
          entries = m.entries + length es;
          bytes = m.bytes + marshal_size es;
        })
    held-IsBounded path es m room h = record {
      entries_counted = omega (
        arith,
        h.entries_counted,
        total_entries-append m.pending (record { path = path; entries = es }),
      );
      bytes_counted = omega (
        arith,
        h.bytes_counted,
        total_bytes-append m.pending (record { path = path; entries = es }),
      );
      few_entries = ground arith;
      few_bytes = ground arith;
      eager_empty = λ e. ground arith;
    }

    -- Enqueue keeps a mirror within its limits of 500 entries and 1 MiB, and an eager one empty,
    -- whatever the store does; its counters stay those of what is pending.
    pub enqueue-IsBounded :
        (path : String) (es : List Entry) (m : TranscriptMirror) (s : S)
        → IsBounded m
        → IsBounded (enqueue b key_for_path no_key marshal_size path es m s).0
    unfolding enqueue
    enqueue-IsBounded path [] m s h = h
    enqueue-IsBounded path (e ∷ es) m s h =
        elim (Bool-cases (
          m.eager
          || ltb mirror_max_entries (m.entries + length (e ∷ es))
          || ltb mirror_max_bytes (m.bytes + marshal_size (e ∷ es)))) [
            | inl full ↦ rw full (flush-IsBounded _ s)
            | inr room ↦ rw room (held-IsBounded path (e ∷ es) m room h)
          ]
