-- ===== src/Tests/Forks.antt =====
-- Forks of transcripts with progress entries, and edits through a store.
use claude_agent_sdk_go.Base.{
  eq_iff, Bool-cases, inl, inr, ℕ, ◌<◌, String, ◌≡◌, refl, true, false, Option, none, some, List,
  [], ◌∷◌, ◌++◌, string_eq, arith, ℤ, str_eq, if◌then◌else◌,
}
use claude_agent_sdk_go.Base.Assoc
use claude_agent_sdk_go.Json.{str, end, field, get, index}
use claude_agent_sdk_go.Text.{trim_space, is_empty}
use claude_agent_sdk_go.Sessions.Types.{Entry, SessionKey}
use claude_agent_sdk_go.Sessions.Summary.{fold_entries}
use claude_agent_sdk_go.Sessions.Chain.{parent_uuid}
use claude_agent_sdk_go.Sessions.Fork.{fork_parent, fork_entries, is_progress}
use claude_agent_sdk_go.Sessions.Fork.Parents.{fork_parent-ring}
use claude_agent_sdk_go.Sessions.Fork.Copies.{fork_entries_total, AreCopies}
use claude_agent_sdk_go.Sessions.Edits.{
  rename_session, is_session_id, report, main_of, sanitize_unicode,
}
use claude_agent_sdk_go.Sessions.Edits.Shown.{rename_session-shows}

abbrev progress : String → String → Entry
progress uuid parent =
    field "type" (str "progress") (field "uuid" (str uuid) (field "parentUuid" (str parent) end))

abbrev user : String → String → Entry
user uuid parent =
    field "type" (str "user") (field "uuid" (str uuid) (field "parentUuid" (str parent) end))

-- Two progress entries, each the parent of the other
abbrev ring : List (String × Entry)
ring = ("a", progress "a" "b") ∷ ("b", progress "b" "a") ∷ []

fork_parent-ring_example : fork_parent 1000 ring [] "a" ≡ none
unfolding Assoc.get get index
fork_parent-ring_example =
    fork_parent-ring ring [] ("a" ∷ "b" ∷ []) 1000 "a"
      (
        (refl, (progress "a" "b", refl, refl, refl)),
        ((refl, (progress "b" "a", refl, refl, refl)), tt),
      )
      refl

abbrev line : List (String × Entry)
line = ("a", user "a" "") ∷ ("b", progress "b" "a") ∷ ("c", user "c" "b") ∷ []

abbrev rank : String → ℕ
rank s = if str_eq s "b" then 1 else 0

abbrev fresh : List (String × String)
fresh = ("a", "A") ∷ ("b", "B") ∷ ("c", "C") ∷ []

falls :
    (q : String) (p : Entry)
    → Assoc.get q line ≡ some p
    → is_progress p ≡ true
    → rank (parent_uuid p) < rank q
unfolding Assoc.get get index
falls q p h k = elim (Bool-cases (str_eq "b" q)) [
  | inl same ↦ ground (arith, h, k, same, eq_iff "b" q, eq_iff "a" q, eq_iff q "b")
  | inr other ↦ ground (arith, h, k, other)
]

room : (q : String) → rank q < 2
room q = ground arith

abbrev new_uuid : ℕ → String
new_uuid n = "new"

abbrev originals : List Entry
originals = user "a" "" ∷ user "c" "b" ∷ []

fork_entries_total_example :
    (copies : List Entry) × (fork_entries new_uuid 2 line fresh "s" "f" "now" originals
      ≡ some copies)
    × AreCopies line fresh "s" "f" originals copies
fork_entries_total_example =
    fork_entries_total new_uuid line fresh "s" "f" "now" rank 2 originals falls room

abbrev append_all : SessionKey → List Entry → List Entry → Option String × List Entry
append_all key es s = (none, s ++ es)

abbrev parse_time : String → Option ℤ
parse_time s = none

abbrev session : String
session = "01234567-89ab-cdef-0123-456789ABCDEF"

session_valid : is_session_id session ≡ true
unfolding is_session_id
session_valid = refl

title_visible : is_empty (trim_space " t ") ≡ false
unfolding trim_space
title_visible = refl

tag_visible : is_empty (trim_space (sanitize_unicode (λ c. true) "t")) ≡ false
unfolding trim_space sanitize_unicode
tag_visible = refl

rename_session-shows_example :
    (e : Entry) × (rename_session append_all "u" "now" "p" session " t " []
      ≡ (let r = append_all (main_of "p" session) (e ∷ []) [] in (report r.0, r.1)))
    × ((es : List Entry)
        → get "custom_title" (fold_entries parse_time end (es ++ e ∷ []))
          ≡ some (str (trim_space " t ")))
rename_session-shows_example =
    rename_session-shows append_all parse_time "u" "now" "p" session " t " [] session_valid
      title_visible
