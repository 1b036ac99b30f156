-- ===== src/Tests/Mirrors.antt =====
-- A mirror in front of a store that fails twice, and the paths of a projects directory.
use claude_agent_sdk_go.Base.{
  ℕ, zero, suc, string_eq, String, ◌≡◌, refl, Bool, true, false, Option, none, some, List, [], ◌∷◌,
  ◌++◌, str_eq, if◌then◌else◌,
}
use claude_agent_sdk_go.Base.Assoc.{get, put}
use claude_agent_sdk_go.Json.{str, end, field}
use claude_agent_sdk_go.Sessions.Types.{Entry, SessionKey}
use claude_agent_sdk_go.Text.Parts.{join, has_char}
use claude_agent_sdk_go.Agent.Path.{session_key_for_path}
use claude_agent_sdk_go.Agent.Path.RoundTrip.{session_key_for_path-sub}
use claude_agent_sdk_go.Agent.Mirror.{
  TranscriptMirror, flush, flush_batches, new_transcript_mirror, Backend, Attempt, appended, failed,
  mirror_append, attempts, attempt, group, enqueue,
}
use claude_agent_sdk_go.Agent.Mirror.Batches.{new-IsBounded, enqueue-IsBounded, IsBounded}
use claude_agent_sdk_go.Agent.Mirror.Flushed.{AreBatches, keyed, keyless, flush_lem}
use claude_agent_sdk_go.Agent.Mirror.Retries.{Landed, mirror_append-Landed}

abbrev key : SessionKey
key = record { project_key = "p"; session_id = "s"; subpath = "" }

abbrev line : Entry
line = field "type" (str "user") end

abbrev fail_then_append : ℕ → Attempt × ℕ
fail_then_append zero = (appended, 0)
fail_then_append (suc n) = (failed "unavailable" false, n)

-- It fails as often as its state says.
abbrev flaky : Backend ℕ
flaky = record { append = λ k es n. fail_then_append n; wait = λ k n. (true, n) }

abbrev Log : Type 0
Log = List (SessionKey × List Entry)

-- A store that keeps the batches as they come
abbrev keeper : Backend Log
keeper = record { append = λ k es s. (appended, s ++ (k, es) ∷ []); wait = λ k s. (true, s) }

-- Two items of one path, with another between them that has no key
abbrev three : TranscriptMirror
three = record {
  eager = false;
  pending =
      record { path = "a"; entries = line ∷ [] }
      ∷ record { path = "x"; entries = line ∷ [] }
      ∷ record { path = "a"; entries = line ∷ line ∷ [] }
      ∷ [];
  entries = 4;
  bytes = 80;
}

abbrev key_of : String → Option SessionKey
key_of path = if str_eq path "a" then some key else none

abbrev no_key : String → String
no_key path = "no key"

kept_batches : (flush keeper key_of no_key three []).2 ≡ (key, line ∷ line ∷ line ∷ []) ∷ []
unfolding flush flush_batches mirror_append attempts attempt group get put
kept_batches = refl

flush_lem_example :
    (batches : List (String × List Entry)) × AreBatches three.pending batches
    × ((flush keeper key_of no_key three []).1 ≡ keyless key_of no_key batches)
    × ((flush keeper key_of no_key three []).2 ≡ [] ++ keyed key_of no_key batches)
    × ((flush keeper key_of no_key three []).0.pending ≡ [])
flush_lem_example =
    flush_lem key_of no_key keeper (λ s. s) (λ k es s. refl) (λ k es s. refl) three []

third_time_works : (mirror_append flaky key (line ∷ []) 2).0 ≡ none
unfolding mirror_append attempts attempt
third_time_works = refl

mirror_append-Landed_example :
    Landed flaky key (line ∷ []) (mirror_append flaky key (line ∷ []) 2).1
mirror_append-Landed_example = mirror_append-Landed flaky key (line ∷ []) 2 third_time_works

enqueue-IsBounded_example :
    IsBounded
      (λ es. 600000)
      (enqueue flaky
        (λ path. some key)
        (λ path. "no key")
        (λ es. 600000)
        "a"
        (line ∷ [])
        (new_transcript_mirror false)
        2).0
enqueue-IsBounded_example =
    enqueue-IsBounded (λ es. 600000) flaky (λ path. some key) (λ path. "no key") "a" (line ∷ [])
      (new_transcript_mirror false) 2 (new-IsBounded (λ es. 600000) false)

abbrev rel : String → String → Option String
rel dir path = some path

abbrev is_abs : String → Bool
is_abs path = false

session_key_for_path-sub_example :
    session_key_for_path rel is_abs "p/s/subagents/agent-1.jsonl" "/projects"
    ≡ some (record { project_key = "p"; session_id = "s"; subpath = "subagents/agent-1" })
unfolding join has_char
session_key_for_path-sub_example =
    session_key_for_path-sub rel is_abs "p/s/subagents/agent-1.jsonl" "/projects" "p" "s"
      "subagents" "agent-1" [] refl refl refl (refl, (refl, (refl, (refl, tt))))
