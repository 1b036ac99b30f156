-- ===== src/Agent/Query.antt =====
-- domains/agent/query.go: Query. What each step gives comes with the call, an error or none: validateOptions,
-- the start of the subprocess (none as well where the options have a transport), initialize, and the
-- Send of the prompt. A run is the list of what the iterator does, in order.
use claude_agent_sdk_go.Base.{
  ℕ, suc, ◌≡◌, refl, String, Bool, true, false, Option, none, some, List, [], ◌∷◌, ◌++◌,
}

pub data Event : Type 0 where
  opened : Event
  closed : Event
  prompted : String → Event
  ran : Event
  yielded_error : String → Event

-- After initialize
abbrev after_initialize : String → Option String → List Event
after_initialize prompt (some e) = prompted prompt ∷ yielded_error e ∷ []
after_initialize prompt none = prompted prompt ∷ ran ∷ []

-- With the session manager, which the deferred Close ends
unfoldable pub with_manager : String → Option String → Option String → List Event
with_manager prompt (some e) sent = opened ∷ yielded_error e ∷ closed ∷ []
with_manager prompt none sent = opened ∷ after_initialize prompt sent ++ (closed ∷ [])

abbrev with_transport : String → Option String → Option String → Option String → List Event
unfolding with_manager
with_transport prompt (some e) initialized sent = yielded_error e ∷ []
with_transport prompt none initialized sent = with_manager prompt initialized sent

-- Query
unfoldable pub query :
    String → Option String → Option String → Option String → Option String → List Event
unfolding with_transport
query prompt (some e) started initialized sent = yielded_error e ∷ []
query prompt none started initialized sent = with_transport prompt started initialized sent

-- The rounds of run, and the errors that a Query yields before it
abbrev pub outcomes : List Event → ℕ
outcomes [] = 0
outcomes (ran ∷ es) = suc (outcomes es)
outcomes (yielded_error e ∷ es) = suc (outcomes es)
outcomes (_ ∷ es) = outcomes es

-- Whether a session is open after the events, from whether one is before them; none is a Close without
-- a session or a second session.
abbrev pub open_after : Bool → List Event → Option Bool
open_after b [] = some b
open_after true (opened ∷ es) = none
open_after false (opened ∷ es) = open_after true es
open_after true (closed ∷ es) = open_after false es
open_after false (closed ∷ es) = none
open_after b (_ ∷ es) = open_after b es

-- A Query does one thing of the two, run its session or yield one error, whichever step fails, and no
-- session that it opens is open at its end.
pub query_once :
    (prompt : String) (invalid started initialized sent : Option String)
    → (outcomes (query prompt invalid started initialized sent) ≡ 1)
      × (open_after false (query prompt invalid started initialized sent) ≡ some false)
unfolding query with_manager
query_once prompt (some e) started initialized sent = (refl, refl)
query_once prompt none (some e) initialized sent = (refl, refl)
query_once prompt none none (some e) sent = (refl, refl)
query_once prompt none none none (some e) = (refl, refl)
query_once prompt none none none none = (refl, refl)
