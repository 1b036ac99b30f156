-- ===== src/Agent/RunEnd/Settled.antt =====
-- When the loop of runend.go may end by itself.
use claude_agent_sdk_go.Base.{
  ◌≡◌, ◌≢◌, refl, sym, ap, ◌∙◌, String, Option, none, any, contains, string_eq, false, Bool, true,
  false, not, ◌||◌, some, List, [], ◌∷◌, arith, str_eq, Option-cases, inl, inr,
}
use claude_agent_sdk_go.Agent.RunEnd.Consumed.{
  is_normal, is_regular, consumed, has_result, out_events, said_events, said, run-IsAfter,
}
use claude_agent_sdk_go.Messages.Activity.{SessionStateChangedMessage, session_state_idle}
use claude_agent_sdk_go.Messages.Types.{Message}
use claude_agent_sdk_go.Agent.RunEnd.{
  SessionState, set_state, track, run_over, is_nil, Event, received, closed, ceiling_passed,
  errored, cancelled, Ending, at_ceiling, RunState, on_state, on_message, round, run, start,
}

-- The ceiling is armed only after a result.
abbrev pub IsArmedRight : RunState → Type 0
IsArmedRight r = r.armed ≡ true → r.result_seen ≡ true

-- What the loop has tested where it ends by itself
pub record IsAtRest (why : Ending) (r : RunState) : Type 0 where
  pub result_seen : r.result_seen ≡ true
  pub no_agents : is_nil r.session.inflight ≡ true
  pub no_turn_owed :
      why ≢ at_ceiling
      → (not r.session.reported || str_eq r.session.state session_state_idle) ≡ true

module _ (E : Type 0) where
  -- The ceiling can pass only while it is armed.
  abbrev pub IsEnabled : List (Event E) → RunState → Type 0
  IsEnabled [] r = Unit
  IsEnabled (ceiling_passed ∷ events) r =
      (r.armed ≡ true) × IsEnabled events (round {E = E} ceiling_passed r).next
  IsEnabled (event ∷ events) r = IsEnabled events (round event r).next

  on_message-IsArmedRight :
      (msg : Message) (accepts : Bool) (r : RunState)
      → IsArmedRight r
      → IsArmedRight (on_message {E = E} msg accepts r).next
  unfolding on_message track
  on_message-IsArmedRight msg accepts r h = ground arith

  on_state-IsArmedRight :
      (msg : Message) (c : SessionStateChangedMessage) (accepts : Bool) (r : RunState)
      → IsArmedRight r
      → IsArmedRight (on_state {E = E} msg c accepts r).next
  unfolding on_state set_state
  on_state-IsArmedRight msg c accepts r h = ground arith

  round-IsArmedRight :
      (event : Event E) (r : RunState) → IsArmedRight r → IsArmedRight (round event r).next
  unfolding round
  round-IsArmedRight (received msg accepts) r h = elim (Option-cases msg.session_state_changed) [
    | inl e ↦ rw (e, round) (on_message-IsArmedRight msg accepts r h)
    | inr (c, e) ↦ rw (e, round) (on_state-IsArmedRight msg c accepts r h)
  ]
  round-IsArmedRight ceiling_passed r h = ground arith
  round-IsArmedRight _ r h = h

  on_message-IsAtRest :
      (msg : Message) (accepts : Bool) (r : RunState) (why : Ending)
      → (on_message {E = E} msg accepts r).ending ≡ some why
      → is_normal why ≡ true
      → IsAtRest why (on_message {E = E} msg accepts r).next
  unfolding on_message run_over
  on_message-IsAtRest msg accepts r why e n = ground arith

  on_state-IsAtRest :
      (msg : Message) (c : SessionStateChangedMessage) (accepts : Bool) (r : RunState)
      (why : Ending)
      → (on_state {E = E} msg c accepts r).ending ≡ some why
      → is_normal why ≡ true
      → IsAtRest why (on_state {E = E} msg c accepts r).next
  unfolding on_state set_state
  on_state-IsAtRest msg c accepts r why e n = ground arith

  ceiling-IsAtRest :
      (r : RunState) (why : Ending)
      → r.armed ≡ true
      → IsArmedRight r
      → (round {E = E} ceiling_passed r).ending ≡ some why
      → IsAtRest why (round {E = E} ceiling_passed r).next
  unfolding round
  ceiling-IsAtRest r why armed h e = ground (arith, h armed)

  round-IsAtRest :
      (event : Event E) (r : RunState) (why : Ending)
      → IsEnabled (event ∷ []) r
      → IsArmedRight r
      → (round event r).ending ≡ some why
      → is_normal why ≡ true
      → IsAtRest why (round event r).next
  unfolding round
  round-IsAtRest (received msg accepts) r why on h e n =
      elim (Option-cases msg.session_state_changed) [
        | inl p ↦ rw (p, round) (on_message-IsAtRest msg accepts r why (rw (p, round) at e) n)
        | inr (c, p) ↦ rw (p, round) (on_state-IsAtRest msg c accepts r why (rw (p, round) at e) n)
      ]
  round-IsAtRest (closed x) r why on h e n = ground arith
  round-IsAtRest ceiling_passed r why on h e n = ceiling-IsAtRest r why on.0 h e
  round-IsAtRest (errored x) r why on h e n = ground arith
  round-IsAtRest (cancelled x) r why on h e n = ground arith

  IsEnabled-head :
      (event : Event E) (events : List (Event E)) (r : RunState)
      → IsEnabled (event ∷ events) r
      → IsEnabled (event ∷ []) r × IsEnabled events (round event r).next
  IsEnabled-head ceiling_passed events r on = ((on.0, tt), on.1)
  IsEnabled-head (received msg accepts) events r on = (tt, on)
  IsEnabled-head (closed x) events r on = (tt, on)
  IsEnabled-head (errored x) events r on = (tt, on)
  IsEnabled-head (cancelled x) events r on = (tt, on)

  run-IsAtRest :
      (events : List (Event E)) (r : RunState) (why : Ending)
      → IsEnabled events r
      → IsArmedRight r
      → (run events r).ending ≡ some why
      → is_normal why ≡ true
      → IsAtRest why (run events r).next
  unfolding run
  run-IsAtRest [] r why on h e n = cc
  run-IsAtRest (event ∷ events) r why on h e n =
      let (here, later) = IsEnabled-head event events r on in
      elim (Option-cases (round event r).ending) [
        | inl goes ↦
            rw (goes, run)
              (run-IsAtRest events (round event r).next why later (round-IsArmedRight event r h)
                (rw (goes, run) at e) n)
        | inr (w, ends) ↦ rw (ends, run) (round-IsAtRest event r why here h (rw (ends, run) at e) n)
      ]

-- The CLI said "idle" last, or never said anything.
abbrev pub owes_no_turn : Option String → Bool
owes_no_turn none = true
owes_no_turn (some state) = str_eq state session_state_idle

-- What the events that the run consumed say: the CLI sent a result; every background agent, those that
-- an earlier Query left out included, has ended; and, but for the ceiling, no turn is owed.
pub record IsSettled {E : Type 0} (why : Ending) (s : SessionState) (events : List (Event E))
    : Type 0 where
  pub has_result : any has_result events ≡ true
  pub no_agents : (id : String) → out_events id (contains s.inflight id) events ≡ false
  pub no_turn_owed : why ≢ at_ceiling → owes_no_turn (said_events (said s) events) ≡ true

none_in : (id : String) (ids : List String) → is_nil ids ≡ true → contains ids id ≡ false
none_in id [] h = refl
none_in id (x ∷ xs) h = absurd (cc)

owes-said :
    (s : SessionState)
    → owes_no_turn (said s) ≡ (not s.reported || str_eq s.state session_state_idle)
owes-said s = ground arith

-- A Query ends by itself, whatever the interleaving, only when among the events it consumed is a result
-- of the CLI, and by them no background agent is out; and, unless it ends at the ceiling, only
-- when the state that the CLI said last is "idle", or it never said one.
pub query_ends-IsSettled :
    {E : Type 0} (events : List (Event E)) (s : SessionState) (why : Ending)
    → IsEnabled E events (start s)
    → (run events (start s)).ending ≡ some why
    → is_normal why ≡ true
    → IsSettled why s (consumed events (start s))
query_ends-IsSettled {E} events s why on e n =
    let rest = run-IsAtRest E events (start s) why on (λ armed. cc) e n in
    let after = run-IsAfter events (start s) (ap is_regular e ∙ n) in
    record {
      has_result = sym after.seen ∙ rest.result_seen;
      no_agents = λ id. sym (after.out id) ∙ none_in id _ rest.no_agents;
      no_turn_owed = λ h.
          ap owes_no_turn (sym after.state)
          ∙ owes-said (run events (start s)).next.session
          ∙ rest.no_turn_owed h;
    }
