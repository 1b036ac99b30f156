-- ===== src/Agent/RunEnd/Quiet.antt =====
-- A CLI that reports neither states nor agents: the loop of runend.go ends at the first result.
use claude_agent_sdk_go.Base.{
  String, ◌≡◌, true, false, none, some, List, [], ◌∷◌, ◌++◌, map, arith, All,
}
use claude_agent_sdk_go.Messages.Types.{Message, ResultMessage}
use claude_agent_sdk_go.Agent.RunEnd.{
  track, switch_track, next_inflight, run_over, Event, received, message, at_result, RunState,
  on_message, round, run,
}

-- A message that says nothing of the session's state or its agents
pub record IsPlain (msg : Message) : Type 0 where
  pub no_state : msg.session_state_changed ≡ none
  pub no_start : msg.task_started ≡ none
  pub no_level : msg.background_tasks_changed ≡ none
  pub no_notification : msg.task_notification ≡ none
  pub no_update : msg.task_updated ≡ none

-- No state reported, and no agent in flight
pub record IsQuiet (r : RunState) : Type 0 where
  pub unreported : r.session.reported ≡ false
  pub no_agents : r.session.inflight ≡ []

-- Plain messages none of which is a result
abbrev pub IsTurn : List Message → Type 0
IsTurn = All (λ msg. IsPlain msg × (msg.result ≡ none))

next_inflight-plain :
    (msg : Message) (ids : List String) → IsPlain msg → next_inflight msg ids ≡ ids
unfolding next_inflight switch_track
next_inflight-plain msg ids p = rw (p.no_start, p.no_level, p.no_notification, p.no_update)

module _ (E : Type 0) where
  abbrev pub accepted : List Message → List (Event E)
  accepted = map (λ msg. received msg true)

  round-plain :
      (msg : Message) (r : RunState)
      → IsPlain msg
      → round {E = E} (received msg true) r ≡ on_message msg true r
  unfolding round
  round-plain msg r p = simp p.no_state

  on_message-turn :
      (msg : Message) (r : RunState)
      → IsPlain msg
      → msg.result ≡ none
      → IsQuiet r
      → IsQuiet (on_message {E = E} msg true r).next
        × ((on_message {E = E} msg true r).ending ≡ none)
        × ((on_message {E = E} msg true r).yielded ≡ message msg ∷ [])
  unfolding on_message track
  on_message-turn msg r p none_yet q = ground (arith, next_inflight-plain msg r.session.inflight p)

  on_message-result :
      (msg : Message) (v : ResultMessage) (r : RunState)
      → IsPlain msg
      → msg.result ≡ some v
      → IsQuiet r
      → ((on_message {E = E} msg true r).ending ≡ some at_result)
        × ((on_message {E = E} msg true r).yielded ≡ message msg ∷ [])
  unfolding on_message track run_over
  on_message-result msg v r p res q = ground (arith, next_inflight-plain msg r.session.inflight p)

  -- While the CLI has reported no state and no agent, the run ends at the first result, with that
  -- result and every message before it delivered in order; what follows is left unread.
  pub run-quiet :
      (msgs : List Message) (msg : Message) (v : ResultMessage) (rest : List (Event E))
      (r : RunState)
      → IsTurn msgs
      → IsPlain msg
      → msg.result ≡ some v
      → IsQuiet r
      → ((run (accepted msgs ++ received msg true ∷ rest) r).ending ≡ some at_result)
        × ((run (accepted msgs ++ received msg true ∷ rest) r).yielded
            ≡ map message (msgs ++ msg ∷ []))
  unfolding run
  run-quiet [] msg v rest r turn p res q =
      ground (arith, round-plain msg r p, on_message-result msg v r p res q)
  run-quiet (m ∷ ms) msg v rest r turn p res q =
      let (quiet, goes, out) = on_message-turn m r turn.0.0 turn.0.1 q in
      let (ends, all) =
        run-quiet ms msg v rest (on_message {E = E} m true r).next turn.1 p res quiet in
      ground (arith, round-plain m r turn.0.0, goes, out, ends, all)
