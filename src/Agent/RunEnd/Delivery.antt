-- ===== src/Agent/RunEnd/Delivery.antt =====
-- What the loop of runend.go hands to the consumer.
use claude_agent_sdk_go.Base.{
  ◌≡◌, refl, ◌∙◌, ap, sym, none, List, [], ◌∷◌, ◌++◌, append-nil, Bool, arith, if◌then◌else◌,
  Option-cases, inl, inr,
}
use claude_agent_sdk_go.Messages.Types.{Message}
use claude_agent_sdk_go.Agent.RunEnd.Consumed.{consumed}
use claude_agent_sdk_go.Agent.RunEnd.{
  host_only, Event, received, closed, ceiling_passed, errored, cancelled, Yield, message, error,
  yield_error, RunState, on_state, on_message, round, run,
}

module _ {E : Type 0} where
  -- What an event is worth to the consumer: a message, but for a state frame that the CLI sent only
  -- because the SDK asked; an error that is not nil
  pub shown : Event E → List (Yield E)
  shown (received msg accepts) = if host_only msg then [] else message msg ∷ []
  shown (closed e) = yield_error e
  shown ceiling_passed = []
  shown (errored e) = yield_error e
  shown (cancelled e) = error e ∷ []

  pub shown_all : List (Event E) → List (Yield E)
  shown_all [] = []
  shown_all (event ∷ events) = shown event ++ shown_all events

  pub yielded-round : (event : Event E) (r : RunState) → (round event r).yielded ≡ shown event
  unfolding round shown on_state on_message host_only
  yielded-round (received msg accepts) r = elim (Option-cases msg.session_state_changed) [
    | inl e ↦ rw (e, round) (ground (arith, e))
    | inr (c, e) ↦ rw (e, round) (ground (arith, e))
  ]
  yielded-round (closed e) r = refl
  yielded-round ceiling_passed r = ground arith
  yielded-round (errored e) r = refl
  yielded-round (cancelled e) r = refl

  pub yielded-received :
      (msg : Message) (accepts : Bool) (r : RunState)
      → (round {E = E} (received msg accepts) r).yielded
        ≡ (if host_only msg then [] else message msg ∷ [])
  unfolding shown
  yielded-received msg accepts r = yielded-round (received msg accepts) r

  -- What is yielded is exactly what the events show that the run consumed, in order and each once, the
  -- event that ended it included; and it consumed all events up to that one, or all of them while
  -- it has not ended.
  pub yielded-run :
      (events : List (Event E)) (r : RunState)
      → ((run events r).yielded ≡ shown_all (consumed events r))
        × ((rest : List (Event E)) × (events ≡ consumed events r ++ rest)
            × ((run events r).ending ≡ none → rest ≡ []))
  unfolding run shown_all consumed
  yielded-run [] r = (refl, ([], refl, λ e. refl))
  yielded-run (event ∷ events) r = elim (Option-cases (round event r).ending) [
    | inl goes ↦
        let (all, (rest, splits, ends)) = yielded-run events (round event r).next in
        (
          rw (goes, run, consumed)
              (ap (λ xs. xs ++ (run events (round event r).next).yielded) (yielded-round event r)
                ∙ ap (◌++◌ (shown event)) all),
          (rest, rw (goes, consumed) (ap (◌∷◌ event) splits), rw (goes, run) ends),
        )
    | inr (why, ends) ↦ (
      rw (ends, run, consumed) (yielded-round event r ∙ sym (append-nil (shown event))),
      (events, rw (ends, consumed) refl, rw (ends, run) (λ h. absurd (cc))),
    )
  ]
