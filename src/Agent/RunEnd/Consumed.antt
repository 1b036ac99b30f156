-- ===== src/Agent/RunEnd/Consumed.antt =====
-- The events that the loop of runend.go takes before it returns, and what they do to its state.
use claude_agent_sdk_go.Base.{
  String, ◌≡◌, refl, sym, subst, ◌∙◌, ap, Bool, true, false, ◌||◌, Option, none, some, List, [],
  ◌∷◌, any, contains, string_eq, arith, Option-cases, inl, inr, if◌then◌else◌,
}
use claude_agent_sdk_go.Messages.Activity.{SessionStateChangedMessage}
use claude_agent_sdk_go.Messages.Types.{Message}
use claude_agent_sdk_go.Agent.RunEnd.{
  SessionState, set_state, track, Event, received, closed, ceiling_passed, errored, cancelled,
  Ending, at_idle, at_result, at_ceiling, RunState, Round, on_state, on_message, round, run,
}
use claude_agent_sdk_go.Agent.RunEnd.Ledger.{out_after, contains-track}

-- The ends that run comes to by itself, rather than by an error, a cancelled context, a closed
-- channel or a consumer that stops
abbrev pub is_normal : Ending → Bool
is_normal at_idle = true
is_normal at_result = true
is_normal at_ceiling = true
is_normal _ = false

abbrev pub is_regular : Option Ending → Bool
is_regular none = true
is_regular (some why) = is_normal why

module _ {E : Type 0} where
  -- The events up to the one that ends the run, and that one
  unfoldable pub consumed : List (Event E) → RunState → List (Event E)
  consumed [] r = []
  consumed (event ∷ events) r =
      let later = consumed events (round event r).next in
      elim (round event r).ending [ none ↦ event ∷ later | some why ↦ event ∷ [] ]

  -- A result, as the CLI sends it: not a change of the session's state
  abbrev pub has_result : Event E → Bool
  has_result (received msg accepts) = elim msg.session_state_changed [
    | some changed ↦ false
    | none ↦ elim msg.result [ none ↦ false | some result ↦ true ]
  ]
  has_result _ = false

  -- Whether the agent `id` is out after an event, if it was `out` before
  abbrev pub out_event : String → Bool → Event E → Bool
  out_event id out (received msg accepts) = elim msg.session_state_changed [
    | some changed ↦ out
    | none ↦ out_after id out (msg ∷ [])
  ]
  out_event id out _ = out

  abbrev pub out_events : String → Bool → List (Event E) → Bool
  out_events id out [] = out
  out_events id out (event ∷ events) = out_events id (out_event id out event) events

  -- The state that the CLI said last, if it said any
  abbrev pub said_event : Option String → Event E → Option String
  said_event said (received msg accepts) = elim msg.session_state_changed [
    | some changed ↦ some changed.state
    | none ↦ said
  ]
  said_event said _ = said

  abbrev pub said_events : Option String → List (Event E) → Option String
  said_events said [] = said
  said_events said (event ∷ events) = said_events (said_event said event) events

abbrev pub said : SessionState → Option String
said s = if s.reported then some s.state else none

-- The state of run after events in which it was not cut off, from what the events say
pub record IsAfter {E : Type 0} (events : List (Event E)) (r after : RunState) : Type 0 where
  pub seen : after.result_seen ≡ (r.result_seen || any has_result events)
  pub out :
      (id : String)
      → contains after.session.inflight id ≡ out_events id (contains r.session.inflight id) events
  pub state : said after.session ≡ said_events (said r.session) events

module _ (E : Type 0) where
  on_message_tracks :
      (msg : Message) (r : RunState)
      → (on_message {E = E} msg true r).next.session ≡ (track msg r.session).0
  unfolding on_message
  on_message_tracks msg r = ground arith

  round_message :
      (msg : Message) (accepts : Bool) (r : RunState)
      → msg.session_state_changed ≡ none
      → on_message {E = E} msg accepts r ≡ round (received msg accepts) r
  unfolding round
  round_message msg accepts r h =
      sym
        (ap (λ o. elim o [ some c ↦ on_state msg c accepts r | none ↦ on_message msg accepts r ]) h)

  round_state :
      (msg : Message) (c : SessionStateChangedMessage) (accepts : Bool) (r : RunState)
      → msg.session_state_changed ≡ some c
      → on_state {E = E} msg c accepts r ≡ round (received msg accepts) r
  unfolding round
  round_state msg c accepts r h =
      sym
        (ap (λ o. elim o [ some c ↦ on_state msg c accepts r | none ↦ on_message msg accepts r ]) h)

module _ {E : Type 0} where
  -- What a round makes of the message, where it is the round of one of the two kinds
  moved-IsAfter :
      (events : List (Event E)) (r : RunState) (a b : Round E)
      → a ≡ b
      → is_regular b.ending ≡ true
      → (is_regular a.ending ≡ true → IsAfter events r a.next)
      → IsAfter events r b.next
  moved-IsAfter events r a b same g each =
      subst (λ x. IsAfter events r x.next) same
        (each (subst (λ x. is_regular x.ending ≡ true) (sym same) g))

  on_message-IsAfter :
      (msg : Message) (accepts : Bool) (r : RunState)
      → msg.session_state_changed ≡ none
      → is_regular (on_message {E = E} msg accepts r).ending ≡ true
      → IsAfter {E = E} (received msg accepts ∷ []) r (on_message {E = E} msg accepts r).next
  unfolding on_message track
  on_message-IsAfter msg false r h g = absurd (cc)
  on_message-IsAfter msg true r h g = record {
    seen = ground (arith, h);
    out = λ id.
        ap (λ s. contains s.inflight id) (on_message_tracks E msg r)
        ∙ contains-track id msg r.session
        ∙ simp h;
    state = ground (arith, h);
  }

  on_state-IsAfter :
      (msg : Message) (c : SessionStateChangedMessage) (accepts : Bool) (r : RunState)
      → msg.session_state_changed ≡ some c
      → is_regular (on_state {E = E} msg c accepts r).ending ≡ true
      → IsAfter {E = E} (received msg accepts ∷ []) r (on_state {E = E} msg c accepts r).next
  unfolding on_state set_state
  on_state-IsAfter msg c accepts r h g = record {
    seen = ground (arith, h);
    out = λ id. ground (arith, h);
    state = ground (arith, h);
  }

  round-IsAfter :
      (event : Event E) (r : RunState)
      → is_regular (round event r).ending ≡ true
      → IsAfter (event ∷ []) r (round event r).next
  unfolding round
  round-IsAfter (received msg accepts) r g = elim (Option-cases msg.session_state_changed) [
    | inl e ↦
        moved-IsAfter _ r _ _ (round_message E msg accepts r e) g
          (on_message-IsAfter msg accepts r e)
    | inr (c, e) ↦
        moved-IsAfter _ r _ _ (round_state E msg c accepts r e) g
          (on_state-IsAfter msg c accepts r e)
  ]
  round-IsAfter ceiling_passed r g = record {
    seen = ground arith;
    out = λ id. ground arith;
    state = ground arith;
  }
  round-IsAfter (closed e) r g = absurd (cc)
  round-IsAfter (errored e) r g = absurd (cc)
  round-IsAfter (cancelled e) r g = absurd (cc)

  cons-IsAfter :
      (event : Event E) (events : List (Event E)) (r middle after : RunState)
      → IsAfter (event ∷ []) r middle
      → IsAfter events middle after
      → IsAfter (event ∷ events) r after
  cons-IsAfter event events r middle after h k = record {
    seen = ground (arith, h.seen, k.seen);
    out = λ id. k.out id ∙ ap (λ b. out_events id b events) (h.out id);
    state = k.state ∙ ap (λ o. said_events o events) h.state;
  }

  -- The state of run is what the events it consumed make of it, unless an error, a cancelled context, a
  -- closed channel or the consumer cut it off.
  pub run-IsAfter :
      (events : List (Event E)) (r : RunState)
      → is_regular (run events r).ending ≡ true
      → IsAfter (consumed events r) r (run events r).next
  unfolding run consumed
  run-IsAfter [] r g = record { seen = ground arith; out = λ id. refl; state = refl }
  run-IsAfter (event ∷ events) r g = elim (Option-cases (round event r).ending) [
    | inl goes ↦
        rw (goes, run, consumed)
          (cons-IsAfter event (consumed events (round event r).next) r (round event r).next _
            (round-IsAfter event r (ap is_regular goes))
            (run-IsAfter events (round event r).next (rw (goes, run) at g)))
    | inr (why, ends) ↦ rw (ends, run, consumed) (round-IsAfter event r (rw (ends, run) at g))
  ]
