-- ===== src/Agent/Control/Safe.antt =====
-- No interleaving of the callers with readLoop panics.
use claude_agent_sdk_go.Base.{
  String, ◌≡◌, refl, ◌∙◌, sym, subst, Bool, true, false, not, ◌&&◌, Option, none, some, List, [],
  ◌∷◌, contains, str_eq, string_eq, eq_iff, arith, if◌then◌else◌, Bool-cases, Option-cases, if_true,
  if_false, inl, inr,
}
use claude_agent_sdk_go.Base.Assoc.{get, put, get-put}
use claude_agent_sdk_go.Messages.Types.{Message}
use claude_agent_sdk_go.Agent.Control.{
  ControlResult, Channel, new_channel, try_send, close_channel, Frame, transcript_mirror,
  control_response, control_request, control_cancel, end_frame, error_frame, message_frame,
  Received, broken, undecodable, line, Manager, new_session_manager, send_err, record_action,
  forget, handle_control_response, cancel_pending_request, cancel_all, stop, on_message, on_frame,
  Action, flush_mirror, mirror, serve, deliver, is_some, read_round, Step, register, finish,
  received, step,
}

pub contains-forget :
    (id k : String) (ids : List String)
    → contains (forget id ids) k ≡ (contains ids k && not (str_eq id k))
unfolding forget
contains-forget id k [] = refl
contains-forget id k (j ∷ ids) =
    ground (arith, eq_iff j id, eq_iff j k, eq_iff id k, contains-forget id k ids)

-- Every request that waits has an open channel.
pub record IsOpen (m : Manager) : Type 0 where
  pub open_channel :
      (id : String)
      → contains m.pending id ≡ true
      → (c : Channel) × (get id m.channels ≡ some c) × (c.closed ≡ false)

try_send-open :
    (r : ControlResult) (c : Channel)
    → c.closed ≡ false
    → (d : Channel) × (try_send r c ≡ some d) × (d.closed ≡ false)
unfolding try_send
try_send-open r c h = elim (Option-cases c.buffer) [
  | inl room ↦ (record c { buffer = some r }, ground (arith, h, room), h)
  | inr (x, full) ↦ (c, ground (arith, h, full), h)
]

-- The state after a step, which does not panic
unfoldable pub Next : Option Manager → Type 0
Next o = (n : Manager) × (o ≡ some n) × IsOpen n

put-IsOpen :
    (id : String) (d : Channel) (m : Manager)
    → d.closed ≡ false
    → IsOpen m
    → IsOpen (record m { channels = put id d m.channels })
put-IsOpen id d m h o = record {
  open_channel = λ k p. elim (Bool-cases (str_eq id k)) [
    | inl same ↦ (d, rw (get-put id k d m.channels, same) refl, h)
    | inr other ↦
        let (c, q, h₁) = o.open_channel k p in (c, rw (get-put id k d m.channels, other) q, h₁)
  ];
}

handle_control_response-Next :
    (id : String) (r : ControlResult) (m : Manager)
    → IsOpen m
    → Next (handle_control_response id r m)
unfolding handle_control_response Next
handle_control_response-Next id r m o = elim (Bool-cases (contains m.pending id)) [
  | inr gone ↦ (m, rw gone refl, o)
  | inl known ↦
      let (c, q, h₁) = o.open_channel id known in
      let (d, sent, still) = try_send-open r c h₁ in
      (
        record m { channels = put id d m.channels },
        rw (known, q, sent) refl,
        put-IsOpen id d m still o,
      )
]

closed-IsOpen :
    (id : String) (d : Channel) (m : Manager)
    → IsOpen m
    → IsOpen (record m { channels = put id d m.channels; pending = forget id m.pending })
closed-IsOpen id d m o = record {
  open_channel = λ k p.
      let here : contains m.pending k ≡ true = ground (arith, p, contains-forget id k m.pending) in
      let other : str_eq id k ≡ false = ground (arith, p, contains-forget id k m.pending) in
      let (c, q, h₁) = o.open_channel k here in (c, rw (get-put id k d m.channels, other) q, h₁);
}

pub cancel_pending_request-Next :
    (id : String) (m : Manager) → IsOpen m → Next (cancel_pending_request id m)
unfolding cancel_pending_request Next close_channel
cancel_pending_request-Next id m o = elim (Bool-cases (contains m.pending id)) [
  | inr gone ↦ (m, rw gone refl, o)
  | inl known ↦
      let (c, q, h₁) = o.open_channel id known in
      (_, rw (known, q, h₁) refl, closed-IsOpen id (record c { closed = true }) m o)
]

cancel_all-Next : (ids : List String) (m : Manager) → IsOpen m → Next (cancel_all ids m)
unfolding cancel_all Next
cancel_all-Next [] m o = (m, refl, o)
cancel_all-Next (id ∷ ids) m o =
    let (n, e, p) = cancel_pending_request-Next id m o in
    let (k, f, q) = cancel_all-Next ids n p in (k, rw (e, cancel_all) f, q)

-- What the log and the error hold does not matter.
same-IsOpen :
    (m n : Manager) → m.channels ≡ n.channels → m.pending ≡ n.pending → IsOpen m → IsOpen n
same-IsOpen m n c p o = record {
  open_channel = λ k q.
      subst (λ cs. (c : Channel) × (get k cs ≡ some c) × (c.closed ≡ false)) c
        (o.open_channel k (subst (λ ids. contains ids k ≡ true) (sym p) q));
}

pub send_err-IsOpen : (e : Option String) (m : Manager) → IsOpen m → IsOpen (send_err e m)
unfolding send_err
send_err-IsOpen e m o = elim (Option-cases m.error) [
  | inl first ↦ rw (first, send_err) (same-IsOpen m _ refl refl o)
  | inr (x, full) ↦ rw (full, send_err) o
]

stop-IsOpen : (has_store : Bool) (m : Manager) → IsOpen m → IsOpen (stop has_store m)
unfolding stop record_action
stop-IsOpen true m o = same-IsOpen m _ refl refl o
stop-IsOpen false m o = same-IsOpen m _ refl refl o

record_action-IsOpen : (a : Action) (m : Manager) → IsOpen m → IsOpen (record_action a m)
unfolding record_action
record_action-IsOpen a m o = same-IsOpen m _ refl refl o

flushed-IsOpen :
    (b : Bool) (m : Manager) → IsOpen m → IsOpen (if b then record_action flush_mirror m else m)
flushed-IsOpen true m o = record_action-IsOpen flush_mirror m o
flushed-IsOpen false m o = o

on_message-IsOpen :
    (has_store : Bool) (msg : Option Message) (gave_up : Bool) (m : Manager)
    → IsOpen m
    → IsOpen (on_message has_store msg gave_up m)
unfolding on_message
on_message-IsOpen has_store none gave_up m o = o
on_message-IsOpen has_store (some msg) true m o =
    stop-IsOpen has_store _ (flushed-IsOpen (has_store && is_some msg.result) m o)
on_message-IsOpen has_store (some msg) false m o =
    record_action-IsOpen (deliver msg) _ (flushed-IsOpen (has_store && is_some msg.result) m o)

pub new-IsOpen : IsOpen new_session_manager
new-IsOpen = record { open_channel = λ id p. absurd (nothing id p) }
  where
    nothing : (id : String) → contains {A = String} [] id ≡ true → ⊥
    nothing id p = cc

module _ (has_store : Bool) where
  on_frame-Next :
      (f : Frame) (gave_up : Bool) (m : Manager) → IsOpen m → Next (on_frame has_store f gave_up m)
  unfolding on_frame Next
  on_frame-Next (transcript_mirror path es) gave_up m o = elim (Bool-cases has_store) [
    | inl on ↦ (_, rw (on, on_frame) refl, record_action-IsOpen (mirror path es) m o)
    | inr off ↦ (_, rw (off, on_frame) refl, o)
  ]
  on_frame-Next (control_response id r) gave_up m o = handle_control_response-Next id r m o
  on_frame-Next (control_request id) gave_up m o = (_, refl, record_action-IsOpen (serve id) m o)
  on_frame-Next (control_cancel id) gave_up m o = cancel_pending_request-Next id m o
  on_frame-Next end_frame gave_up m o =
      (_, refl, stop-IsOpen has_store _ (send_err-IsOpen none m o))
  on_frame-Next (error_frame e) gave_up m o =
      (_, refl, stop-IsOpen has_store _ (send_err-IsOpen (some e) m o))
  on_frame-Next (message_frame msg) gave_up m o =
      (_, refl, on_message-IsOpen has_store msg gave_up m o)

  pub read_round-Next :
      (r : Received) (gave_up : Bool) (m : Manager)
      → IsOpen m
      → Next (read_round has_store r gave_up m)
  unfolding read_round Next
  read_round-Next (broken quiet e) gave_up m o =
      let (n, q, p) =
        cancel_all-Next m.pending (send_err (if quiet then none else some e) m)
          (send_err-IsOpen (if quiet then none else some e) m o) in
      (stop has_store n, rw (q, read_round) refl, stop-IsOpen has_store n p)
  read_round-Next (undecodable e) gave_up m o =
      (_, refl, stop-IsOpen has_store _ (send_err-IsOpen (some e) m o))
  read_round-Next (line f) gave_up m o = on_frame-Next f gave_up m o

  pub step-Next : (s : Step) (m : Manager) → IsOpen m → Next (step has_store s m)
  unfolding step Next
  step-Next (register id) m o = (
    _,
    refl,
    record {
      open_channel = λ k p. elim (Bool-cases (str_eq id k)) [
        | inl same ↦ (new_channel, rw (get-put id k new_channel m.channels, same) refl, refl)
        | inr other ↦
            let here : contains m.pending k ≡ true =
              ground (arith, p, other, contains-forget id k m.pending) in
            let (c, q, h) = o.open_channel k here in
            (c, rw (get-put id k new_channel m.channels, other) q, h)
      ];
    },
  )
  step-Next (finish id) m o = (
    _,
    refl,
    record {
      open_channel = λ k p.
          let here : contains m.pending k ≡ true =
            ground (arith, p, contains-forget id k m.pending) in
          o.open_channel k here;
    },
  )
  step-Next (received r gave_up) m o = elim (Bool-cases m.reading) [
    | inl on ↦ let (n, q, p) = read_round-Next r gave_up m o in (n, if_true m.reading _ _ on ∙ q, p)
    | inr over ↦ (m, if_false m.reading _ _ over, o)
  ]
