-- ===== src/Agent/Control/Answers/Runs.antt =====
-- The rounds of readLoop and whole runs, as one waiting request sees them.
use claude_agent_sdk_go.Base.{
  String, ◌≡◌, refl, ◌∙◌, ap, sym, subst, Bool, true, false, ◌&&◌, Option, none, some, List, [],
  ◌∷◌, contains, str_eq, string_eq, eq_refl, arith, All, if◌then◌else◌, Bool-cases, Option-cases,
  inl, inr, if_true, if_false,
}
use claude_agent_sdk_go.Base.Assoc.{get, put, get-put, get-put_self}
use claude_agent_sdk_go.Messages.Types.{Message}
use claude_agent_sdk_go.Agent.Control.{
  Channel, new_channel, Answer, waiting, receive, Frame, transcript_mirror, control_response,
  control_request, control_cancel, end_frame, error_frame, message_frame, Received, broken,
  undecodable, line, Manager, send_err, record_action, forget, stop, on_message, on_frame,
  read_round, Step, register, finish, received, step, run, Action, flush_mirror, mirror, serve,
  deliver, is_some,
}
use claude_agent_sdk_go.Agent.Control.Safe.{IsOpen, send_err-IsOpen, step-Next}
use claude_agent_sdk_go.Agent.Control.Answers.{
  View, waiting_view, cancel_view, stop_view, frame_view, round_view, step_view, run_view,
  run_view-decide, decide,
}
use claude_agent_sdk_go.Agent.Control.Answers.Seen.{
  Sees, SeesNext, same-Sees, respond-one, cancel-one, cancel_all-Sees, reached-IsOpen, forget-other,
}

module _ (id : String) where
  send_err-Sees :
      (e : Option String) (m : Manager) (v : View) → Sees id m v → Sees id (send_err e m) v
  unfolding send_err
  send_err-Sees e m v s = elim (Option-cases m.error) [
    | inl first ↦ rw (first, send_err) (same-Sees id m _ v refl refl refl s)
    | inr (x, full) ↦ rw (full, send_err) s
  ]

  stopped-Sees :
      (m n : Manager) (v : View)
      → m.channels ≡ n.channels
      → m.pending ≡ n.pending
      → false ≡ n.reading
      → Sees id m v
      → Sees id n (stop_view v)
  stopped-Sees m n v c p r s = record {
    its_channel = ap (get id) (sym c) ∙ s.its_channel;
    its_place = ap (λ ids. contains ids id) (sym p) ∙ s.its_place;
    the_loop = sym r;
  }

  stop-Sees :
      (has_store : Bool) (m : Manager) (v : View)
      → Sees id m v
      → Sees id (stop has_store m) (stop_view v)
  unfolding stop record_action
  stop-Sees true m v s = stopped-Sees m _ v refl refl refl s
  stop-Sees false m v s = stopped-Sees m _ v refl refl refl s

  if_pending :
      (ids : List String) (v : View)
      → contains ids id ≡ v.pending
      → (if contains ids id then cancel_view v else v) ≡ cancel_view v
  if_pending ids v h = rw h (twice v)
    where
      twice : (v : View) → (if v.pending then cancel_view v else v) ≡ cancel_view v
      twice v = ground arith

  module _ (has_store : Bool) where
    record_action-Sees :
        (a : Action) (m : Manager) (v : View) → Sees id m v → Sees id (record_action a m) v
    unfolding record_action
    record_action-Sees a m v s = same-Sees id m _ v refl refl refl s

    flushed-Sees :
        (b : Bool) (m : Manager) (v : View)
        → Sees id m v
        → Sees id (if b then record_action flush_mirror m else m) v
    flushed-Sees true m v s = record_action-Sees flush_mirror m v s
    flushed-Sees false m v s = s

    on_message-Sees :
        (msg : Message) (g : Bool) (m : Manager) (v : View)
        → Sees id m v
        → Sees id (on_message has_store (some msg) g m) (if g then stop_view v else v)
    unfolding on_message
    on_message-Sees msg true m v s =
        stop-Sees has_store _ v (flushed-Sees (has_store && is_some msg.result) m v s)
    on_message-Sees msg false m v s =
        record_action-Sees (deliver msg) _ v (flushed-Sees (has_store && is_some msg.result) m v s)

    on_frame-Sees :
        (f : Frame) (g : Bool) (m : Manager) (v : View)
        → IsOpen m
        → Sees id m v
        → SeesNext id (on_frame has_store f g m) (frame_view id f g v)
    unfolding on_frame SeesNext on_message
    on_frame-Sees (transcript_mirror path es) g m v o s = elim (Bool-cases has_store) [
      | inl on ↦ (_, ap some (if_true _ _ _ on), record_action-Sees (mirror path es) m v s)
      | inr off ↦ (_, ap some (if_false _ _ _ off), s)
    ]
    on_frame-Sees (control_response j r) g m v o s = respond-one id j r m v o s
    on_frame-Sees (control_request j) g m v o s = (_, refl, record_action-Sees (serve j) m v s)
    on_frame-Sees (control_cancel j) g m v o s = cancel-one id j m v o s
    on_frame-Sees end_frame g m v o s =
        (_, refl, stop-Sees has_store _ v (send_err-Sees none m v s))
    on_frame-Sees (error_frame e) g m v o s =
        (_, refl, stop-Sees has_store _ v (send_err-Sees (some e) m v s))
    on_frame-Sees (message_frame none) g m v o s = (m, refl, s)
    on_frame-Sees (message_frame (some msg)) g m v o s = (_, refl, on_message-Sees msg g m v s)

    read_round-Sees :
        (r : Received) (g : Bool) (m : Manager) (v : View)
        → IsOpen m
        → Sees id m v
        → SeesNext id (read_round has_store r g m) (round_view id r g v)
    unfolding read_round SeesNext
    read_round-Sees (broken quiet e) g m v o s =
        let text = if quiet then none else some e in
        let (n, f, t) =
          cancel_all-Sees id m.pending (send_err text m) v (send_err-IsOpen text m o)
            (send_err-Sees text m v s) in
        (
          stop has_store n,
          rw (f, read_round) refl,
          stop-Sees has_store n _ (subst (Sees id n) (if_pending m.pending v s.its_place) t),
        )
    read_round-Sees (undecodable e) g m v o s =
        (_, refl, stop-Sees has_store _ v (send_err-Sees (some e) m v s))
    read_round-Sees (line f) g m v o s = on_frame-Sees f g m v o s

    -- A step that is not the request's own
    abbrev pub Leaves : Step → Type 0
    Leaves (register j) = str_eq j id ≡ false
    Leaves (finish j) = str_eq j id ≡ false
    Leaves (received r g) = Unit

    step-Sees :
        (t : Step) (m : Manager) (v : View)
        → Leaves t
        → IsOpen m
        → Sees id m v
        → SeesNext id (step has_store t m) (step_view id t v)
    unfolding step SeesNext
    step-Sees (register j) m v l o s = (
      _,
      refl,
      record {
        its_channel = rw (get-put j id new_channel m.channels, l) s.its_channel;
        its_place = rw l (forget-other id j m.pending l ∙ s.its_place);
        the_loop = s.the_loop;
      },
    )
    step-Sees (finish j) m v l o s = (
      _,
      refl,
      record {
        its_channel = s.its_channel;
        its_place = forget-other id j m.pending l ∙ s.its_place;
        the_loop = s.the_loop;
      },
    )
    step-Sees (received r g) m v l o s = elim (Bool-cases v.reading) [
      | inl on ↦
          let (n, e, t) = read_round-Sees r g m v o s in
          (
            n,
            if_true _ _ _ (s.the_loop ∙ on) ∙ e,
            subst (Sees id n) (sym (if_true v.reading _ _ on)) t,
          )
      | inr over ↦ (
        m,
        if_false _ _ _ (s.the_loop ∙ over),
        subst (Sees id m) (sym (if_false v.reading _ _ over)) s,
      )
    ]

    run-Sees :
        (ts : List Step) (m : Manager) (v : View)
        → All Leaves ts
        → IsOpen m
        → Sees id m v
        → SeesNext id (run has_store ts m) (run_view id ts v)
    unfolding run SeesNext
    run-Sees [] m v l o s = (m, refl, s)
    run-Sees (t ∷ ts) m v l o s =
        let (n, e, u) = step-Sees t m v l.0 o s in
        let p = reached-IsOpen id _ n (step-Next has_store t m o) e in
        let (k, f, w) = run-Sees ts n _ l.1 p u in (k, rw (e, run) f, w)

    abbrev pub answer_at : Option Channel → Answer
    answer_at none = waiting
    answer_at (some c) = receive c

    -- The answer that the request has in a state
    abbrev pub answer_in : Manager → Answer
    answer_in m = answer_at (get id m.channels)

    -- A control request that is made while readLoop reads gets exactly the answer that the frames after
    -- it decide, in any interleaving with other requests: the first response with its id, unless a
    -- cancellation of it or an error of Receive comes before; and none once readLoop has returned at
    -- an end frame, an error frame, a line that does not decode or a message given up.
    pub run-decide :
        (m : Manager) (ts : List Step)
        → IsOpen m
        → m.reading ≡ true
        → All Leaves ts
        → (n : Manager) × (run has_store (register id ∷ ts) m ≡ some n)
          × (answer_in n ≡ decide id ts)
    unfolding run step SeesNext
    run-decide m ts o on l =
        let made : Manager = record m {
          channels = put id new_channel m.channels;
          pending = id ∷ forget id m.pending;
        } in
        let (n, e, s) =
          run-Sees ts made waiting_view l
            (reached-IsOpen id _ made (step-Next has_store (register id) m o) refl)
            (record {
              its_channel = get-put_self id new_channel m.channels;
              its_place = rw (eq_refl id) refl;
              the_loop = on;
            }) in
        (n, e, ap answer_at s.its_channel ∙ run_view-decide id ts)
