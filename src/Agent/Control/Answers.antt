-- ===== src/Agent/Control/Answers.antt =====
-- Which answer a control request gets.
pub mod Seen
pub mod Runs
use claude_agent_sdk_go.Base.{
  String, ◌≡◌, refl, ◌∙◌, ap, sym, Bool, true, false, not, ◌||◌, Option, none, some, List, [], ◌∷◌,
  contains, str_eq, string_eq, eq_iff, arith, All, if◌then◌else◌, Bool-cases, Option-cases, inl,
  inr, subst, if_true, if_false,
}
use claude_agent_sdk_go.Base.Assoc.{get}
use claude_agent_sdk_go.Messages.Types.{Message}
use claude_agent_sdk_go.Agent.Control.{
  ControlResult, Channel, new_channel, answer_of, Answer, waiting, cancelled, receive, Frame,
  transcript_mirror, control_response, control_request, control_cancel, end_frame, error_frame,
  message_frame, Received, broken, undecodable, line, Step, register, finish, received, is_some,
}

-- What one request sees of the manager: its channel, whether it is pending, and the loop
pub record View : Type 0 where
  pub channel : Channel
  pub pending : Bool
  pub reading : Bool

abbrev pub waiting_view : View
waiting_view = record { channel = new_channel; pending = true; reading = true }

abbrev pub send_view : ControlResult → Channel → Channel
send_view r c = elim c.buffer [ none ↦ record c { buffer = some r } | some _ ↦ c ]

abbrev pub cancel_view : View → View
cancel_view v =
    if v.pending
    then record v { channel = record v.channel { closed = true }; pending = false }
    else v

abbrev pub respond_view : ControlResult → View → View
respond_view r v = if v.pending then record v { channel = send_view r v.channel } else v

abbrev pub stop_view : View → View
stop_view v = record v { reading = false }

module _ (id : String) where
  abbrev pub frame_view : Frame → Bool → View → View
  frame_view (control_response j r) gave_up v = if str_eq j id then respond_view r v else v
  frame_view (control_cancel j) gave_up v = if str_eq j id then cancel_view v else v
  frame_view end_frame gave_up v = stop_view v
  frame_view (error_frame e) gave_up v = stop_view v
  frame_view (message_frame (some msg)) gave_up v = if gave_up then stop_view v else v
  frame_view (message_frame none) gave_up v = v
  frame_view (transcript_mirror path es) gave_up v = v
  frame_view (control_request j) gave_up v = v

  abbrev pub round_view : Received → Bool → View → View
  round_view (broken quiet e) gave_up v = stop_view (cancel_view v)
  round_view (undecodable e) gave_up v = stop_view v
  round_view (line f) gave_up v = frame_view f gave_up v

  -- A step, for a request that neither registers nor finishes in it
  abbrev pub step_view : Step → View → View
  step_view (received r gave_up) v = if v.reading then round_view r gave_up v else v
  step_view (register j) v = v
  step_view (finish j) v = v

  abbrev pub run_view : List Step → View → View
  run_view [] v = v
  run_view (s ∷ ss) v = run_view ss (step_view s v)

  -- What a round of the loop says of the request
  pub data Verdict : Type 0 where
    goes_on : Verdict
    settles : Answer → Verdict
    leaves_off : Verdict

  unfoldable pub frame_verdict : Frame → Bool → Verdict
  frame_verdict (control_response j r) gave_up =
      if str_eq j id then settles (answer_of r) else goes_on
  frame_verdict (control_cancel j) gave_up = if str_eq j id then settles cancelled else goes_on
  frame_verdict end_frame gave_up = leaves_off
  frame_verdict (error_frame e) gave_up = leaves_off
  frame_verdict (message_frame (some msg)) gave_up = if gave_up then leaves_off else goes_on
  frame_verdict (message_frame none) gave_up = goes_on
  frame_verdict (transcript_mirror path es) gave_up = goes_on
  frame_verdict (control_request j) gave_up = goes_on

  unfoldable pub verdict : Received → Bool → Verdict
  verdict (broken quiet e) gave_up = settles cancelled
  verdict (undecodable e) gave_up = leaves_off
  verdict (line f) gave_up = frame_verdict f gave_up

  -- The answer that the steps decide: by the first response or cancellation that names the request, or
  -- the first error of Receive. After an end frame, an error frame, a line that does not decode or a
  -- message given up, there is none.
  unfoldable pub decide : List Step → Answer
  decide [] = waiting
  decide (received r gave_up ∷ ss) =
      let later = decide ss in
      elim (verdict r gave_up) [ goes_on ↦ later | settles a ↦ a | leaves_off ↦ waiting ]
  decide (register j ∷ ss) = decide ss
  decide (finish j ∷ ss) = decide ss

  -- Nothing changes the answer any more.
  abbrev IsStable : View → Type 0
  IsStable v = (not v.reading || (not v.pending || is_some v.channel.buffer)) ≡ true

  abbrev Keeps : View → View → Type 0
  Keeps v w = IsStable w × (receive w.channel ≡ receive v.channel)

  self-Keeps : (v : View) → IsStable v → Keeps v v
  self-Keeps v s = (s, refl)

  respond_view-Keeps :
      (r : ControlResult) (v : View) → v.reading ≡ true → IsStable v → Keeps v (respond_view r v)
  unfolding receive
  respond_view-Keeps r v on s = ground arith

  cancel_view-Keeps : (v : View) → v.reading ≡ true → IsStable v → Keeps v (cancel_view v)
  unfolding receive
  cancel_view-Keeps v on s = ground arith

  if-Keeps : (b : Bool) (v w x : View) → Keeps v w → Keeps v x → Keeps v (if b then w else x)
  if-Keeps true v w x h k = h
  if-Keeps false v w x h k = k

  frame_view-Keeps :
      (f : Frame) (g : Bool) (v : View) → v.reading ≡ true → IsStable v → Keeps v (frame_view f g v)
  frame_view-Keeps (transcript_mirror path es) g v on s = self-Keeps v s
  frame_view-Keeps (control_response j r) g v on s =
      if-Keeps (str_eq j id) v _ v (respond_view-Keeps r v on s) (self-Keeps v s)
  frame_view-Keeps (control_request j) g v on s = self-Keeps v s
  frame_view-Keeps (control_cancel j) g v on s =
      if-Keeps (str_eq j id) v _ v (cancel_view-Keeps v on s) (self-Keeps v s)
  frame_view-Keeps end_frame g v on s = (refl, refl)
  frame_view-Keeps (error_frame e) g v on s = (refl, refl)
  frame_view-Keeps (message_frame none) g v on s = self-Keeps v s
  frame_view-Keeps (message_frame (some msg)) g v on s =
      if-Keeps g v (stop_view v) v (refl, refl) (self-Keeps v s)

  round_view-Keeps :
      (r : Received) (g : Bool) (v : View)
      → v.reading ≡ true
      → IsStable v
      → Keeps v (round_view r g v)
  round_view-Keeps (broken quiet e) g v on s = (refl, (cancel_view-Keeps v on s).1)
  round_view-Keeps (undecodable e) g v on s = (refl, refl)
  round_view-Keeps (line f) g v on s = frame_view-Keeps f g v on s

  step_view-Keeps : (s : Step) (v : View) → IsStable v → Keeps v (step_view s v)
  step_view-Keeps (register j) v h = self-Keeps v h
  step_view-Keeps (finish j) v h = self-Keeps v h
  step_view-Keeps (received r g) v h = elim (Bool-cases v.reading) [
    | inl on ↦ subst (Keeps v) (sym (if_true v.reading _ _ on)) (round_view-Keeps r g v on h)
    | inr over ↦ subst (Keeps v) (sym (if_false v.reading _ _ over)) (self-Keeps v h)
  ]

  run_view-Keeps :
      (ss : List Step) (v : View) → IsStable v → receive (run_view ss v).channel ≡ receive v.channel
  run_view-Keeps [] v h = refl
  run_view-Keeps (s ∷ ss) v h =
      let (k, e) = step_view-Keeps s v h in run_view-Keeps ss (step_view s v) k ∙ e

  -- A round from a view that waits: it goes on, or the answer is what the verdict says
  Obeys : Verdict → View → Type 0
  Obeys goes_on w = w ≡ waiting_view
  Obeys (settles a) w = IsStable w × (receive w.channel ≡ a)
  Obeys leaves_off w = IsStable w × (receive w.channel ≡ waiting)

  if-Obeys :
      (b : Bool) (x y : Verdict) (v w : View)
      → Obeys x v
      → Obeys y w
      → Obeys (if b then x else y) (if b then v else w)
  if-Obeys true x y v w h k = h
  if-Obeys false x y v w h k = k

  frame_view-Obeys :
      (f : Frame) (g : Bool) → Obeys (frame_verdict f g) (frame_view f g waiting_view)
  unfolding Obeys frame_verdict receive
  frame_view-Obeys (transcript_mirror path es) g = refl
  frame_view-Obeys (control_response j r) g =
      if-Obeys (str_eq j id) (settles (answer_of r)) goes_on (respond_view r waiting_view)
        waiting_view (refl, refl) refl
  frame_view-Obeys (control_request j) g = refl
  frame_view-Obeys (control_cancel j) g =
      if-Obeys (str_eq j id) (settles cancelled) goes_on (cancel_view waiting_view) waiting_view
        (refl, refl) refl
  frame_view-Obeys end_frame g = (refl, refl)
  frame_view-Obeys (error_frame e) g = (refl, refl)
  frame_view-Obeys (message_frame none) g = refl
  frame_view-Obeys (message_frame (some msg)) g =
      if-Obeys g leaves_off goes_on (stop_view waiting_view) waiting_view (refl, refl) refl

  round_view-Obeys : (r : Received) (g : Bool) → Obeys (verdict r g) (round_view r g waiting_view)
  unfolding Obeys verdict receive
  round_view-Obeys (broken quiet e) g = (refl, refl)
  round_view-Obeys (undecodable e) g = (refl, refl)
  round_view-Obeys (line f) g = frame_view-Obeys f g

  after_verdict :
      (v : Verdict) (ss : List Step) (w : View)
      → Obeys v w
      → receive (run_view ss waiting_view).channel ≡ decide ss
      → receive (run_view ss w).channel
        ≡ elim v [ goes_on ↦ decide ss | settles a ↦ a | leaves_off ↦ waiting ]
  unfolding Obeys
  after_verdict goes_on ss w h later = ap (λ u. receive (run_view ss u).channel) h ∙ later
  after_verdict (settles a) ss w h later = run_view-Keeps ss w h.0 ∙ h.1
  after_verdict leaves_off ss w h later = run_view-Keeps ss w h.0 ∙ h.1

  pub run_view-decide : (ss : List Step) → receive (run_view ss waiting_view).channel ≡ decide ss
  unfolding decide receive
  run_view-decide [] = refl
  run_view-decide (register j ∷ ss) = run_view-decide ss
  run_view-decide (finish j ∷ ss) = run_view-decide ss
  run_view-decide (received r g ∷ ss) =
      after_verdict (verdict r g) ss (round_view r g waiting_view) (round_view-Obeys r g)
        (run_view-decide ss)
