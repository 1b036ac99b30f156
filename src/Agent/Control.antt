-- ===== src/Agent/Control.antt =====
-- domains/agent/session_manager.go: the control requests that wait in pendingCtrl, and readLoop, which
-- answers them. The callers and the loop run side by side; each step here is one of their operations
-- on what they share, so a list of steps is one interleaving. A channel stands under the request
-- id of the call that made it, which reqid.New makes unique. A step that gives none is a panic:
-- a send on a closed channel, or a second close. A step takes what Receive and ParseLine returned;
-- Agent/Lines.antt says how a line becomes a step.
pub mod Safe
pub mod Answers
use claude_agent_sdk_go.Base.{
  String, Bool, true, false, not, ◌&&◌, Option, none, some, List, [], ◌∷◌, ◌++◌, select, contains,
  str_eq, string_eq, if◌then◌else◌,
}
use claude_agent_sdk_go.Base.Assoc.{get, put}
use claude_agent_sdk_go.Text.{is_empty}
use claude_agent_sdk_go.Sessions.Types.{Entry}
use claude_agent_sdk_go.Messages.Types.{Message}

-- controlResult, with the JSON text of the body
pub record ControlResult : Type 0 where
  pub body : String
  pub err : String

-- A chan controlResult with room for one value
pub record Channel : Type 0 where
  pub buffer : Option ControlResult
  pub closed : Bool

abbrev pub new_channel : Channel
new_channel = record { buffer = none; closed = false }

-- ch <- r in a select with a default
unfoldable pub try_send : ControlResult → Channel → Option Channel
try_send r c =
    if c.closed
    then none
    else elim c.buffer [ none ↦ some (record c { buffer = some r }) | some _ ↦ some c ]

-- close(ch)
unfoldable pub close_channel : Channel → Option Channel
close_channel c = if c.closed then none else some (record c { closed = true })

-- What sendControlRequest has from its channel: still nothing, or its result
pub data Answer : Type 0 where
  waiting : Answer
  answered : String → Answer
  refused : String → Answer
  cancelled : Answer

unfoldable pub answer_of : ControlResult → Answer
answer_of r = if is_empty r.err then answered r.body else refused r.err

-- The select of sendControlRequest, before its context ends
unfoldable pub receive : Channel → Answer
receive c = elim c.buffer [ some r ↦ answer_of r | none ↦ if c.closed then cancelled else waiting ]

-- What readLoop hands on
pub data Action : Type 0 where
  deliver : Message → Action
  mirror : String → List Entry → Action
  flush_mirror : Action
  serve : String → Action
  close_messages : Action

-- A decoded line. A message is none where FromWire fails or knows no such message.
pub data Frame : Type 0 where
  transcript_mirror : String → List Entry → Frame
  control_response : String → ControlResult → Frame
  control_request : String → Frame
  control_cancel : String → Frame
  end_frame : Frame
  error_frame : String → Frame
  message_frame : Option Message → Frame

-- What a round of readLoop gets: an error of Receive, quiet at the end of the file or of the context;
-- a line that ParseLine refuses; or a frame.
pub data Received : Type 0 where
  broken : Bool → String → Received
  undecodable : String → Received
  line : Frame → Received

pub record Manager : Type 0 where
  pub channels : List (String × Channel)
  pub pending : List String
  pub reading : Bool
  pub error : Option (Option String)
  pub log : List Action

-- newSessionManager
abbrev pub new_session_manager : Manager
new_session_manager = record { channels = []; pending = []; reading = true; error = none; log = [] }

-- sendErr: errCh holds one error, nil for a clean end
unfoldable pub send_err : Option String → Manager → Manager
send_err e m = elim m.error [ none ↦ record m { error = some e } | some _ ↦ m ]

unfoldable pub record_action : Action → Manager → Manager
record_action a m = record m { log = m.log ++ a ∷ [] }

-- pendingCtrl.Delete
unfoldable pub forget : String → List String → List String
forget id pending = select (λ j. not (str_eq j id)) pending

-- handleControlResponse
unfoldable pub handle_control_response : String → ControlResult → Manager → Option Manager
handle_control_response id r m =
    if contains m.pending id
    then elim (get id m.channels) [
      | none ↦ some m
      | some c ↦ elim (try_send r c) [
        | none ↦ none
        | some d ↦ some (record m { channels = put id d m.channels })
      ]
    ]
    else some m

-- cancelPendingRequest
unfoldable pub cancel_pending_request : String → Manager → Option Manager
unfolding forget
cancel_pending_request id m =
    if contains m.pending id
    then elim (get id m.channels) [
      | none ↦ some m
      | some c ↦ elim (close_channel c) [
        | none ↦ none
        | some d ↦ some (record m { channels = put id d m.channels; pending = forget id m.pending })
      ]
    ]
    else some m

-- The Range that closes every pending channel, as one step. Of the callers' operations only a register
-- can give it one more to close while it runs, and Range may pass that over: such a register is a
-- step before the Range if its channel is closed, and one after it if not.
unfoldable pub cancel_all : List String → Manager → Option Manager
cancel_all [] m = some m
cancel_all (id ∷ ids) m = elim (cancel_pending_request id m) [
  | none ↦ none
  | some n ↦ cancel_all ids n
]

-- An operation of a caller, or a round of readLoop, which does nothing once it has returned
pub data Step : Type 0 where
  register : String → Step
  finish : String → Step
  received : Received → Bool → Step

abbrev pub is_some {ℓ} : {A : Type ℓ} → Option A → Bool
is_some none = false
is_some (some a) = true

module _ (has_store : Bool) where
  -- The deferred calls of readLoop
  unfoldable pub stop : Manager → Manager
  unfolding record_action
  stop m =
      record (record_action close_messages
        (if has_store then record_action flush_mirror m else m)) { reading = false }

  -- The default case: `gave_up` is the select's choice of the ended context
  unfoldable pub on_message : Option Message → Bool → Manager → Manager
  on_message none gave_up m = m
  on_message (some msg) gave_up m =
      let flushed = if has_store && is_some msg.result then record_action flush_mirror m else m in
      if gave_up then stop flushed else record_action (deliver msg) flushed

  -- The switch of readLoop
  unfoldable pub on_frame : Frame → Bool → Manager → Option Manager
  on_frame (transcript_mirror path entries) gave_up m =
      some (if has_store then record_action (mirror path entries) m else m)
  on_frame (control_response id r) gave_up m = handle_control_response id r m
  on_frame (control_request id) gave_up m = some (record_action (serve id) m)
  on_frame (control_cancel id) gave_up m = cancel_pending_request id m
  on_frame end_frame gave_up m = some (stop (send_err none m))
  on_frame (error_frame e) gave_up m = some (stop (send_err (some e) m))
  on_frame (message_frame msg) gave_up m = some (on_message msg gave_up m)

  -- A round of readLoop
  unfoldable pub read_round : Received → Bool → Manager → Option Manager
  read_round (broken quiet e) gave_up m =
      elim (cancel_all m.pending (send_err (if quiet then none else some e) m)) [
        | none ↦ none
        | some n ↦ some (stop n)
      ]
  read_round (undecodable e) gave_up m = some (stop (send_err (some e) m))
  read_round (line f) gave_up m = on_frame f gave_up m

  unfoldable pub step : Step → Manager → Option Manager
  step (register id) m =
      some
        (record m { channels = put id new_channel m.channels; pending = id ∷ forget id m.pending })
  step (finish id) m = some (record m { pending = forget id m.pending })
  step (received r gave_up) m = if m.reading then read_round r gave_up m else some m

  unfoldable pub run : List Step → Manager → Option Manager
  run [] m = some m
  run (s ∷ ss) m = elim (step s m) [ none ↦ none | some n ↦ run ss n ]
