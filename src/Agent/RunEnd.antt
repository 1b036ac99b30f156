-- ===== src/Agent/RunEnd.antt =====
-- domains/agent/runend.go: the ledger of background agents and the loop of `run`. A goroutine's
-- `select` takes any ready case, so an execution is a list of events, one for each round of the loop.
-- The sessionState is read and written under its mutex by `run` alone.
pub mod Ledger
pub mod Consumed
pub mod Settled
pub mod Delivery
pub mod Quiet
pub mod HostOnly
pub mod Env
use claude_agent_sdk_go.Base.{
  String, Bool, true, false, not, ◌&&◌, ◌||◌, Option, none, some, List, [], ◌∷◌, ◌++◌, select,
  contains, str_eq, string_eq, if◌then◌else◌,
}
use claude_agent_sdk_go.Json.{Value, Fields}
use claude_agent_sdk_go.Json.Decode.{decode_struct, get_bool}
use claude_agent_sdk_go.Messages.Activity.{
  BackgroundTask, SessionStateChangedMessage, BackgroundTasksChangedMessage, session_state_idle,
}
use claude_agent_sdk_go.Messages.Tasks.{
  TaskStartedMessage, TaskUpdatedMessage, TaskNotificationMessage, is_terminal,
}
use claude_agent_sdk_go.Messages.Types.{Message}

pub record SessionState : Type 0 where
  pub reported : Bool
  pub state : String
  -- The keys of the map
  pub inflight : List String

-- newSessionState
abbrev pub new_session_state : SessionState
new_session_state = record { reported = false; state = ""; inflight = [] }

-- deferringTaskTypes
unfoldable pub is_deferring : String → Bool
is_deferring t = str_eq t "local_agent" || str_eq t "local_workflow"

-- sessionState.set
unfoldable pub set_state : String → SessionState → SessionState
set_state st s = record s { reported = true; state = st }

-- inflight[id] = struct{}{}
unfoldable pub add_id : String → List String → List String
add_id id ids = if contains ids id then ids else id ∷ ids

-- delete(inflight, id)
unfoldable pub remove_id : String → List String → List String
remove_id id ids = select (λ x. not (str_eq x id)) ids

-- The set that a background_tasks_changed level lists
unfoldable pub listed : List BackgroundTask → List String
listed [] = []
listed (t ∷ ts) =
    let rest = listed ts in
    if is_deferring t.task_type && not t.ambient then add_id t.task_id rest else rest

-- The switch of sessionState.track, on the four fields that it tests in turn
unfoldable pub switch_track :
    Option TaskStartedMessage
    → Option BackgroundTasksChangedMessage
    → Option TaskNotificationMessage
    → Option TaskUpdatedMessage
    → List String
    → List String
switch_track (some t) _ _ _ ids = if is_deferring t.task_type then add_id t.task_id ids else ids
switch_track none (some b) _ _ ids = listed b.tasks
switch_track none none (some t) _ ids = remove_id t.task_id ids
switch_track none none none (some t) ids =
    if is_terminal t.status then remove_id t.task_id ids else ids
switch_track none none none none ids = ids

unfoldable pub next_inflight : Message → List String → List String
next_inflight msg ids =
    switch_track msg.task_started msg.background_tasks_changed msg.task_notification
      msg.task_updated ids

abbrev pub is_nil : List String → Bool
is_nil [] = true
is_nil (x ∷ xs) = false

-- sessionState.track: the new state, and whether the last agent left the ledger
unfoldable pub track : Message → SessionState → SessionState × Bool
track msg s =
    let after = next_inflight msg s.inflight in
    (record s { inflight = after }, not (is_nil s.inflight) && is_nil after)

-- sessionState.runOver
unfoldable pub run_over : SessionState → Bool
run_over s = is_nil s.inflight && (not s.reported || str_eq s.state session_state_idle)

-- The struct that hostOnly decodes
abbrev pub decode_host_only : Fields → Option Bool
decode_host_only m = get_bool m "sdk_host_only"

-- json.Unmarshal(raw, &p) == nil && p.SDKHostOnly
unfoldable pub raw_host_only : Option Value → Bool
raw_host_only none = false
raw_host_only (some v) = elim (decode_struct decode_host_only v) [ none ↦ false | some b ↦ b ]

-- hostOnly
unfoldable pub host_only : Message → Bool
host_only msg = elim msg.session_state_changed [
  | none ↦ false
  | some _ ↦ elim msg.system [ none ↦ false | some sys ↦ raw_host_only sys.raw ]
]

-- What a round of the loop takes from its `select`. A message comes with the answer that `yield`
-- gives if it is called; an error is none for a nil error or, after the channel is closed, for none
-- waiting.
pub data Event (E : Type 0) : Type 0 where
  received : Message → Bool → Event E
  closed : Option E → Event E
  ceiling_passed : Event E
  errored : Option E → Event E
  cancelled : E → Event E

pub data Yield (E : Type 0) : Type 0 where
  message : Message → Yield E
  error : E → Yield E

-- Why `run` returned
pub data Ending : Type 0 where
  consumer_stopped channel_closed at_idle at_result at_ceiling on_error on_cancel : Ending

-- The session's state, and the locals of run; `armed` says that the ceiling's channel is not nil.
pub record RunState : Type 0 where
  pub session : SessionState
  pub result_seen : Bool
  pub armed : Bool

pub record Round (E : Type 0) : Type 0 where
  pub next : RunState
  pub yielded : List (Yield E)
  pub ending : Option Ending

module _ {E : Type 0} where
  abbrev pub yield_error : Option E → List (Yield E)
  yield_error none = []
  yield_error (some e) = error e ∷ []

  -- A session_state_changed message
  unfoldable pub on_state : Message → SessionStateChangedMessage → Bool → RunState → Round E
  on_state msg changed accepts r =
      let session = set_state changed.state r.session in
      let hidden = host_only msg in
      let yielded = if hidden then [] else message msg ∷ [] in
      if not hidden && not accepts
      then record {
        next = record r { session = session };
        yielded = yielded;
        ending = some consumer_stopped;
      }
      else if not r.result_seen
      then record { next = record r { session = session }; yielded = yielded; ending = none }
      else if str_eq changed.state session_state_idle && is_nil session.inflight
      then record {
        next = record r { session = session };
        yielded = yielded;
        ending = some at_idle;
      }
      else record {
        next = record r { session = session; armed = false };
        yielded = yielded;
        ending = none;
      }

  -- Any other message
  unfoldable pub on_message : Message → Bool → RunState → Round E
  on_message msg accepts r =
      let (session, settled) = track msg r.session in
      let armed = r.armed || settled && r.result_seen in
      if not accepts
      then record { next = r; yielded = message msg ∷ []; ending = some consumer_stopped }
      else elim msg.result [
        | none ↦ record {
          next = record r { session = session; armed = armed };
          yielded = message msg ∷ [];
          ending = none;
        }
        | some _ ↦
            if run_over session
            then record {
              next = record { session = session; result_seen = true; armed = armed };
              yielded = message msg ∷ [];
              ending = some at_result;
            }
            else record {
              next = record { session = session; result_seen = true; armed = true };
              yielded = message msg ∷ [];
              ending = none;
            }
      ]

  -- One round of the loop of run
  unfoldable pub round : Event E → RunState → Round E
  round (received msg accepts) r = elim msg.session_state_changed [
    | some changed ↦ on_state msg changed accepts r
    | none ↦ on_message msg accepts r
  ]
  round (closed e) r = record { next = r; yielded = yield_error e; ending = some channel_closed }
  round ceiling_passed r =
      if is_nil r.session.inflight
      then record { next = r; yielded = []; ending = some at_ceiling }
      else record { next = record r { armed = false }; yielded = []; ending = none }
  round (errored e) r = record { next = r; yielded = yield_error e; ending = some on_error }
  round (cancelled e) r = record { next = r; yielded = error e ∷ []; ending = some on_cancel }

  -- What a list of events makes of run: its last state, all it yielded, and how it ended, if the
  -- events reached an end. Events after the end are not consumed.
  unfoldable pub run : List (Event E) → RunState → Round E
  run [] r = record { next = r; yielded = []; ending = none }
  run (event ∷ events) r =
      let here = round event r in
      let later = run events here.next in
      elim here.ending [
        | some why ↦ here
        | none ↦ record {
          next = later.next;
          yielded = here.yielded ++ later.yielded;
          ending = later.ending;
        }
      ]

-- The locals of run before its loop; the session's state outlives the Query.
abbrev pub start : SessionState → RunState
start s = record { session = s; result_seen = false; armed = false }
