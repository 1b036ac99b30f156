-- ===== src/Agent/RunEnd/Ledger.antt =====
-- Which agents the ledger of runend.go holds after a sequence of messages.
use claude_agent_sdk_go.Base.{
  String, ◌≡◌, refl, ◌∙◌, ap, sym, Bool, true, not, ◌&&◌, ◌||◌, Option, none, some, List, [], ◌∷◌,
  contains, any, arith, str_eq, string_eq, eq_iff, Bool-cases, inl, inr,
}
use claude_agent_sdk_go.Messages.Activity.{BackgroundTask, BackgroundTasksChangedMessage}
use claude_agent_sdk_go.Messages.Tasks.{
  TaskStartedMessage, TaskUpdatedMessage, TaskNotificationMessage, is_terminal,
}
use claude_agent_sdk_go.Messages.Types.{Message}
use claude_agent_sdk_go.Agent.RunEnd.{
  is_deferring, add_id, remove_id, listed, switch_track, next_inflight, track, SessionState,
}

contains-add_id :
    (id j : String) (ids : List String)
    → contains (add_id id ids) j ≡ (str_eq id j || contains ids j)
unfolding add_id
contains-add_id id j ids = elim (Bool-cases (contains ids id)) [
  | inl old ↦ rw old (old_one old)
  | inr new ↦ rw new refl
]
  where
    old_one : contains ids id ≡ true → contains ids j ≡ (str_eq id j || contains ids j)
    old_one old = elim (Bool-cases (str_eq id j)) [
      | inl same ↦ rw same (ap (contains ids) (sym ((eq_iff id j).0 same)) ∙ old)
      | inr other ↦ rw other refl
    ]

contains-remove_id :
    (id j : String) (ids : List String)
    → contains (remove_id id ids) j ≡ (not (str_eq id j) && contains ids j)
unfolding remove_id
contains-remove_id id j [] = ground arith
contains-remove_id id j (x ∷ xs) =
    ground (arith, contains-remove_id id j xs, eq_iff x id, eq_iff x j, eq_iff id j)

-- Whether a level lists the agent as running and not ambient
pub is_listed : String → List BackgroundTask → Bool
is_listed id ts = any (λ t. is_deferring t.task_type && not t.ambient && str_eq t.task_id id) ts

contains-listed :
    (id : String) (ts : List BackgroundTask) → contains (listed ts) id ≡ is_listed id ts
unfolding listed is_listed
contains-listed id [] = refl
contains-listed id (t ∷ ts) =
    ground (arith, contains-listed id ts, contains-add_id t.task_id id (listed ts))

-- What one message says of the agent `id`: whether it is out after it, if it was `out` before
pub out_after_switch :
    String
    → Bool
    → Option TaskStartedMessage
    → Option BackgroundTasksChangedMessage
    → Option TaskNotificationMessage
    → Option TaskUpdatedMessage
    → Bool
out_after_switch id out (some t) _ _ _ = is_deferring t.task_type && str_eq t.task_id id || out
out_after_switch id out none (some b) _ _ = is_listed id b.tasks
out_after_switch id out none none (some t) _ = not (str_eq t.task_id id) && out
out_after_switch id out none none none (some t) =
    not (is_terminal t.status && str_eq t.task_id id) && out
out_after_switch id out none none none none = out

pub out_after : String → Bool → List Message → Bool
out_after id out [] = out
out_after id out (msg ∷ msgs) =
    out_after id
      (out_after_switch id out msg.task_started msg.background_tasks_changed msg.task_notification
        msg.task_updated)
      msgs

contains-switch_track :
    (id : String) (a : Option TaskStartedMessage) (b : Option BackgroundTasksChangedMessage)
    (c : Option TaskNotificationMessage) (d : Option TaskUpdatedMessage) (ids : List String)
    → contains (switch_track a b c d ids) id ≡ out_after_switch id (contains ids id) a b c d
unfolding switch_track out_after_switch
contains-switch_track id (some t) b c d ids = ground (arith, contains-add_id t.task_id id ids)
contains-switch_track id none (some b) c d ids = contains-listed id b.tasks
contains-switch_track id none none (some t) d ids = contains-remove_id t.task_id id ids
contains-switch_track id none none none (some t) ids =
    ground (arith, contains-remove_id t.task_id id ids)
contains-switch_track id none none none none ids = refl

-- The messages' effect on a session's state, one `track` each
pub track_all : List Message → SessionState → SessionState
track_all [] s = s
track_all (msg ∷ msgs) s = track_all msgs (track msg s).0

-- After any messages an agent is in the ledger exactly if the last message that speaks of it left
-- it running: a start or a level that lists it, and no end or later level without it.
pub contains-track_all :
    (id : String) (msgs : List Message) (s : SessionState)
    → contains (track_all msgs s).inflight id ≡ out_after id (contains s.inflight id) msgs
unfolding track_all out_after track next_inflight
contains-track_all id [] s = refl
contains-track_all id (msg ∷ msgs) s =
    contains-track_all id msgs (track msg s).0
    ∙ ap (λ out. out_after id out msgs)
        (contains-switch_track id msg.task_started msg.background_tasks_changed
          msg.task_notification msg.task_updated s.inflight)

-- A background_tasks_changed level decides by itself whether an agent is in the ledger, whatever
-- came before it: a missed bookend cannot keep one there past the next level.
pub level_replaces :
    (id : String) (msg : Message) (b : BackgroundTasksChangedMessage) (s : SessionState)
    → msg.task_started ≡ none
    → msg.background_tasks_changed ≡ some b
    → contains (track msg s).0.inflight id ≡ is_listed id b.tasks
unfolding track next_inflight switch_track
level_replaces id msg b s started level = rw (started, level) (contains-listed id b.tasks)

-- The same of one message
pub contains-track :
    (id : String) (msg : Message) (s : SessionState)
    → contains (track msg s).0.inflight id ≡ out_after id (contains s.inflight id) (msg ∷ [])
unfolding track_all
contains-track id msg s = contains-track_all id (msg ∷ []) s
