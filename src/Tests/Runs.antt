-- ===== src/Tests/Runs.antt =====
-- A Query that waits for a background agent.
use claude_agent_sdk_go.Base.{
  String, pos, ◌≡◌, refl, true, false, none, some, List, [], ◌∷◌, ◌++◌, map, contains, string_eq,
}
use claude_agent_sdk_go.Json.{bool, obj, end, field, get}
use claude_agent_sdk_go.Messages.Tasks.{TaskStartedMessage, TaskUpdatedMessage, is_terminal}
use claude_agent_sdk_go.Messages.Types.{Message, SystemMessage, ResultMessage, new_message}
use claude_agent_sdk_go.Agent.RunEnd.{
  new_session_state, is_deferring, add_id, remove_id, set_state, switch_track, next_inflight, track,
  run_over, host_only, raw_host_only, Event, received, ceiling_passed, message, at_result, at_idle,
  on_state, on_message, round, run, start,
}
use claude_agent_sdk_go.Agent.RunEnd.Consumed.{consumed}
use claude_agent_sdk_go.Agent.RunEnd.Ledger.{out_after, track_all, contains-track_all}
use claude_agent_sdk_go.Agent.RunEnd.Settled.{IsSettled, IsEnabled, query_ends-IsSettled}
use claude_agent_sdk_go.Agent.RunEnd.Delivery.{shown_all, yielded-run}
use claude_agent_sdk_go.Agent.RunEnd.Quiet.{accepted, IsPlain, run-quiet}

abbrev success : ResultMessage
success = record {
  session_id = "";
  uuid = none;
  subtype = "success";
  is_error = false;
  num_turns = pos 0;
  duration_ms = pos 0;
  result = "";
  total_cost_usd = none;
  stop_reason = none;
  usage = none;
  duration_api_ms = pos 0;
  terminal_reason = none;
  api_error_status = none;
  structured_output = none;
  model_usage = none;
  permission_denials = none;
  errors = [];
  origin = none;
  deferred_tool_use = none;
}

abbrev started : TaskStartedMessage
started = record {
  session_id = "";
  uuid = "";
  task_id = "a";
  tool_use_id = "";
  description = "";
  subagent_type = "";
  is_backgrounded = none;
  spawn_depth = none;
  task_type = "local_agent";
  workflow_name = "";
  prompt = "";
  skip_transcript = false;
  ambient = false;
}

abbrev killed : TaskUpdatedMessage
killed = record {
  session_id = "";
  uuid = "";
  task_id = "a";
  status = "killed";
  patch = record {
    description = none;
    end_time = none;
    total_paused_ms = none;
    error = none;
    is_backgrounded = none;
  };
  raw_patch = none;
}

abbrev host_only_idle : SystemMessage
host_only_idle = record {
  session_id = "";
  subtype = "session_state_changed";
  nested = none;
  task_id = "";
  uuid = "";
  raw = some (obj (field "sdk_host_only" (bool true) end));
}

abbrev result : Message
result = record new_message { result = some success }

abbrev agent_starts : Message
agent_starts = record new_message { task_started = some started }

abbrev agent_ends : Message
agent_ends = record new_message { task_updated = some killed }

abbrev idle : Message
idle = record new_message {
  system = some host_only_idle;
  session_state_changed =
      some (record { session_id = ""; uuid = ""; state = "idle"; waiting_on_user = none });
}

-- The first result does not end the run: the agent is out. The ceiling passes while it is, and the
-- hidden "idle" after its end does.
abbrev waiting : List (Event String)
waiting =
    received agent_starts true
    ∷ received result true
    ∷ ceiling_passed
    ∷ received agent_ends true
    ∷ received idle true
    ∷ received new_message true
    ∷ []

waiting_ends : (run waiting (start new_session_state)).ending ≡ some at_idle
unfolding run round on_state on_message track next_inflight switch_track is_deferring add_id
    remove_id is_terminal set_state run_over host_only raw_host_only get
waiting_ends = refl

waiting-IsEnabled : IsEnabled String waiting (start new_session_state)
unfolding round on_state on_message track next_inflight switch_track is_deferring add_id remove_id
    is_terminal set_state run_over host_only raw_host_only get
waiting-IsEnabled = (refl, tt)

query_ends-IsSettled_example :
    IsSettled at_idle new_session_state (consumed waiting (start new_session_state))
query_ends-IsSettled_example =
    query_ends-IsSettled waiting new_session_state at_idle waiting-IsEnabled waiting_ends refl

contains-track_all_example :
    contains (track_all (agent_starts ∷ result ∷ []) new_session_state).inflight "a"
    ≡ out_after "a" false (agent_starts ∷ result ∷ [])
contains-track_all_example = contains-track_all "a" (agent_starts ∷ result ∷ []) new_session_state

yielded-run_example :
    ((run waiting (start new_session_state)).yielded
      ≡ shown_all (consumed waiting (start new_session_state)))
    × ((rest : List (Event String)) × (waiting ≡ consumed waiting (start new_session_state) ++ rest)
        × ((run waiting (start new_session_state)).ending ≡ none → rest ≡ []))
yielded-run_example = yielded-run waiting (start new_session_state)

blank-IsPlain : IsPlain new_message
blank-IsPlain = record {
  no_state = refl;
  no_start = refl;
  no_level = refl;
  no_notification = refl;
  no_update = refl;
}

result-IsPlain : IsPlain result
result-IsPlain = record {
  no_state = refl;
  no_start = refl;
  no_level = refl;
  no_notification = refl;
  no_update = refl;
}

run-quiet_example :
    ((run
        (accepted String (new_message ∷ []) ++ received result true ∷ [])
        (start new_session_state)).ending
      ≡ some at_result)
    × ((run
          (accepted String (new_message ∷ []) ++ received result true ∷ [])
          (start new_session_state)).yielded
        ≡ map message (new_message ∷ result ∷ []))
run-quiet_example =
    run-quiet String (new_message ∷ []) result success [] (start new_session_state)
      ((blank-IsPlain, refl), tt) result-IsPlain refl
      (record { unreported = refl; no_agents = refl })
