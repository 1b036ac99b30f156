-- ===== src/Agent/Client.antt =====
-- domains/agent/client.go: Client. A history is calls one after the other, each a step on `connected`,
-- which is whether c.sm is set; two calls at once, as a Disconnect while a Query runs, are not
-- modelled. What validateOptions, the start of the transport, initialize, Close and a request give
-- comes with the call, an error or none; the effects on the session are the call's events, in order.
pub mod Sessions
use claude_agent_sdk_go.Base.{
  ℕ, suc, ◌+◌, String, Bool, true, false, Option, none, some, List, [], ◌∷◌, ◌++◌, if◌then◌else◌,
}

-- The requests that a Client forwards to its session
pub data Request : Type 0 where
  interrupt : Request
  set_permission_mode : String → Request
  set_model : String → Request
  mcp_status : Request
  context_usage : Request
  reconnect_mcp_server : String → Request
  toggle_mcp_server : String → Bool → Request
  stop_task : String → Request
  rewind_files : String → Request

pub data Call : Type 0 where
  connect : Option String → Option String → Option String → Call
  disconnect : Option String → Call
  query : String → Option String → Call
  request : Request → Option String → Call

pub data Event : Type 0 where
  opened : Event
  closed : Event
  prompted : String → Event
  requested : Request → Event
  ran : Event

pub record Client : Type 0 where
  pub connected : Bool

-- NewClient
abbrev pub new_client : Client
new_client = record { connected = false }

-- The error of the call, the events and the state after it
abbrev pub Done : Type 0
Done = Option String × List Event × Client

-- Connect: the errors are those of validateOptions, of the transport and of initialize
unfoldable pub on_connect : Option String → Option String → Option String → Client → Done
on_connect invalid failed initialized c =
    if c.connected then (some "already connected", [], c) else elim invalid [
      | some e ↦ (some e, [], c)
      | none ↦ elim failed [
        | some e ↦ (some e, [], c)
        | none ↦ (initialized, opened ∷ [], record { connected = true })
      ]
    ]

-- Disconnect
unfoldable pub on_disconnect : Option String → Client → Done
on_disconnect result c =
    if c.connected then (result, closed ∷ [], record { connected = false }) else (none, [], c)

-- Query, whose iterator yields the error
unfoldable pub on_query : String → Option String → Client → Done
on_query prompt sent c =
    if c.connected
    then elim sent [
      | some e ↦ (some e, prompted prompt ∷ [], c)
      | none ↦ (none, prompted prompt ∷ ran ∷ [], c)
    ]
    else (some "not connected: call Connect() first", [], c)

-- Interrupt, SetPermissionMode, SetModel, MCPStatus, ContextUsage, ReconnectMCPServer,
-- ToggleMCPServer, StopTask and RewindFiles
unfoldable pub on_request : Request → Option String → Client → Done
on_request r result c =
    if c.connected then (result, requested r ∷ [], c) else (some "not connected", [], c)

unfoldable pub do_call : Call → Client → Done
do_call (connect invalid failed initialized) c = on_connect invalid failed initialized c
do_call (disconnect result) c = on_disconnect result c
do_call (query prompt sent) c = on_query prompt sent c
do_call (request r result) c = on_request r result c

-- The events of a history of calls, and the state after it
unfoldable pub run : List Call → Client → List Event × Client
run [] c = ([], c)
run (k ∷ ks) c =
    let (e, events, c₁) = do_call k c in let (later, c₂) = run ks c₁ in (events ++ later, c₂)
