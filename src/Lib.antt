-- ===== src/Lib.antt =====
-- Claude Agent SDK for Go: models and theorems of the SDK's own logic.
-- The SDK runs the `claude` CLI as a subprocess, reads its stream of JSON frames and hands messages
-- to the caller; package sessions keeps, lists and forks session transcripts in a SessionStore.
--
-- Json.antt       the values of Go's `any`, and Json/: json.Unmarshal into a struct (Decode), the
--                 fields that json.Marshal writes (Encode), keys but for case (Folded)
-- Text.antt       the functions of strings, strconv, unicode/utf8 and regexp that the packages call
-- Protocol        domains/protocol, the frames of the CLI's stream
--   Wire, Frames, Blocks, Lifecycle, Activity, Events   types.go, lifecycle.go: the structs, each with
--                 the function that decodes it
--   Parser        parser.go: ParseLine (parse_line), which picks the struct by `type` and `subtype`
--   Requests      parser.go: ParseControlRequestBody (parse_control_request_body)
--   Builder       builder.go: the envelopes that the SDK writes
-- Messages        domains/messages, what the caller reads
--   Blocks, Tasks, Activity, Events, Types   types.go, lifecycle.go: the structs of a Message
--   Convert       convert.go: FromWire (from_wire), from a frame to a Message
--   Origin        origin.go: ParseOrigin (parse_origin)
-- Agent           domains/agent
--   Lines         session_manager.go: what readLoop does with one line, from ParseLine to FromWire
--   Control       session_manager.go: readLoop and the control requests that wait for answers
--   Requests      session_manager.go: what handleControlRequest answers the CLI
--   Initialize    session_manager.go: initialize, with the ids of hooks
--   RunEnd        runend.go: sessionState and the loop of sessionManager.run, and the environment (Env)
--   HookFields, HookInput   hookinput.go: the inputs of hooks, ParseHookInput (parse_hook_input)
--   HookOutput    hookoutput.go: the typed outputs of hooks and their maps
--   Options       options.go, sandbox.go, shadowwarn.go: BuildCLIArgs (Args), the merged settings
--                 (Settings), the warning on shadowed rules (Shadow)
--   McpServer     sdkmcp.go: the MCP server in the process
--   Mirror, Path  mirror.go: transcriptMirror and sessionKeyForPath
--   ErrorLine     mirror.go: mirrorErrorLine, and session_manager.go: deliverMirrorError
--   Client, Query client.go: the calls of a Client, query.go: Query
-- Sessions        domains/sessions
--   Types         transcript_store.go, types.go: keys, entries, summaries, listings
--   Summary       summary.go: FoldSessionSummary (fold_session_summary), foldFirstPrompt
--                 (fold_first_prompt), SummaryToSessionInfo (summary_to_session_info)
--   MemoryStore   memory_store.go: each method of MemorySessionStore as a function on its state
--   Paginate      list_from_store.go: paginate
--   Listing       list_from_store.go: ListSessionsFromStore, deriveViaLoad, GetSessionInfoFromStore
--   Chain         messages_from_store.go: conversationChain, GetSessionMessagesFromStore
--   ProjectKey    project_key.go: sanitizePath and simpleHash
--   Edits         mutate_via_store.go: renaming, tagging and deleting through a store
--   Fork          fork_via_store.go: ForkSessionViaStore
--   Subagents     subagents_from_store.go: a session's subagents and their conversations
--   Import        import_to_store.go: a transcript file read into a store, in batches
-- Tests           runs at concrete inputs, and an instance of each theorem with hypotheses
-- Base            shared names, results, lists, maps, sorting, int64 values
--
-- The way of a line: readLoop gives it to ParseLine, a control frame goes to Control or Requests, any
-- other frame through FromWire to RunEnd, which yields it and decides when the run is over. Client
-- sends what Builder builds. A transcript_mirror frame goes to Mirror, which appends to a store of
-- Sessions under the key that Path computes.
--
-- State. A method that runs under a mutex is a function from the state to the state and its result.
-- The loop of run waits in a `select` on four channels: an execution is a list of events, one for
-- each round, in any order that the channels allow (the ceiling passes only while it is armed). The
-- consumer's answer to each yield is part of the event. The session's state outlives one Query. A
-- Go map is an association list with no key twice; the order that Go leaves open is the order of
-- first insertion, and no theorem depends on it. The callers of control requests and readLoop share
-- pendingCtrl and the channels in it: an interleaving is a list of steps, and a send on a closed
-- channel or a second close is a step that gives no state, a panic. Entries that a store and its
-- caller share are not changed by either, so aliasing is not modelled.
--
-- Parameters, for code that is not in the repository or for the environment: the JSON parser and
-- printer on texts (`parse_json`, none for an error, `spell`, `marshal`), `format_float`, time.Parse
-- with RFC3339Nano (`parse_time`, none for an error), the conversion of a float64 to int64
-- (`truncate`), the clock's reading (`now`), new_uuid, filepath.Rel and filepath.IsAbs, the classes
-- of package unicode, files and their state (`read_file`, `disk`), the environment of the
-- process (`lookup_env`), strconv.ParseInt, time.Duration.Seconds, the application's callbacks and
-- tool handlers, and the SessionStore behind a listing, an edit, a fork, an import or the mirror.
-- Strings are their code points. A json.RawMessage is the value it spells, none when it is absent.
-- JSON objects are read by the exact names of their keys, but for the origin of a message, whose keys
-- are read as encoding/json does, whatever their case (Json/Folded). int64 values are integers; the
-- increment of a write time and a duration in milliseconds wrap at 2^63, as does the counter of hooks,
-- and the theorems that need one not to wrap say so.
--
-- Fuel. The walks of Chain and Subagents along parentUuid take one unit for each entry visited, and
-- get one more than the transcript has entries. The loop of Fork that skips progress entries takes
-- one for each of them, and its caller gives it. The digits of a number take one for each digit, and
-- get 20, the length of 2^64. All other recursion is structural.
--
-- Not modelled: processes, pipes and the lock on a file, JSON syntax, request ids and randomness, the
-- schema of a typed tool, and the other parts that PROJECT.json lists as planned.
pub mod Base
pub mod Json
pub mod Text
pub mod Sessions
pub mod Messages
pub mod Protocol
pub mod Agent
mod Tests
