-- ===== src/Tests/Controls.antt =====
-- Control requests, tool servers, callbacks and clients at concrete inputs.
use claude_agent_sdk_go.Base.{
  String, ◌≡◌, refl, true, false, Option, none, some, List, [], ◌∷◌, ◌⊎◌, inr,
}
use claude_agent_sdk_go.Agent.Control.{
  ControlResult, answered, control_response, line, broken, Manager, new_session_manager, Step,
  register, received, run, answer_of,
}
use claude_agent_sdk_go.Agent.Control.Safe.{new-IsOpen}
use claude_agent_sdk_go.Agent.Control.Answers.{decide, verdict, frame_verdict}
use claude_agent_sdk_go.Agent.Control.Answers.Runs.{answer_in, run-decide}
use claude_agent_sdk_go.Agent.McpServer.{McpTool, panicked, SdkMcpServer, RpcMessage, ServerConfig}
use claude_agent_sdk_go.Agent.Client as C
use claude_agent_sdk_go.Agent.Client.Sessions.{follow, run-follows}

abbrev result : ControlResult
result = record { body = "{}"; err = "" }

abbrev steps : List Step
steps =
    received (line (control_response "req_2" result)) false
    ∷ received (line (control_response "req_1" result)) false
    ∷ received (broken true "EOF") false
    ∷ []

run-decide_example :
    (n : Manager) × (run true (register "req_1" ∷ steps) new_session_manager ≡ some n)
    × (answer_in "req_1" true n ≡ decide "req_1" steps)
run-decide_example =
    run-decide "req_1" true new_session_manager steps new-IsOpen refl (tt, (tt, (tt, tt)))

first_response : decide "req_1" steps ≡ answered "{}"
unfolding decide verdict frame_verdict answer_of
first_response = refl

abbrev crash : McpTool
crash = record {
  name = "crash";
  description = "";
  input_schema = "";
  annotations = none;
  handler = some (λ args. panicked args);
}

abbrev server : SdkMcpServer
server = record { name = "tools"; version = "1.0.0"; tools = crash ∷ [] }

abbrev call : RpcMessage
call = record { id = "7"; method = "tools/call"; params = "crash" }

abbrev decode_rpc : String → String ⊎ RpcMessage
decode_rpc raw = inr call

abbrev decode_version : String → Option String
decode_version s = none

abbrev decode_call : String → Option (String × String)
decode_call s = some (s, "")

abbrev configs : List ServerConfig
configs = ("", some server) ∷ ("remote", none) ∷ ("other", some server) ∷ []

abbrev calls : List C.Call
calls =
    C.connect none none (some "timeout")
    ∷ C.connect none none none
    ∷ C.query "hi" none
    ∷ C.disconnect none
    ∷ C.request C.interrupt none
    ∷ []

run-follows_example :
    follow false (C.run calls C.new_client).0 ≡ some (C.run calls C.new_client).1.connected
run-follows_example = run-follows calls
