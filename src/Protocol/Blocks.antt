-- ===== src/Protocol/Blocks.antt =====
-- domains/protocol/types.go: content blocks.
use claude_agent_sdk_go.Base.{String, Bool, Option, some, ◌||◌, str_eq}
use claude_agent_sdk_go.Json.{Value, Fields, get}
use claude_agent_sdk_go.Json.Decode.{◌>>=◌, get_text, get_maybe_bool}

pub record ContentBlock : Type 0 where
  pub type : String
  pub text : String
  pub thinking : String
  pub signature : String
  pub id : String
  pub name : String
  pub input : Option Value
  pub tool_use_id : String
  pub content : Option Value
  pub is_error : Option Bool

unfoldable pub decode_content_block : Fields → Option ContentBlock
decode_content_block m = do
  type ← get_text m "type"
  text ← get_text m "text"
  thinking ← get_text m "thinking"
  signature ← get_text m "signature"
  id ← get_text m "id"
  name ← get_text m "name"
  tool_use_id ← get_text m "tool_use_id"
  is_error ← get_maybe_bool m "is_error"
  some (record {
    type = type;
    text = text;
    thinking = thinking;
    signature = signature;
    id = id;
    name = name;
    input = get "input" m;
    tool_use_id = tool_use_id;
    content = get "content" m;
    is_error = is_error;
  })

-- IsServerToolResult, with the keys of serverToolResultTypes
unfoldable pub is_server_tool_result : String → Bool
is_server_tool_result t =
    str_eq t "web_search_tool_result"
    || str_eq t "web_fetch_tool_result"
    || str_eq t "advisor_tool_result"
    || str_eq t "code_execution_tool_result"
    || str_eq t "bash_code_execution_tool_result"
    || str_eq t "text_editor_code_execution_tool_result"
    || str_eq t "tool_search_tool_result"
