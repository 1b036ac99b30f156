-- ===== src/Messages/Blocks.antt =====
-- domains/messages: content blocks (types.go) and their conversion (convert.go).
pub mod Kept
pub mod Failures
use claude_agent_sdk_go.Base.{
  ℕ, suc, String, Bool, true, false, ◌||◌, Option, none, some, List, [], ◌∷◌, map, str_eq, pos,
  milliseconds, if◌then◌else◌,
}
use claude_agent_sdk_go.Json.{
  Value, Fields, Items, null, str, arr, obj, end, field, no_items, item, get,
}
use claude_agent_sdk_go.Base.Result.{Result, ok, err, ok_or, ◌>>=◌, wrap_error}
use claude_agent_sdk_go.Json.Decode.{decode_struct}
use claude_agent_sdk_go.Protocol.Blocks.{
  ContentBlock as WireBlock, decode_content_block, is_server_tool_result,
}

pub record TextBlock : Type 0 where
  pub text : String

pub record ThinkingBlock : Type 0 where
  pub thinking : String
  pub signature : String

pub record ToolUseBlock : Type 0 where
  pub id : String
  pub name : String
  pub input : Option Value

pub record ServerToolUseBlock : Type 0 where
  pub id : String
  pub name : String
  pub input : Option Value

pub record ServerToolResultBlock : Type 0 where
  pub tool_use_id : String
  pub content : Option Value
  pub is_error : Bool
  pub type : String

pub record UnknownBlock : Type 0 where
  pub type : String
  pub raw : Option Value

-- ContentBlock, of whose pointers the conversion sets one, and a slice of them. The arguments of
-- tool_result are the fields of ToolResultBlock: ToolUseID, Content, RawContent and IsError.
mutual
  pub data ContentBlock : Type 0 where
    text : TextBlock → ContentBlock
    thinking : ThinkingBlock → ContentBlock
    tool_use : ToolUseBlock → ContentBlock
    tool_result : String → ContentBlocks → Option Value → Bool → ContentBlock
    server_tool_use : ServerToolUseBlock → ContentBlock
    server_tool_result : ServerToolResultBlock → ContentBlock
    unknown : UnknownBlock → ContentBlock

  pub data ContentBlocks : Type 0 where
    no_blocks : ContentBlocks
    block : ContentBlock → ContentBlocks → ContentBlocks

-- The errors of the conversion, with the index of the block that each wraps
pub data ContentError : Type 0 where
  parse_content_blocks : ContentError
  decode_block : ℕ → ContentError
  in_block : ℕ → ContentError → ContentError
  inner_content : ContentError → ContentError

abbrev pub true_or_false : Option Bool → Bool
true_or_false none = false
true_or_false (some b) = b

-- serverToolResultFromWire
abbrev pub server_tool_result_from_wire : WireBlock → ServerToolResultBlock
server_tool_result_from_wire b = record {
  tool_use_id = b.tool_use_id;
  content = b.content;
  is_error = true_or_false b.is_error;
  type = b.type;
}

-- The case of a tool_result
abbrev pub tool_result_from_wire :
    WireBlock → Result ContentError ContentBlocks → Result ContentError ContentBlock
tool_result_from_wire b inner = do
  blocks ← wrap_error inner_content inner
  ok (tool_result b.tool_use_id blocks b.content (true_or_false b.is_error))

-- contentBlockFromWire, on what contentBlocksFromRaw makes of the block's own content
unfoldable pub content_block_from_wire :
    WireBlock → Value → Result ContentError ContentBlocks → Result ContentError ContentBlock
content_block_from_wire b raw inner =
    if str_eq b.type "text"
    then ok (text (record { text = b.text }))
    else if str_eq b.type "thinking"
    then ok (thinking (record { thinking = b.thinking; signature = b.signature }))
    else if str_eq b.type "tool_use"
    then ok (tool_use (record { id = b.id; name = b.name; input = b.input }))
    else if str_eq b.type "server_tool_use"
    then ok (server_tool_use (record { id = b.id; name = b.name; input = b.input }))
    else if str_eq b.type "server_tool_result"
    then ok (server_tool_result (server_tool_result_from_wire b))
    else if str_eq b.type "tool_result"
    then tool_result_from_wire b inner
    else if is_server_tool_result b.type
    then ok (server_tool_result (server_tool_result_from_wire b))
    else ok (unknown (record { type = b.type; raw = some raw }))

-- One round of the loop of contentBlocksFromRaw
unfoldable pub block_at :
    ℕ → Value → Result ContentError ContentBlocks → Result ContentError ContentBlock
block_at i v inner = do
  b ← ok_or (decode_block i) (decode_struct decode_content_block v)
  wrap_error (in_block i) (content_block_from_wire b v inner)

-- contentBlocksFromRaw on a text that is not empty, and its loop from an index on. inner_of is what it
-- makes of the content of an element, by the recursion that the source reaches through the block.
unfoldable mutual
  pub content_blocks : Value → Result ContentError ContentBlocks
  content_blocks null = ok (block (text (record { text = "" })) no_blocks)
  content_blocks (str s) = ok (block (text (record { text = s })) no_blocks)
  content_blocks (arr xs) = content_items 0 xs
  content_blocks _ = err parse_content_blocks

  pub content_items : ℕ → Items → Result ContentError ContentBlocks
  content_items i no_items = ok no_blocks
  content_items i (item v xs) = do
    b ← block_at i v (inner_of v)
    bs ← content_items (suc i) xs
    ok (block b bs)

  pub inner_of : Value → Result ContentError ContentBlocks
  inner_of (obj m) = inner_fields m
  inner_of _ = ok no_blocks

  pub inner_fields : Fields → Result ContentError ContentBlocks
  inner_fields end = ok no_blocks
  inner_fields (field k v m) =
      let here = content_blocks v in
      let rest = inner_fields m in if str_eq k "content" then here else rest

-- contentBlocksFromRaw
unfoldable pub content_blocks_from_raw : Option Value → Result ContentError ContentBlocks
content_blocks_from_raw none = ok no_blocks
content_blocks_from_raw (some v) = content_blocks v
