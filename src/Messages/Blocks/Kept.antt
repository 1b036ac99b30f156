-- ===== src/Messages/Blocks/Kept.antt =====
-- What contentBlocksFromRaw keeps of the blocks of an array.
use claude_agent_sdk_go.Base.{
  if-cases, subst, true, ℕ, suc, String, ◌≡◌, refl, sym, some, eq_iff, arith, str_eq,
}
use claude_agent_sdk_go.Base.Result.{
  Result, ok, err, ◌>>=◌, wrap_error, ok_or, bind-eq-ok, ok_or-eq-ok, wrap_error-eq-ok,
}
use claude_agent_sdk_go.Json.{Value, Fields, Items, no_items, item, end, field, get}
use claude_agent_sdk_go.Json.Decode.{decode_struct}
use claude_agent_sdk_go.Protocol.Blocks.{
  ContentBlock as WireBlock, decode_content_block, is_server_tool_result,
}
use claude_agent_sdk_go.Messages.Blocks.{
  ContentBlock, ContentBlocks, no_blocks, block, text, thinking, tool_use, tool_result,
  server_tool_use, server_tool_result, unknown, ContentError, content_block_from_wire,
  server_tool_result_from_wire, tool_result_from_wire, block_at, content_items, inner_of,
  inner_fields, content_blocks_from_raw, in_block, decode_block,
}

-- The recursion reaches the content that the source does: that of the key "content".
pub inner_fields_lem : (m : Fields) → inner_fields m ≡ content_blocks_from_raw (get "content" m)
unfolding inner_fields content_blocks_from_raw get
inner_fields_lem end = refl
inner_fields_lem (field k v m) = ground (arith, inner_fields_lem m)

-- The type of a block
abbrev pub block_type : ContentBlock → String
block_type (text b) = "text"
block_type (thinking b) = "thinking"
block_type (tool_use b) = "tool_use"
block_type (tool_result id content raw failed) = "tool_result"
block_type (server_tool_use b) = "server_tool_use"
block_type (server_tool_result b) = b.type
block_type (unknown b) = b.type

-- A block that the SDK does not model has the whole value.
abbrev pub IsWhole : ContentBlock → Value → Type 0
IsWhole (unknown b) v = b.raw ≡ some v
IsWhole _ v = Unit

-- `c` is the block that `v` was decoded as: of its type, and whole where it is not modelled.
pub record IsBlockOf (v : Value) (c : ContentBlock) : Type 0 where
  pub wire : WireBlock
  pub decoded : decode_struct decode_content_block v ≡ some wire
  pub same_type : block_type c ≡ wire.type
  pub whole : IsWhole c v

abbrev pub AreBlocksOf : Items → ContentBlocks → Type 0
AreBlocksOf no_items no_blocks = Unit
AreBlocksOf (item v xs) (block c cs) = IsBlockOf v c × AreBlocksOf xs cs
AreBlocksOf _ _ = ⊥

-- What is asked of an outcome for a block of type `t` and value `v`
abbrev Gives : String → Value → Result ContentError ContentBlock → Type 0
Gives t v r = (c : ContentBlock) → r ≡ ok c → (block_type c ≡ t) × IsWhole c v

ok-Gives :
    (t : String) (v : Value) (d : ContentBlock) → block_type d ≡ t → IsWhole d v → Gives t v (ok d)
ok-Gives t v d same whole c h =
    let e : d ≡ c = cc in subst (λ x. (block_type x ≡ t) × IsWhole x v) e (same, whole)

tool_result-Gives :
    (b : WireBlock) (v : Value) (inner : Result ContentError ContentBlocks)
    → b.type ≡ "tool_result"
    → Gives b.type v (tool_result_from_wire b inner)
tool_result-Gives b v (ok cs) same c h = ok-Gives b.type v _ (sym same) tt c h
tool_result-Gives b v (err e) same c h = absurd (cc)

content_block_from_wire-Gives :
    (b : WireBlock) (v : Value) (inner : Result ContentError ContentBlocks)
    → Gives b.type v (content_block_from_wire b v inner)
unfolding content_block_from_wire
content_block_from_wire-Gives b v inner =
    let named : (k : String) → str_eq b.type k ≡ true → k ≡ b.type =
      λ k h. sym ((eq_iff b.type k).0 h) in
    let P = Gives b.type v in
    if-cases P (str_eq b.type "text") (λ h. ok-Gives b.type v _ (named "text" h) tt)
      λ _.
        if-cases P (str_eq b.type "thinking") (λ h. ok-Gives b.type v _ (named "thinking" h) tt)
          λ _.
            if-cases P (str_eq b.type "tool_use") (λ h. ok-Gives b.type v _ (named "tool_use" h) tt)
              λ _.
                if-cases P (str_eq b.type "server_tool_use")
                  (λ h. ok-Gives b.type v _ (named "server_tool_use" h) tt)
                  λ _.
                    if-cases P (str_eq b.type "server_tool_result")
                      (λ h.
                        ok-Gives b.type v (server_tool_result (server_tool_result_from_wire b)) refl
                          tt)
                      λ _.
                        if-cases P (str_eq b.type "tool_result")
                          (λ h. tool_result-Gives b v inner ((eq_iff b.type "tool_result").0 h))
                          λ _.
                            if-cases P (is_server_tool_result b.type)
                              (λ h.
                                ok-Gives b.type v
                                  (server_tool_result (server_tool_result_from_wire b)) refl tt)
                              λ _.
                                ok-Gives b.type v (unknown (record { type = b.type; raw = some v }))
                                  refl refl

-- A block that is read is one of the element's type.
block_at-IsBlockOf :
    (i : ℕ) (v : Value) (inner : Result ContentError ContentBlocks) (c : ContentBlock)
    → block_at i v inner ≡ ok c
    → IsBlockOf v c
unfolding block_at
block_at-IsBlockOf i v inner c h =
    let (b, decoded, made) =
      bind-eq-ok (ok_or (decode_block i) (decode_struct decode_content_block v))
        (λ b. wrap_error (in_block i) (content_block_from_wire b v inner)) h in
    let (same, whole) =
      content_block_from_wire-Gives b v inner c
        (wrap_error-eq-ok (in_block i) (content_block_from_wire b v inner) made) in
    record {
      wire = b;
      decoded = ok_or-eq-ok _ (decode_struct decode_content_block v) decoded;
      same_type = same;
      whole = whole;
    }

-- Of an array, as many blocks are read as it has elements, in their order, each of its element's
-- type; and a block of a type that is not modelled has its element whole.
pub content_items-AreBlocksOf :
    (i : ℕ) (xs : Items) (cs : ContentBlocks) → content_items i xs ≡ ok cs → AreBlocksOf xs cs
unfolding content_items
content_items-AreBlocksOf i no_items cs h =
    let e : no_blocks ≡ cs = cc in subst (AreBlocksOf no_items) e tt
content_items-AreBlocksOf i (item v xs) cs h =
    let (c, read, rest) =
      bind-eq-ok (block_at i v (inner_of v))
        (λ b. content_items (suc i) xs >>= (λ bs. ok (block b bs))) h in
    let (ds, others, same) = bind-eq-ok (content_items (suc i) xs) (λ bs. ok (block c bs)) rest in
    let e : block c ds ≡ cs = cc in
    subst (AreBlocksOf (item v xs)) e
      (block_at-IsBlockOf i v (inner_of v) c read, content_items-AreBlocksOf (suc i) xs ds others)
