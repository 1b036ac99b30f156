-- ===== src/Agent/McpServer/Replies.antt =====
-- Which messages an SDK MCP server replies to, and with what id.
use claude_agent_sdk_go.Base.{
  String, ◌≡◌, refl, ◌∙◌, ap, sym, false, Option, none, some, List, [], ◌∷◌, ◌⊎◌, inl, inr, str_eq,
  string_eq, eq_iff, arith, All, Bool-cases, Option-cases, if_true, if_false, if◌then◌else◌,
}
use claude_agent_sdk_go.Base.Assoc
use claude_agent_sdk_go.Base.Assoc.{get-put, get-put_self}
use claude_agent_sdk_go.Text.{is_empty}
use claude_agent_sdk_go.Agent.McpServer.{
  SdkMcpServer, McpTool, RpcMessage, Reply, rpc_result, rpc_error, called, Outcome, find_tool,
  run_tool, call_tool, ServerConfig, name_of, sdk_servers,
}

some_inj : {A : Type 0} {a b : A} → some a ≡ some b → a ≡ b
some_inj {A} {a} p = ap (λ o. elim o [ none ↦ a | some x ↦ x ]) p

inr_inj : {A B : Type 0} {a b : B} → ◌≡◌ {A = A ⊎ B} (inr a) (inr b) → a ≡ b
inr_inj {A} {B} {a} p = ap (λ o. elim o [ inl x ↦ a | inr y ↦ y ]) p

pub reply_id : Reply → String
reply_id (rpc_result id payload) = id
reply_id (rpc_error id code text) = id

find_tool-name :
    (name : String) (ts : List McpTool) (t : McpTool) → find_tool name ts ≡ some t → t.name ≡ name
unfolding find_tool
find_tool-name name [] t h = cc
find_tool-name name (u ∷ ts) t h = elim (Bool-cases (str_eq u.name name)) [
  | inl same ↦
      let first : some u ≡ some t = sym (if_true _ _ _ same) ∙ h in
      ap (λ x. x.name) (sym (some_inj first)) ∙ (eq_iff u.name name).0 same
  | inr other ↦ find_tool-name name ts t (sym (if_false _ _ _ other) ∙ h)
]

module _ (decode_rpc : String → String ⊎ RpcMessage) (decode_version : String → Option String)
    (decode_call : String → Option (String × String)) where
  -- A tools/call of a tool that the server has runs the handler of the first tool with that name, with
  -- an empty object for missing arguments; and an error or a panic of the handler is a result
  -- with the error flag.
  pub call_tool-runs :
      (s : SdkMcpServer) (m : RpcMessage) (name args : String) (t : McpTool)
      (handler : String → Outcome)
      → decode_call m.params ≡ some (name, args)
      → is_empty name ≡ false
      → find_tool name s.tools ≡ some t
      → t.handler ≡ some handler
      → (call_tool decode_rpc decode_version decode_call s m
          ≡ rpc_result m.id
              (called (run_tool t.name (handler (if is_empty args then "{}" else args)))))
        × (t.name ≡ name)
  unfolding call_tool run_tool
  call_tool-runs s m name args t handler h named found has_handler = (
    rw (h, call_tool) (if_false _ _ _ named ∙ rw (found, has_handler) refl),
    find_tool-name name s.tools t found,
  )

-- An SDK server of the options is found under its name.
abbrev pub IsMounted : List (String × SdkMcpServer) → ServerConfig → Type 0
IsMounted out (name, none) = Unit
IsMounted out (name, some s) = Assoc.get (name_of name s) out ≡ some s

mounted_later :
    (cs : List ServerConfig) (acc out : List (String × SdkMcpServer)) (k : String)
    (s : SdkMcpServer)
    → sdk_servers cs acc ≡ inr out
    → Assoc.get k acc ≡ some s
    → Assoc.get k out ≡ some s
unfolding sdk_servers
mounted_later [] acc out k s h g = ap (Assoc.get k) (sym (inr_inj h)) ∙ g
mounted_later ((name, none) ∷ cs) acc out k s h g = mounted_later cs acc out k s h g
mounted_later ((name, some t) ∷ cs) acc out k s h g =
    elim (Option-cases (Assoc.get (name_of name t) acc)) [
      | inl free ↦
          mounted_later cs (Assoc.put (name_of name t) t acc) out k s (ground (arith, h, free))
            (ground (arith, g, free, get-put (name_of name t) k t acc, eq_iff (name_of name t) k))
      | inr (dup, taken) ↦ absurd (refused dup taken)
    ]
  where
    refused : (dup : SdkMcpServer) → Assoc.get (name_of name t) acc ≡ some dup → ⊥
    refused dup taken = ground (arith, h, taken)

mounts_after :
    (cs : List ServerConfig) (acc out : List (String × SdkMcpServer))
    → sdk_servers cs acc ≡ inr out
    → All (IsMounted out) cs
unfolding sdk_servers
mounts_after [] acc out h = tt
mounts_after ((name, none) ∷ cs) acc out h = (tt, mounts_after cs acc out h)
mounts_after ((name, some t) ∷ cs) acc out h =
    elim (Option-cases (Assoc.get (name_of name t) acc)) [
      | inl free ↦
          let rest : sdk_servers cs (Assoc.put (name_of name t) t acc) ≡ inr out =
            ground (arith, h, free) in
          (
            mounted_later cs (Assoc.put (name_of name t) t acc) out (name_of name t) t rest
                (get-put_self (name_of name t) t acc),
            mounts_after cs (Assoc.put (name_of name t) t acc) out rest,
          )
      | inr (dup, taken) ↦ absurd (refused dup taken)
    ]
  where
    refused : (dup : SdkMcpServer) → Assoc.get (name_of name t) acc ≡ some dup → ⊥
    refused dup taken = ground (arith, h, taken)

-- Where sdkServers reports no duplicate, every SDK server of the options is found under its own name,
-- so that none hides another.
pub sdk_servers-mounts :
    (cs : List ServerConfig) (out : List (String × SdkMcpServer))
    → sdk_servers cs [] ≡ inr out
    → All (IsMounted out) cs
sdk_servers-mounts cs out h = mounts_after cs [] out h
