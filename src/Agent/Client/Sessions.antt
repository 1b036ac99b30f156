-- ===== src/Agent/Client/Sessions.antt =====
-- How a Client opens and closes its sessions.
use claude_agent_sdk_go.Base.{
  ◌≡◌, refl, ◌∙◌, ap, Bool, true, false, Option, none, some, List, [], ◌∷◌, ◌++◌, arith,
  if◌then◌else◌,
}
use claude_agent_sdk_go.Agent.Client.{
  Call, connect, disconnect, query, request, Event, opened, closed, prompted, requested, ran,
  Client, new_client, on_connect, on_disconnect, on_query, on_request, do_call, run,
}

-- A trace that one session at a time can have, from `open` on, and whether one is open after it; none
-- where a session is opened over another, closed twice or used when there is none
pub follow : Bool → List Event → Option Bool
follow is_open [] = some is_open
follow is_open (opened ∷ es) = let rest = follow true es in if is_open then none else rest
follow is_open (closed ∷ es) = let rest = follow false es in if is_open then rest else none
follow is_open (prompted p ∷ es) = let rest = follow is_open es in if is_open then rest else none
follow is_open (requested r ∷ es) = let rest = follow is_open es in if is_open then rest else none
follow is_open (ran ∷ es) = let rest = follow is_open es in if is_open then rest else none

pub bind : Option Bool → List Event → Option Bool
bind none es = none
bind (some b) es = follow b es

follow-append : (b : Bool) (es fs : List Event) → follow b (es ++ fs) ≡ bind (follow b es) fs
unfolding follow bind
follow-append b [] fs = refl
follow-append true (opened ∷ es) fs = refl
follow-append false (opened ∷ es) fs = follow-append true es fs
follow-append true (closed ∷ es) fs = follow-append false es fs
follow-append false (closed ∷ es) fs = refl
follow-append true (prompted p ∷ es) fs = follow-append true es fs
follow-append false (prompted p ∷ es) fs = refl
follow-append true (requested r ∷ es) fs = follow-append true es fs
follow-append false (requested r ∷ es) fs = refl
follow-append true (ran ∷ es) fs = follow-append true es fs
follow-append false (ran ∷ es) fs = refl

do_call-follow :
    (k : Call) (c : Client) → follow c.connected (do_call k c).1 ≡ some (do_call k c).2.connected
unfolding do_call follow on_connect on_disconnect on_query on_request
do_call-follow (connect invalid failed initialized) c = ground arith
do_call-follow (disconnect result) c = ground arith
do_call-follow (query prompt sent) c = ground arith
do_call-follow (request r result) c = ground arith

run-follow :
    (ks : List Call) (c : Client) → follow c.connected (run ks c).0 ≡ some (run ks c).1.connected
unfolding run follow bind
run-follow [] c = refl
run-follow (k ∷ ks) c =
    let done = do_call k c in
    follow-append c.connected done.1 (run ks done.2).0
    ∙ ap (λ b. bind b (run ks done.2).0) (do_call-follow k c)
    ∙ run-follow ks done.2

-- In any history of calls, a Client opens a session only where none is open, closes one only where one
-- is open, and prompts or requests only in an open one; and it is connected exactly if one is open.
pub run-follows :
    (ks : List Call) → follow false (run ks new_client).0 ≡ some (run ks new_client).1.connected
run-follows ks = run-follow ks new_client
