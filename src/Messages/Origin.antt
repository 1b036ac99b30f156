-- ===== src/Messages/Origin.antt =====
-- domains/messages/origin.go: where a message of the user's role comes from. A pointer to an origin is
-- an Option. The members are read as encoding/json reads them, by their keys but for case.
use claude_agent_sdk_go.Base.{
  String, ◌≡◌, refl, sym, subst, ap, ◌∙◌, inl, inr, Bool, true, false, Option, none, some, ℤ,
  str_eq, eq_iff,
}
use claude_agent_sdk_go.Json.{Value, Fields, null, bool, int64, int, float64, str, arr, obj}
use claude_agent_sdk_go.Json.Folded.{folded_text, folded_int, HasFolded, folded_text-HasFolded}
use claude_agent_sdk_go.Json.Decode.{Always, ◌>>=◌, bind-Always, decode_struct}

abbrev pub origin_human : String
origin_human = "human"

pub record MessageOrigin : Type 0 where
  pub kind : String
  pub subkind : String
  pub server : String
  pub sender : String
  pub name : String
  pub from_session : String
  pub sender_task_id : String
  pub body : String
  pub verified_peer_pid : Option ℤ

unfoldable pub decode_message_origin : Fields → Option MessageOrigin
decode_message_origin m = do
  kind ← folded_text "kind" m (some "")
  subkind ← folded_text "subkind" m (some "")
  server ← folded_text "server" m (some "")
  sender ← folded_text "from" m (some "")
  name ← folded_text "name" m (some "")
  from_session ← folded_text "fromSession" m (some "")
  sender_task_id ← folded_text "senderTaskId" m (some "")
  body ← folded_text "body" m (some "")
  verified_peer_pid ← folded_int "verifiedPeerPid" m (some none)
  some (record {
    kind = kind;
    subkind = subkind;
    server = server;
    sender = sender;
    name = name;
    from_session = from_session;
    sender_task_id = sender_task_id;
    body = body;
    verified_peer_pid = verified_peer_pid;
  })

-- MessageOrigin.IsHuman
abbrev pub is_human : Option MessageOrigin → Bool
is_human none = false
is_human (some o) = str_eq o.kind origin_human

-- ParseOrigin, where none is an error
unfoldable pub parse_origin : Option Value → Option (Option MessageOrigin)
parse_origin none = some none
parse_origin (some null) = some none
parse_origin (some v) = do o ← decode_struct decode_message_origin v; some (some o)

-- The kind of a decoded origin is the text that its object has.
abbrev HasKind : Fields → MessageOrigin → Type 0
HasKind m o = folded_text "kind" m (some "") ≡ some o.kind

decode-HasKind : (m : Fields) → Always (HasKind m) (decode_message_origin m)
unfolding decode_message_origin
decode-HasKind m = bind-Always (HasKind m) (folded_text "kind" m (some "")) _ (λ k is_kind.
    bind-Always (HasKind m) (folded_text "subkind" m (some "")) _ (λ _ _.
      bind-Always (HasKind m) (folded_text "server" m (some "")) _ (λ _ _.
        bind-Always (HasKind m) (folded_text "from" m (some "")) _ (λ _ _.
          bind-Always (HasKind m) (folded_text "name" m (some "")) _ (λ _ _.
            bind-Always (HasKind m) (folded_text "fromSession" m (some "")) _ (λ _ _.
              bind-Always (HasKind m) (folded_text "senderTaskId" m (some "")) _ (λ _ _.
                bind-Always (HasKind m) (folded_text "body" m (some "")) _ (λ _ _.
                  bind-Always (HasKind m) (folded_int "verifiedPeerPid" m (some none)) _
                    (λ _ _ o is_o. is_kind ∙ ap (of_kind k) is_o)))))))))
  where
    of_kind : String → Option MessageOrigin → Option String
    of_kind k none = some k
    of_kind k (some o) = some o.kind

kind_of :
    (m : Fields) (o : MessageOrigin)
    → HasKind m o
    → is_human (some o) ≡ true
    → HasFolded "kind" (str origin_human) m
kind_of m o has t =
    elim (folded_text-HasFolded "kind" m "" origin_human
      (has ∙ ap some ((eq_iff o.kind origin_human).0 t))) [
        | inl found ↦ found
        | inr blank ↦ absurd (cc)
      ]

abbrev unwrapped : Option (Option MessageOrigin) → Option MessageOrigin
unwrapped none = none
unwrapped (some o) = o

object_human :
    (m : Fields) (d : Option MessageOrigin)
    → Always (HasKind m) d
    → (o : Option MessageOrigin) → (d >>= λ o. some (some o)) ≡ some o
    → is_human o ≡ true
    → HasFolded "kind" (str origin_human) m
object_human m none each o h t = absurd (cc)
object_human m (some d) each o h t =
    kind_of m d (each d refl) (subst (λ o. is_human o ≡ true) (sym (ap unwrapped h)) t)

-- A message counts as human only if its origin is an object with a member of the value "human" under a
-- key that is equal to "kind" but for case, as encoding/json reads keys.
pub parse_origin-human :
    (raw : Option Value) (o : Option MessageOrigin)
    → parse_origin raw ≡ some o
    → is_human o ≡ true
    → (m : Fields) × (raw ≡ some (obj m)) × HasFolded "kind" (str origin_human) m
unfolding parse_origin
parse_origin-human none o h t = absurd (cc)
parse_origin-human (some null) o h t = absurd (cc)
parse_origin-human (some (obj m)) o h t =
    (m, refl, object_human m (decode_message_origin m) (decode-HasKind m) o h t)
parse_origin-human (some (bool b)) o h t = absurd (cc)
parse_origin-human (some (str s)) o h t = absurd (cc)
parse_origin-human (some (int n)) o h t = absurd (cc)
parse_origin-human (some (int64 n)) o h t = absurd (cc)
parse_origin-human (some (float64 n)) o h t = absurd (cc)
parse_origin-human (some (arr xs)) o h t = absurd (cc)
