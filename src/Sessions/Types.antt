-- ===== src/Sessions/Types.antt =====
-- The data of package sessions: transcript_store.go, types.go and the summary entry of summary.go.
use claude_agent_sdk_go.Base.{
  String, ◌≡◌, ◌↔◌, Bool, true, ◌&&◌, ℤ, arith, str_eq, eq_iff, Comparable,
}
use claude_agent_sdk_go.Json.{Value, Fields}

-- SessionStoreEntry: one transcript line, a map[string]any.
abbrev pub Entry : Type 0
Entry = Fields

pub record SessionKey : Type 0 where
  pub project_key : String
  pub session_id : String
  pub subpath : String

abbrev pub session_key_beq : SessionKey → SessionKey → Bool
session_key_beq a b =
    str_eq a.project_key b.project_key
    && str_eq a.session_id b.session_id
    && str_eq a.subpath b.subpath

pub session_key_equal_iff : (a b : SessionKey) → (session_key_beq a b ≡ true) ↔ (a ≡ b)
session_key_equal_iff a b = ground (
  arith,
  eq_iff a.project_key b.project_key,
  eq_iff a.session_id b.session_id,
  eq_iff a.subpath b.subpath,
)

-- `==` on the struct, which the maps keyed by it use
instance abbrev pub session_key_eq : Comparable SessionKey
session_key_eq = record { equal = session_key_beq; equal_iff = session_key_equal_iff }

pub record SessionSummaryEntry : Type 0 where
  pub session_id : String
  pub mtime_ms : ℤ
  pub fields : Fields

pub record SessionListEntry : Type 0 where
  pub session_id : String
  pub mtime_ms : ℤ

pub record SessionInfo : Type 0 where
  pub session_id : String
  pub summary : String
  pub last_modified : ℤ
  pub file_size : ℤ
  pub custom_title : String
  pub first_prompt : String
  pub git_branch : String
  pub cwd : String
  pub tag : String
  pub created_at : ℤ

pub record SessionMessage : Type 0 where
  pub type : String
  pub uuid : String
  pub session_id : String
  pub message : Value
  pub parent_tool_use_id : Value
  pub parent_agent_id : Value
