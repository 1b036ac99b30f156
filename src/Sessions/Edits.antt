-- ===== src/Sessions/Edits.antt =====
-- domains/sessions/mutate_via_store.go: edits of a session through a SessionStore. The store's calls
-- are functions on its state that return it with an error; new_uuid and the formatted time are
-- arguments, and so is the class of code points that the tables of package unicode give.
pub mod Shown
use Prim.Native.Char.{Char, code}
use Prim.Native.String.{[], ◌∷◌}
use claude_agent_sdk_go.Base.{
  ℕ, zero, suc, String, Bool, true, false, not, ◌&&◌, ◌||◌, Option, none, some, leb, nat_eq,
  if◌then◌else◌,
}
use claude_agent_sdk_go.Base.{List}
use mathlib.Core.List.{◌∷◌ as cons, [] as nil}
use claude_agent_sdk_go.Json.{str, end, field}
use claude_agent_sdk_go.Sessions.Types.{Entry, SessionKey}
use claude_agent_sdk_go.Text.{trim_space, is_empty}

abbrev between : ℕ → ℕ → ℕ → Bool
between lo hi c = leb lo c && leb c hi

abbrev is_hex : ℕ → Bool
is_hex c = between 0x30 0x39 c || between 0x61 0x66 c || between 0x41 0x46 c

-- The groups of sessionIDRE after the first digit: `n` more digits, then the groups of `rest`
unfoldable pub id_groups : ℕ → List ℕ → String → Bool
id_groups zero nil [] = true
id_groups zero nil (c ∷ s) = false
id_groups zero (cons n rest) [] = false
id_groups zero (cons n rest) (c ∷ s) =
    let on = id_groups n rest s in if nat_eq (code c) 0x2d then on else false
id_groups (suc n) rest [] = false
id_groups (suc n) rest (c ∷ s) =
    let on = id_groups n rest s in if is_hex (code c) then on else false

-- sessionIDRE.MatchString
unfoldable pub is_session_id : String → Bool
unfolding id_groups
is_session_id s = id_groups 8 (cons 4 (cons 4 (cons 4 (cons 12 nil)))) s

-- errors.New and fmt.Errorf of the edits
pub data EditError : Type 0 where
  invalid_session_id : String → EditError
  empty_title : EditError
  empty_tag : EditError
  store_failed : String → EditError

-- strings.Map of sanitizeUnicode. `is_listed` is the class that package unicode decides: neither Cf
-- nor Co, and one of L, M, N, P, S, Z, Cc and Cs.
unfoldable pub sanitize_unicode : (ℕ → Bool) → String → String
sanitize_unicode is_listed [] = []
sanitize_unicode is_listed (c ∷ s) =
    let rest = sanitize_unicode is_listed s in
    let n = code c in
    if not (is_listed n)
      || between 0x200b 0x200f n
      || between 0x202a 0x202e n
      || between 0x2066 0x2069 n
      || nat_eq n 0xfeff
    then rest
    else c ∷ rest

abbrev pub report : Option String → Option EditError
report none = none
report (some e) = some (store_failed e)

abbrev pub main_of : String → String → SessionKey
main_of project session = record { project_key = project; session_id = session; subpath = "" }

-- The entry that appendMeta appends
abbrev pub meta_entry : String → String → String → String → String → String → Entry
meta_entry uuid now session typ key value = field "type" (str typ) (
    field key (str value)
      (field "sessionId" (str session) (field "uuid" (str uuid) (field "timestamp" (str now) end))))

module _ {S : Type 0} (store_append : SessionKey → List Entry → S → Option String × S) where
  -- appendMeta
  unfoldable pub append_meta :
      String → String → String → String → String → String → String → S → Option EditError × S
  append_meta uuid now project session typ key value s =
      let (e, s') =
        store_append (main_of project session)
          (cons (meta_entry uuid now session typ key value) nil) s in
      (report e, s')

  -- RenameSessionViaStore
  unfoldable pub rename_session :
      String → String → String → String → String → S → Option EditError × S
  rename_session uuid now project session title s =
      if not (is_session_id session)
      then (some (invalid_session_id session), s)
      else if is_empty (trim_space title)
      then (some empty_title, s)
      else append_meta uuid now project session "custom-title" "customTitle" (trim_space title) s

  -- TagSessionViaStore; a nil tag is none
  unfoldable pub tag_session :
      (ℕ → Bool) → String → String → String → String → Option String → S → Option EditError × S
  tag_session is_listed uuid now project session tag s =
      if not (is_session_id session) then (some (invalid_session_id session), s) else elim tag [
        | none ↦ append_meta uuid now project session "tag" "tag" "" s
        | some t ↦
            (let value = trim_space (sanitize_unicode is_listed t) in
              if is_empty value
              then (some empty_tag, s)
              else append_meta uuid now project session "tag" "tag" value s)
      ]

-- DeleteSessionViaStore; the store's Delete is none where it is no SessionDeleter
unfoldable pub delete_session :
    {S : Type 0}
    → Option (SessionKey → S → Option String × S)
    → String
    → String
    → S
    → Bool × Option EditError × S
delete_session deleter project session s =
    if not (is_session_id session)
    then (false, some (invalid_session_id session), s)
    else elim deleter [
      | none ↦ (false, none, s)
      | some delete ↦ (let (e, s') = delete (main_of project session) s in (true, report e, s'))
    ]
