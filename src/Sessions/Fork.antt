-- ===== src/Sessions/Fork.antt =====
-- domains/sessions/fork_via_store.go: ForkSessionViaStore. new_uuid is the parameter `new_uuid` of the
-- number of the call, the formatted time is `now`, and the title derived from the summary is that of
-- Sessions/Summary. The loop up the progress entries takes fuel; `none` means that it still runs.
pub mod Parents
pub mod Copies
use Prim.Native.String.{◌++◌ as append}
use claude_agent_sdk_go.Base.{
  ℕ, zero, suc, ◌+◌, String, Bool, true, false, not, ◌&&◌, ◌||◌, Option, none, some, List, [], ◌∷◌,
  ◌++◌, map, length, str_eq, string_eq, ℤ, ◌⊎◌, inl, inr, if◌then◌else◌,
}
use claude_agent_sdk_go.Base.Assoc
use claude_agent_sdk_go.Json.{
  Value, Fields, Items, null, bool, str, arr, obj, end, field, put, del, index, get, as_str,
  str_or_empty, bool_or_false, is_str, is_null, to_list, of_list, as_arr,
}
use claude_agent_sdk_go.Text.{trim_space, is_empty}
use claude_agent_sdk_go.Sessions.Types.{Entry, SessionKey, SessionInfo}
use claude_agent_sdk_go.Sessions.Summary.{fold_session_summary, summary_to_session_info}
use claude_agent_sdk_go.Sessions.Edits.{is_session_id, main_of}
use claude_agent_sdk_go.Sessions.Chain.{uuid_of, type_of, parent_uuid}

-- forkTranscriptTypes
unfoldable pub is_fork_type : String → Bool
is_fork_type t =
    str_eq t "user"
    || str_eq t "assistant"
    || str_eq t "attachment"
    || str_eq t "system"
    || str_eq t "progress"

abbrev is_some {ℓ} : {A : Type ℓ} → Option A → Bool
is_some none = false
is_some (some a) = true

abbrev pub is_progress : Entry → Bool
is_progress e = is_str (index "type" e) "progress"

abbrev pub has_fork_type : Entry → Bool
has_fork_type e = is_some (as_str (index "uuid" e)) && is_fork_type (type_of e)

-- The transcript that the first loop collects
unfoldable pub fork_transcript : List Entry → List Entry
fork_transcript [] = []
fork_transcript (e ∷ es) =
    let rest = fork_transcript es in
    if has_fork_type e && not (bool_or_false (index "isSidechain" e)) then e ∷ rest else rest

abbrev items_of : Option Items → List Value
items_of none = []
items_of (some xs) = to_list xs

-- The replacements that the first loop collects
unfoldable pub fork_replacements : String → List Entry → List Value
fork_replacements session [] = []
fork_replacements session (e ∷ es) =
    let rest = fork_replacements session es in
    if has_fork_type e
    then rest
    else if str_eq (type_of e) "content-replacement" && is_str (index "sessionId" e) session
    then items_of (as_arr (index "replacements" e)) ++ rest
    else rest

-- transcript[:cut+1], where cut is the first entry with the uuid; none where it is absent
unfoldable pub cut_at : String → List Entry → Option (List Entry)
cut_at id [] = none
cut_at id (e ∷ es) =
    let later = cut_at id es in
    if is_str (index "uuid" e) id
    then some (e ∷ [])
    else elim later [ none ↦ none | some rest ↦ some (e ∷ rest) ]

unfoldable pub writable : List Entry → List Entry
writable [] = []
writable (e ∷ es) = let rest = writable es in if is_progress e then rest else e ∷ rest

-- byUUID
unfoldable pub index_by_uuid : List Entry → List (String × Entry) → List (String × Entry)
index_by_uuid [] m = m
index_by_uuid (e ∷ es) m = index_by_uuid es (Assoc.put (uuid_of e) e m)

-- mapping[pid], "" for a missing key
abbrev pub mapped : List (String × String) → String → String
mapped m id = elim (Assoc.get id m) [ none ↦ "" | some u ↦ u ]

-- The loop that finds the parent of a copy: nil, or the new uuid of the nearest ancestor that is no
-- progress entry
unfoldable pub fork_parent :
    ℕ → List (String × Entry) → List (String × String) → String → Option Value
fork_parent zero by_uuid mapping pid = none
fork_parent (suc fuel) by_uuid mapping pid =
    if is_empty pid then some null else elim (Assoc.get pid by_uuid) [
      | none ↦ some null
      | some p ↦
          (let on = fork_parent fuel by_uuid mapping (parent_uuid p) in
            if is_progress p then on else some (str (mapped mapping pid)))
    ]

-- The change of logicalParentUuid
unfoldable pub fork_logical : List (String × String) → Entry → Fields → Fields
fork_logical mapping orig m = elim (as_str (index "logicalParentUuid" orig)) [
  | none ↦ m
  | some lp ↦
      if is_empty lp
      then m
      else put "logicalParentUuid" (elim (Assoc.get lp mapping) [ none ↦ null | some u ↦ str u ]) m
]

abbrev pub timestamp_of : Bool → String → Entry → Value
timestamp_of last now orig =
    if last || is_null (index "timestamp" orig) then str now else index "timestamp" orig

-- The copy of one entry, `last` being the last that is copied
unfoldable pub fork_entry :
    List (String × String) → String → String → String → Value → Bool → Entry → Entry
unfolding fork_logical
fork_entry mapping session fork_id now parent last orig =
    let m₁ = put "parentUuid" parent (put "uuid" (str (mapped mapping (uuid_of orig))) orig) in
    let m₂ = put "sessionId" (str fork_id) (fork_logical mapping orig m₁) in
    let m₃ = put "isSidechain" (bool false) (put "timestamp" (timestamp_of last now orig) m₂) in
    let m₄ =
      put "forkedFrom"
        (obj (field "sessionId" (str session) (field "messageUuid" (index "uuid" orig) end))) m₃ in
    del "sourceToolAssistantUUID" (del "slug" (del "agentName" (del "teamName" m₄)))

abbrev pub is_nil {ℓ} : {A : Type ℓ} → List A → Bool
is_nil [] = true
is_nil (x ∷ xs) = false

pub data ForkError : Type 0 where
  invalid_session_id : String → ForkError
  invalid_up_to : String → ForkError
  load_failed : String → ForkError
  session_not_found : String → ForkError
  no_messages : String → ForkError
  message_not_found : String → ForkError
  append_failed : String → ForkError

module _ (new_uuid : ℕ → String) where
  -- mapping: the new uuid of every entry, the n-th call of new_uuid for the n-th
  unfoldable pub map_uuids : ℕ → List Entry → List (String × String) → List (String × String)
  map_uuids n [] m = m
  map_uuids n (e ∷ es) m = map_uuids (suc n) es (Assoc.put (uuid_of e) (new_uuid n) m)

  -- The loop over the entries to copy
  unfoldable pub fork_entries :
      ℕ
      → List (String × Entry)
      → List (String × String)
      → String
      → String
      → String
      → List Entry
      → Option (List Entry)
  fork_entries fuel by_uuid mapping session fork_id now [] = some []
  fork_entries fuel by_uuid mapping session fork_id now (orig ∷ rest) =
      let others = fork_entries fuel by_uuid mapping session fork_id now rest in
      elim (fork_parent fuel by_uuid mapping (parent_uuid orig)) [
        | none ↦ none
        | some parent ↦ elim others [
          | none ↦ none
          | some copies ↦
              some (fork_entry mapping session fork_id now parent (is_nil rest) orig ∷ copies)
        ]
      ]

  module _ (parse_time : String → Option ℤ) (truncate : ℕ → ℤ) where
    unfoldable pub derived_title : SessionKey → List Entry → String
    derived_title key loaded =
        let sum = fold_session_summary parse_time none key loaded in
        elim (summary_to_session_info truncate sum "") [
          | none ↦ "Forked session"
          | some info ↦
              if is_empty info.custom_title
              then (if is_empty info.first_prompt then "Forked session" else info.first_prompt)
              else info.custom_title
        ]

    unfoldable pub fork_title : SessionKey → List Entry → String → String
    unfolding derived_title
    fork_title key loaded title =
        if is_empty (trim_space title)
        then append (derived_title key loaded) " (fork)"
        else trim_space title

    -- What the entries after the copies are: the replacements, if any, and the title
    unfoldable pub fork_trailer : ℕ → String → String → List Value → String → List Entry
    fork_trailer n fork_id now replacements title =
        let named : ℕ → Entry = λ k. field "type" (str "custom-title") (
          field "sessionId" (str fork_id) (
            field "customTitle" (str title)
              (field "uuid" (str (new_uuid k)) (field "timestamp" (str now) end)))) in
        if is_nil replacements
        then named n ∷ []
        else field "type" (str "content-replacement") (
            field "sessionId" (str fork_id) (
              field "replacements" (arr (of_list replacements))
                (field "uuid" (str (new_uuid n)) (field "timestamp" (str now) end))))
          ∷ named (suc n)
          ∷ []

    -- Everything between Load and Append: the fork's id and its entries
    unfoldable pub fork_loaded :
        ℕ
        → String
        → String
        → String
        → String
        → String
        → List Entry
        → Option (List Entry)
        → Option (ForkError ⊎ (String × List Entry))
    fork_loaded fuel now project session up_to title loaded none =
        some (inl (message_not_found up_to))
    fork_loaded fuel now project session up_to title loaded (some transcript) =
        let mapping = map_uuids 0 transcript [] in
        let n = length transcript in
        if is_nil (writable transcript)
        then some (inl (no_messages session))
        else elim (fork_entries fuel (index_by_uuid transcript []) mapping session (new_uuid n) now
            (writable transcript)) [
              | none ↦ none
              | some copies ↦ some (
                  inr (
                    new_uuid n,
                    copies
                        ++ fork_trailer (suc n) (new_uuid n) now (fork_replacements session loaded)
                            (fork_title (main_of project session) loaded title),
                  ))
            ]

    module _ {S : Type 0} (store_load : SessionKey → S → String ⊎ List Entry)
        (store_append : SessionKey → List Entry → S → Option String × S) where
      -- The Append of the copies
      unfoldable pub fork_append : String → String → List Entry → S → (ForkError ⊎ String) × S
      fork_append project fork_id out s =
          let (e, s') = store_append (main_of project fork_id) out s in
          (elim e [ none ↦ inr fork_id | some x ↦ inl (append_failed x) ], s')

      -- ForkSessionViaStore
      unfoldable pub fork_session_via_store :
          ℕ → String → String → String → String → String → S → Option ((ForkError ⊎ String) × S)
      fork_session_via_store fuel now project session up_to title s =
          if not (is_session_id session)
          then some (inl (invalid_session_id session), s)
          else if not (is_empty up_to) && not (is_session_id up_to)
          then some (inl (invalid_up_to up_to), s)
          else elim (store_load (main_of project session) s) [
            | inl e ↦ some (inl (load_failed e), s)
            | inr loaded ↦
                (let transcript = fork_transcript loaded in
                  if is_nil loaded
                  then some (inl (session_not_found session), s)
                  else if is_nil transcript
                  then some (inl (no_messages session), s)
                  else elim (fork_loaded fuel now project session up_to title loaded
                      (if is_empty up_to then some transcript else cut_at up_to transcript)) [
                        | none ↦ none
                        | some result ↦ elim result [
                          | inl e ↦ some (inl e, s)
                          | inr copied ↦ some (fork_append project copied.0 copied.1 s)
                        ]
                      ])
          ]
