-- ===== src/Agent/RunEnd/Env.antt =====
-- domains/agent/runend.go: the environment of the CLI, and the ceiling that the SDK reads from it. The
-- environment of the process itself is a parameter, as is strconv.ParseInt in base 10 to 64 bits,
-- none for an error. A duration is an int64 of nanoseconds.
use claude_agent_sdk_go.Base.{
  ℕ, String, ◌≡◌, sym, subst, ap, ◌∙◌, true, Option, none, some, List, ℤ, pos, negsuc, ◌≤ℤ◌, ◌^◌,
  ◌*◌, ◌-◌, ltb_ℤ, ltb, ltb-false, milliseconds, wrap64, string_eq, ◌==◌, arith, if-cases,
  Option-cases, inl, inr, if◌then◌else◌,
}
use claude_agent_sdk_go.Base.Assoc.{get, put, get-put}

abbrev pub sdk_reads_session_state_env : String
sdk_reads_session_state_env = "CLAUDE_CODE_SDK_READS_SESSION_STATE"

abbrev pub run_end_ceiling_env : String
run_end_ceiling_env = "CLAUDE_CODE_PRINT_BG_WAIT_CEILING_MS"

-- 600 * time.Second
abbrev pub default_run_end_ceiling : ℤ
default_run_end_ceiling = pos 600000000000

abbrev pub max_run_end_ceiling_ms : ℤ
max_run_end_ceiling_ms = pos (2 ^ 31 - 1)

abbrev Env : Type 0
Env = List (String × String)

abbrev with_default : Env → Option String → Env
with_default env none = put sdk_reads_session_state_env "1" env
with_default env (some v) = env

-- subprocessEnv
unfoldable pub subprocess_env : Env → Env
subprocess_env env = with_default env (get sdk_reads_session_state_env env)

-- The ceiling that ParseInt's result gives
unfoldable pub ceiling_of : Option ℤ → ℤ
ceiling_of none = default_run_end_ceiling
ceiling_of (some ms) =
    if ltb_ℤ ms (pos 0)
    then default_run_end_ceiling
    else if ltb_ℤ max_run_end_ceiling_ms ms
    then milliseconds max_run_end_ceiling_ms
    else milliseconds ms

abbrev ceiling_at : (String → Option ℤ) → Option String → ℤ
ceiling_at parse_int none = default_run_end_ceiling
ceiling_at parse_int (some raw) = ceiling_of (parse_int raw)

abbrev or_lookup : Option String → Option String → Option String
or_lookup none o = o
or_lookup (some v) _ = some v

-- runEndCeiling, where `lookup_env` is os.LookupEnv
unfoldable pub run_end_ceiling : (String → Option ℤ) → (String → Option String) → Env → ℤ
run_end_ceiling parse_int lookup_env env =
    ceiling_at parse_int (or_lookup (get run_end_ceiling_env env) (lookup_env run_end_ceiling_env))

-- No number of milliseconds up to the maximum overflows when it is made a duration.
milliseconds_whole :
    (n : ℕ) → pos n ≤ℤ max_run_end_ceiling_ms → milliseconds (pos n) ≡ pos (n * 1000000)
unfolding milliseconds wrap64
milliseconds_whole n h = ground arith

-- The duration is not negative, and no longer than 2^31 - 1 milliseconds.
abbrev pub IsCeiling : ℤ → Type 0
IsCeiling d = (pos 0 ≤ℤ d) × (d ≤ℤ pos ((2 ^ 31 - 1) * 1000000))

ceiling_of-IsCeiling : (ms : Option ℤ) → IsCeiling (ceiling_of ms)
unfolding ceiling_of
ceiling_of-IsCeiling none = (omega arith, omega arith)
ceiling_of-IsCeiling (some (pos n)) =
    if-cases IsCeiling (ltb_ℤ (pos n) (pos 0)) (λ _. (omega arith, omega arith))
      (λ _.
        if-cases IsCeiling (ltb_ℤ max_run_end_ceiling_ms (pos n))
          (λ _.
            subst IsCeiling (sym (milliseconds_whole (2 ^ 31 - 1) (omega arith)))
              (omega arith, omega arith))
          (λ low.
            let h = ltb-false (2 ^ 31 - 1) n (ap (λ m. ltb (2 ^ 31 - 1) m) (omega arith) ∙ low) in
            subst IsCeiling (sym (milliseconds_whole n (omega (arith, h))))
              (omega arith, omega (arith, h))))
ceiling_of-IsCeiling (some (negsuc n)) = (ground arith, ground arith)

ceiling_at-IsCeiling :
    (parse_int : String → Option ℤ) (raw : Option String) → IsCeiling (ceiling_at parse_int raw)
ceiling_at-IsCeiling parse_int none = (omega arith, omega arith)
ceiling_at-IsCeiling parse_int (some raw) = ceiling_of-IsCeiling (parse_int raw)

pub run_end_ceiling-IsCeiling :
    (parse_int : String → Option ℤ) (lookup_env : String → Option String) (env : Env)
    → IsCeiling (run_end_ceiling parse_int lookup_env env)
unfolding run_end_ceiling
run_end_ceiling-IsCeiling parse_int lookup_env env = ceiling_at-IsCeiling parse_int _

-- The caller's variables are passed on, the request for the session's state among them.
pub get-subprocess_env :
    (env : Env) (k v : String) → get k env ≡ some v → get k (subprocess_env env) ≡ some v
unfolding subprocess_env
get-subprocess_env env k v h = elim (Option-cases (get sdk_reads_session_state_env env)) [
  | inl missing ↦
      ap (λ o. get k (with_default env o)) missing
      ∙ get-put sdk_reads_session_state_env k "1" env
      ∙ if-cases (λ o. o ≡ some v) (sdk_reads_session_state_env == k)
          (λ same. absurd (clash missing same)) (λ other. h)
  | inr (w, there) ↦ ap (λ o. get k (with_default env o)) there ∙ h
]
  where
    clash :
        get sdk_reads_session_state_env env ≡ none → (sdk_reads_session_state_env == k) ≡ true → ⊥
    clash missing same =
        let found =
          subst (λ j. get j env ≡ some v)
            (sym ((string_eq.equal_iff sdk_reads_session_state_env k).0 same)) h in
        absurd (cc)
