-- ===== src/Sessions/ProjectKey/Bounds.antt =====
-- The length of a project key, and the digits of its hash.
use Prim.Native.Char.{Char, code}
use claude_agent_sdk_go.Base.{
  ℕ, zero, suc, ◌+◌, ◌*◌, String, ◌≡◌, Bool, true, List, [], ◌∷◌, nat_eq, ◌||◌, ◌&&◌,
}
use claude_agent_sdk_go.Sessions.ProjectKey.{is_alphanumeric}

-- 36^n
limit36 : ℕ → ℕ
limit36 zero = 1
limit36 (suc n) = 36 * limit36 n

-- The number that digits stand for, after those that stand for v
pub value36 : ℕ → List ℕ → ℕ
value36 v [] = v
value36 v (d ∷ ds) = value36 (v * 36 + d) ds

-- A letter or digit of ASCII, or a dash
abbrev pub is_safe : ℕ → Bool
is_safe c = is_alphanumeric c || nat_eq c 0x2d

pub IsSafe : String → Type 0
IsSafe String.[] = Unit
IsSafe (String.◌∷◌ c s) = (is_safe (code c) ≡ true) × IsSafe s

all_safe : String → Bool
all_safe String.[] = true
all_safe (String.◌∷◌ c s) = is_safe (code c) && all_safe s
