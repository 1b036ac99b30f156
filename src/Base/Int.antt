-- ===== src/Base/Int.antt =====
-- int64 values: integers, with the wrap-around of an increment written out.
use Prim.Native.Nat.{ℕ, suc, zero, ◌+◌, ◌-◌, ◌*◌, ◌%◌, ◌^◌, ◌≤◌, ◌<◌}
use mathlib.Core.Path.{◌≡◌}
use mathlib.Core.Bool.{Bool, false}
use native.Mathlib.Omega.{arith}
use claude_agent_sdk_go.Base.Tests.{ltb, nat_eq, if◌then◌else◌}

-- `negsuc n` is -(n + 1).
pub data ℤ : Type 0 where
  pos : ℕ → ℤ
  negsuc : ℕ → ℤ

abbrev pub pos_part : ℤ → ℕ
pos_part (pos n) = n
pos_part (negsuc n) = 0

abbrev pub neg_part : ℤ → ℕ
neg_part (pos n) = 0
neg_part (negsuc n) = suc n

infix 50 ◌≤ℤ◌ ◌<ℤ◌
abbrev pub ◌≤ℤ◌ : ℤ → ℤ → Type 0
a ≤ℤ b = pos_part a + neg_part b ≤ pos_part b + neg_part a

abbrev pub ◌<ℤ◌ : ℤ → ℤ → Type 0
a <ℤ b = pos_part a + neg_part b < pos_part b + neg_part a

abbrev pub ltb_ℤ : ℤ → ℤ → Bool
ltb_ℤ a b = ltb (pos_part a + neg_part b) (pos_part b + neg_part a)

abbrev pub eq_ℤ : ℤ → ℤ → Bool
eq_ℤ a b = nat_eq (pos_part a + neg_part b) (pos_part b + neg_part a)

-- 2^63 - 1
abbrev pub max_int64 : ℤ
max_int64 = pos (2 ^ 63 - 1)

-- x + 1 on int64
unfoldable pub inc64 : ℤ → ℤ
inc64 (pos n) = if nat_eq n (2 ^ 63 - 1) then negsuc (2 ^ 63 - 1) else pos (n + 1)
inc64 (negsuc zero) = pos 0
inc64 (negsuc (suc n)) = negsuc n

-- max(a, b) on int64
unfoldable pub max_ℤ : ℤ → ℤ → ℤ
max_ℤ a b = if ltb_ℤ a b then b else a

pub lt-inc64 : (a : ℤ) → a <ℤ max_int64 → a <ℤ inc64 a
unfolding inc64
lt-inc64 (pos n) h = ground arith
lt-inc64 (negsuc zero) h = omega arith
lt-inc64 (negsuc (suc n)) h = omega arith

pub max_ℤ-right : (a b : ℤ) → b ≤ℤ max_ℤ a b
unfolding max_ℤ
max_ℤ-right a b = ground arith

pub ltb_ℤ_irrefl : (a : ℤ) → ltb_ℤ a a ≡ false
ltb_ℤ_irrefl (pos n) = ground arith
ltb_ℤ_irrefl (negsuc n) = ground arith

-- What an int64 keeps of an integer: its low 64 bits, read in two's complement.
unfoldable pub wrap64 : ℤ → ℤ
wrap64 (pos n) =
    let low = n % 2 ^ 64 in if ltb low (2 ^ 63) then pos low else negsuc (2 ^ 64 - 1 - low)
wrap64 (negsuc n) =
    let low = n % 2 ^ 64 in if ltb low (2 ^ 63) then negsuc low else pos (2 ^ 64 - 1 - low)

-- x * suc k
abbrev pub times_suc : ℕ → ℤ → ℤ
times_suc k (pos n) = pos (n * suc k)
times_suc k (negsuc n) = negsuc (n * suc k + k)

-- time.Duration(ms) * time.Millisecond, in nanoseconds
unfoldable pub milliseconds : ℤ → ℤ
milliseconds ms = wrap64 (times_suc 999999 ms)
