-- ===== src/Text/Laws.antt =====
-- What the trimming and cutting functions do to the length of a text.
use Prim.Native.String.{[], ◌∷◌, ◌++◌}
use text.Mathlib.TextLemmas.{nil-append, cons-append}
use claude_agent_sdk_go.Base.{ℕ, zero, suc, ◌+◌, ◌≤◌, ◌≡◌, ap, String, Bool, arith}
use claude_agent_sdk_go.Text.{trim_right, rune_count, rune_take}

pub rune_count-trim_right : (p : ℕ → Bool) (s : String) → rune_count (trim_right p s) ≤ rune_count s
unfolding rune_count trim_right
rune_count-trim_right p [] = omega arith
rune_count-trim_right p (c ∷ s) = ground (arith, rune_count-trim_right p s)

pub rune_count-rune_take : (n : ℕ) (s : String) → rune_count (rune_take n s) ≤ n
unfolding rune_count rune_take
rune_count-rune_take zero s = omega arith
rune_count-rune_take (suc n) [] = omega arith
rune_count-rune_take (suc n) (c ∷ s) = omega (arith, rune_count-rune_take n s)

pub rune_count-append : (s t : String) → rune_count (s ++ t) ≡ rune_count s + rune_count t
unfolding rune_count
rune_count-append [] t = omega (arith, ap rune_count (nil-append t))
rune_count-append (c ∷ s) t =
    omega (arith, ap rune_count (cons-append c s t), rune_count-append s t)
