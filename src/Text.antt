-- ===== src/Text.antt =====
-- The functions of Go's `strings`, `unicode/utf8` and `regexp` that the packages call, over the
-- code points of a string.
pub mod Laws
pub mod Parts
pub mod Numbers
use Prim.Native.Char.{Char, code}
use Prim.Native.String.{[], ◌∷◌, ◌++◌}
use claude_agent_sdk_go.Base.{
  ℕ, zero, suc, String, Bool, true, false, ◌&&◌, ◌||◌, Option, none, some, str_eq, leb, nat_eq,
  if◌then◌else◌,
}

abbrev between : ℕ → ℕ → ℕ → Bool
between lo hi c = leb lo c && leb c hi

-- unicode.IsSpace
unfoldable pub is_space : ℕ → Bool
is_space c =
    between 0x09 0x0d c
    || nat_eq c 0x20
    || nat_eq c 0x85
    || nat_eq c 0xa0
    || nat_eq c 0x1680
    || between 0x2000 0x200a c
    || between 0x2028 0x2029 c
    || nat_eq c 0x202f
    || nat_eq c 0x205f
    || nat_eq c 0x3000

-- `\s` of package regexp
unfoldable pub is_re_space : ℕ → Bool
is_re_space c = nat_eq c 0x09 || nat_eq c 0x0a || nat_eq c 0x0c || nat_eq c 0x0d || nat_eq c 0x20

-- The cutset " \t\r\n\f\v"
unfoldable pub is_ascii_space : ℕ → Bool
is_ascii_space c = between 0x09 0x0d c || nat_eq c 0x20

abbrev pub is_empty : String → Bool
is_empty [] = true
is_empty (c ∷ s) = false

-- strings.TrimLeftFunc
unfoldable pub trim_left : (ℕ → Bool) → String → String
trim_left p [] = []
trim_left p (c ∷ s) = let rest = trim_left p s in if p (code c) then rest else c ∷ s

-- strings.TrimRightFunc
unfoldable pub trim_right : (ℕ → Bool) → String → String
trim_right p [] = []
trim_right p (c ∷ s) =
    let rest = trim_right p s in if is_empty rest && p (code c) then [] else c ∷ rest

-- strings.TrimSpace
unfoldable pub trim_space : String → String
unfolding trim_left trim_right is_space
trim_space s = trim_right is_space (trim_left is_space s)

-- strings.ReplaceAll(s, old, new) for one code point each
unfoldable pub replace_char : ℕ → Char → String → String
replace_char old new [] = []
replace_char old new (c ∷ s) = (if nat_eq (code c) old then new else c) ∷ replace_char old new s

-- strings.CutPrefix, with the prefix first
unfoldable pub cut_prefix : String → String → Option String
cut_prefix [] s = some s
cut_prefix (c ∷ t) [] = none
cut_prefix (c ∷ t) (d ∷ s) =
    let rest = cut_prefix t s in if nat_eq (code c) (code d) then rest else none

abbrev is_some {ℓ} : {A : Type ℓ} → Option A → Bool
is_some none = false
is_some (some a) = true

-- strings.HasPrefix(s, t), with t first
unfoldable pub has_prefix : String → String → Bool
unfolding cut_prefix
has_prefix t s = is_some (cut_prefix t s)

-- strings.HasSuffix(s, t), with t first
unfoldable pub has_suffix : String → String → Bool
has_suffix t [] = str_eq [] t
has_suffix t (c ∷ s) = str_eq (c ∷ s) t || has_suffix t s

-- The text before and after the first `sep` (strings.Cut), with `sep` first.
unfoldable pub cut : String → String → Option (String × String)
unfolding cut_prefix
cut sep [] = elim (cut_prefix sep []) [ none ↦ none | some rest ↦ some ([], rest) ]
cut sep (c ∷ s) =
    let later = cut sep s in
    elim (cut_prefix sep (c ∷ s)) [
      | some rest ↦ some ([], rest)
      | none ↦ elim later [ none ↦ none | some (before, after) ↦ some (c ∷ before, after) ]
    ]

-- utf8.RuneCountInString
unfoldable pub rune_count : String → ℕ
rune_count [] = 0
rune_count (c ∷ s) = suc (rune_count s)

-- string([]rune(s)[:n]), for n not over the count
unfoldable pub rune_take : ℕ → String → String
rune_take zero s = []
rune_take (suc n) [] = []
rune_take (suc n) (c ∷ s) = c ∷ rune_take n s

-- strings.TrimSuffix(s, t), with t first and not empty
unfoldable pub trim_suffix : String → String → String
trim_suffix t [] = []
trim_suffix t (c ∷ s) = let rest = c ∷ trim_suffix t s in if str_eq (c ∷ s) t then [] else rest
