-- ===== src/Sessions/ProjectKey.antt =====
-- domains/sessions/project_key.go: sanitizePath and simpleHash. A path is valid UTF-8, so that ranging
-- over it gives its code points; an int32 is its residue modulo 2^32. ProjectKeyForDirectory resolves
-- the path in the file system first, which is not modelled.
pub mod Bounds
use Prim.Native.Char.{Char, code}
use Prim.Native.String.{[], ◌∷◌, ◌++◌}
use claude_agent_sdk_go.Base.{
  ℕ, zero, suc, ◌+◌, ◌-◌, ◌*◌, ◌/◌, ◌%◌, ◌^◌, String, Bool, ◌&&◌, ◌||◌, leb, ltb, List,
  if◌then◌else◌,
}
use mathlib.Core.List.{[] as nil, ◌∷◌ as cons}
use claude_agent_sdk_go.Text.{rune_count, rune_take}

abbrev pub max_sanitized_length : ℕ
max_sanitized_length = 200

abbrev between : ℕ → ℕ → ℕ → Bool
between lo hi c = leb lo c && leb c hi

abbrev pub is_alphanumeric : ℕ → Bool
is_alphanumeric c = between 0x61 0x7a c || between 0x41 0x5a c || between 0x30 0x39 c

-- The loop of sanitizePath
unfoldable pub dash : String → String
dash [] = []
dash (c ∷ s) = (if is_alphanumeric (code c) then c else "-") ∷ dash s

-- utf16.Encode of one code point
unfoldable pub utf16_units : ℕ → List ℕ
utf16_units c =
    if ltb c 0x10000
    then cons c nil
    else cons (0xd800 + (c - 0x10000) / 0x400) (cons (0xdc00 + (c - 0x10000) % 0x400) nil)

-- h = h<<5 - h + int32(u)
unfoldable pub hash_unit : ℕ → ℕ → ℕ
hash_unit h u = (h * 32 + (2 ^ 32 - h) + u) % 2 ^ 32

unfoldable pub hash_units : ℕ → List ℕ → ℕ
hash_units h nil = h
hash_units h (cons u us) = hash_units (hash_unit h u) us

unfoldable pub hash_text : ℕ → String → ℕ
hash_text h [] = h
hash_text h (c ∷ s) = hash_text (hash_units h (utf16_units (code c))) s

-- The absolute value of an int32 as an int64
unfoldable pub magnitude : ℕ → ℕ
magnitude h = if ltb h (2 ^ 31) then h else 2 ^ 32 - h

-- The digits of strconv.FormatInt in base 36, and their character
unfoldable pub digits36 : ℕ → ℕ → List ℕ → List ℕ
digits36 zero n acc = acc
digits36 (suc fuel) n acc =
    let on = digits36 fuel (n / 36) (cons (n % 36) acc) in if ltb n 36 then cons n acc else on

-- The character of a digit: the n-th of the alphabet
unfoldable pub char_at : ℕ → String → Char
char_at n [] = "-"
char_at zero (c ∷ s) = c
char_at (suc n) (c ∷ s) = char_at n s

unfoldable pub text36 : List ℕ → String
text36 nil = []
text36 (cons d ds) = char_at d "0123456789abcdefghijklmnopqrstuvwxyz" ∷ text36 ds

-- The digits of a number below 36^6, which every magnitude of an int32 is
abbrev pub hash_digits : ℕ → List ℕ
hash_digits n = digits36 6 n nil

-- simpleHash
unfoldable pub simple_hash : String → String
unfolding text36 magnitude hash_text
simple_hash s = text36 (hash_digits (magnitude (hash_text 0 s)))

-- sanitizePath
unfoldable pub sanitize_path : String → String
unfolding simple_hash dash
sanitize_path path =
    if leb (rune_count (dash path)) max_sanitized_length
    then dash path
    else rune_take max_sanitized_length (dash path) ++ ("-" ++ simple_hash path)
