-- ===== src/Text/Parts.antt =====
-- strings.Split, strings.Join and strings.TrimSuffix, and how they undo one another.
use Prim.Native.Char.{Char, code}
use Prim.Native.String.{◌++◌ as append}
use text.Mathlib.TextLemmas.{nil-append, cons-append}
use claude_agent_sdk_go.Base.{
  String, ◌≡◌, refl, ◌∙◌, ap, Bool, true, false, ◌||◌, List, [], ◌∷◌, All, arith, nat_eq, str_eq,
  eq_iff, eq_refl, if◌then◌else◌, Bool-cases, inl, inr,
}
use claude_agent_sdk_go.Text.{trim_suffix, has_suffix, rune_count}
use claude_agent_sdk_go.Text.Laws.{rune_count-append}

abbrev prepend : Char → List String → List String
prepend c [] = (String.◌∷◌ c String.[]) ∷ []
prepend c (s ∷ parts) = (String.◌∷◌ c s) ∷ parts

-- strings.Split(s, sep), for a separator of one code point
unfoldable pub split : Char → String → List String
split sep String.[] = String.[] ∷ []
split sep (String.◌∷◌ c s) =
    let rest = split sep s in
    if nat_eq (code c) (code sep) then String.[] ∷ rest else prepend c rest

-- strings.Join(parts, sep)
unfoldable pub join : Char → List String → String
join sep [] = String.[]
join sep (s ∷ []) = s
join sep (s ∷ t ∷ parts) = append s (String.◌∷◌ sep (join sep (t ∷ parts)))

-- Whether the separator occurs in the text
unfoldable pub has_char : Char → String → Bool
has_char sep String.[] = false
has_char sep (String.◌∷◌ c s) = nat_eq (code c) (code sep) || has_char sep s

split-plain : (sep : Char) (s : String) → has_char sep s ≡ false → split sep s ≡ s ∷ []
unfolding split has_char
split-plain sep String.[] h = refl
split-plain sep (String.◌∷◌ c s) h = ground (arith, split-plain sep s)

split-append :
    (sep : Char) (s t : String)
    → has_char sep s ≡ false
    → split sep (append s (String.◌∷◌ sep t)) ≡ s ∷ split sep t
unfolding split has_char
split-append sep String.[] t h = rw (nil-append (String.◌∷◌ sep t)) (ground arith)
split-append sep (String.◌∷◌ c s) t h =
    rw (cons-append c s (String.◌∷◌ sep t)) (ground (arith, split-append sep s t))

-- Splitting undoes joining where no part holds the separator.
pub split-join :
    (sep : Char) (s : String) (parts : List String)
    → All (λ p. has_char sep p ≡ false) (s ∷ parts)
    → split sep (join sep (s ∷ parts)) ≡ s ∷ parts
unfolding join
split-join sep s [] h = split-plain sep s h.0
split-join sep s (t ∷ parts) h =
    split-append sep s (join sep (t ∷ parts)) h.0 ∙ ap (λ ps. s ∷ ps) (split-join sep t parts h.1)

longer : (c : Char) (s t : String) → str_eq (String.◌∷◌ c (append s t)) t ≡ false
unfolding rune_count
longer c s t = elim (Bool-cases (str_eq (String.◌∷◌ c (append s t)) t)) [
  | inl same ↦ absurd (omega (arith, ap rune_count ((eq_iff _ t).0 same), rune_count-append s t))
  | inr other ↦ other
]

trim_suffix_self : (t : String) → trim_suffix t t ≡ String.[]
unfolding trim_suffix
trim_suffix_self String.[] = refl
trim_suffix_self (String.◌∷◌ c t) = rw (eq_refl (String.◌∷◌ c t))

has_suffix_self : (t : String) → has_suffix t t ≡ true
unfolding has_suffix
has_suffix_self String.[] = refl
has_suffix_self (String.◌∷◌ c t) = rw (eq_refl (String.◌∷◌ c t))

pub has_suffix-append : (t s : String) → has_suffix t (append s t) ≡ true
unfolding has_suffix
has_suffix-append t String.[] = rw (nil-append t) (has_suffix_self t)
has_suffix-append t (String.◌∷◌ c s) = rw (cons-append c s t, longer c s t) (has_suffix-append t s)

-- TrimSuffix takes off a suffix that was put on.
pub trim_suffix-append : (t s : String) → trim_suffix t (append s t) ≡ s
unfolding trim_suffix
trim_suffix-append t String.[] = rw (nil-append t) (trim_suffix_self t)
trim_suffix-append t (String.◌∷◌ c s) =
    rw (cons-append c s t, longer c s t) (ap (String.◌∷◌ c) (trim_suffix-append t s))
