-- ===== src/Base/Once.antt =====
-- Texts gathered in a list without repetition.
use mathlib.Core.Path.{◌≡◌, refl, ◌∙◌, ap, sym, subst}
use mathlib.Core.Logic.{inl, inr}
use mathlib.Core.Bool.{Bool, true, false, ◌||◌}
use mathlib.Core.Option.{Option, none, some}
use mathlib.Core.List.{List, [], ◌∷◌, ◌++◌}
use Prim.Native.String.{String}
use native.Mathlib.Omega.{arith}
use text.Mathlib.Text.{◌==◌ as str_eq}
use text.Mathlib.TextEquality.{eq_iff}
use claude_agent_sdk_go.Base.Tests.{
  string_eq, if◌then◌else◌, Bool-cases, Option-cases, if_true, if_false,
}
use claude_agent_sdk_go.Base.Lists.{any, contains}

-- No text occurs twice.
abbrev pub Once : List String → Type 0
Once [] = Unit
Once (id ∷ ids) = (contains ids id ≡ false) × Once ids

contains-snoc :
    (ids : List String) (k id : String)
    → contains (ids ++ k ∷ []) id ≡ (contains ids id || str_eq k id)
contains-snoc [] k id = ground arith
contains-snoc (j ∷ ids) k id = ground (arith, contains-snoc ids k id)

snoc-Once :
    (ids : List String) (k : String) → contains ids k ≡ false → Once ids → Once (ids ++ k ∷ [])
snoc-Once [] k h o = (refl, tt)
snoc-Once (j ∷ ids) k h o = (
  contains-snoc ids k j ∙ ground (arith, h, o.0, eq_iff j k, eq_iff k j),
  snoc-Once ids k (ground (arith, h)) o.1,
)

-- A text that is appended to those seen unless it is among them
abbrev pub add_id : List String → String → List String
add_id ids k = if contains ids k then ids else ids ++ k ∷ []

contains-add_id :
    (ids : List String) (k id : String)
    → contains (add_id ids k) id ≡ (contains ids id || str_eq k id)
contains-add_id ids k id = elim (Bool-cases (contains ids k)) [
  | inr new ↦ ap (λ js. contains js id) (if_false _ _ _ new) ∙ contains-snoc ids k id
  | inl known ↦ ap (λ js. contains js id) (if_true _ _ _ known) ∙ already known
]
  where
    already : contains ids k ≡ true → contains ids id ≡ (contains ids id || str_eq k id)
    already known = elim (Bool-cases (str_eq k id)) [
      | inr other ↦ ground (arith, other)
      | inl same ↦
          let here : contains ids id ≡ true =
            subst (λ j. contains ids j ≡ true) ((eq_iff k id).0 same) known in
          ground (arith, here, same)
    ]

add_id-Once : (ids : List String) (k : String) → Once ids → Once (add_id ids k)
add_id-Once ids k o = elim (Bool-cases (contains ids k)) [
  | inl known ↦ subst Once (sym (if_true _ _ _ known)) o
  | inr new ↦ subst Once (sym (if_false _ _ _ new)) (snoc-Once ids k new o)
]

or_assoc : (a b c : Bool) → ((a || b) || c) ≡ (a || (b || c))
or_assoc true b c = refl
or_assoc false b c = refl

-- The element is one that gives the text.
abbrev pub gives {ℓ} : {A : Type ℓ} → (A → Option String) → String → A → Bool
gives f id x = elim (f x) [ none ↦ false | some j ↦ str_eq j id ]

-- A loop over elements that gathers the texts they give, each once, in the order of their first
unfoldable pub gather {ℓ} : {A : Type ℓ} → (A → Option String) → List String → List A → List String
gather f ids [] = ids
gather f ids (x ∷ xs) = elim (f x) [
  | none ↦ gather f ids xs
  | some id ↦ gather f (add_id ids id) xs
]

-- The goal of `gather-all` at an element that gives `o`
abbrev Gathered {ℓ} :
    {A : Type ℓ} → (A → Option String) → List String → List A → Option String → Type 0
Gathered f ids xs o =
    let all : List String = elim o [
      | none ↦ gather f ids xs
      | some k ↦ gather f (add_id ids k) xs
    ] in
    Once all
    × ((id : String)
        → contains all id ≡ (
            contains ids id
            || ((elim o [ none ↦ false | some j ↦ str_eq j id ]) || any (gives f id) xs)))

gather-all {ℓ} :
    {A : Type ℓ} (f : A → Option String) (ids : List String) (xs : List A)
    → Once ids
    → Once (gather f ids xs)
      × ((id : String) → contains (gather f ids xs) id ≡ (contains ids id || any (gives f id) xs))
unfolding gather
gather-all f ids [] o = (o, λ id. ground arith)
gather-all f ids (x ∷ xs) o = elim (Option-cases (f x)) [
  | inl gone ↦ subst (Gathered f ids xs) (sym gone) (gather-all f ids xs o)
  | inr (k, found) ↦
      let (once, all) = gather-all f (add_id ids k) xs (add_id-Once ids k o) in
      subst (Gathered f ids xs) (sym found) (
        once,
        λ id.
            all id
            ∙ ap (λ b. b || any (gives f id) xs) (contains-add_id ids k id)
            ∙ or_assoc (contains ids id) (str_eq k id) (any (gives f id) xs),
      )
]

-- Each text is gathered once, and exactly those that some element gives.
pub gather-Once {ℓ} :
    {A : Type ℓ} (f : A → Option String) (xs : List A)
    → Once (gather f [] xs) × ((id : String) → contains (gather f [] xs) id ≡ any (gives f id) xs)
gather-Once f xs = gather-all f [] xs tt
