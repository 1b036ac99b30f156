-- ===== src/Json/Folded.antt =====
-- encoding/json: the members of an object that Unmarshal reads into one field of a struct. A key names
-- the field where it is equal to the field's name under case folding, here an ASCII name, no two of
-- the struct's names being equal so; the members are read in order, each over the one before.
use Prim.Native.Char.{code}
use Prim.Native.String.{[] as empty, ◌∷◌ as char}
use claude_agent_sdk_go.Base.{
  ℕ, ◌+◌, ℤ, String, ◌≡◌, refl, sym, ap, subst, ◌∙◌, if_true, if_false, Bool, true, false, ◌&&◌,
  Option, none, some, ◌⊎◌, inl, inr, ltb, nat_eq, Bool-cases, if◌then◌else◌,
}
use claude_agent_sdk_go.Json.{
  Value, Fields, null, bool, int64, int, float64, str, arr, obj, end, field,
}

-- The rune of a-z that a rune folds to, itself where there is none: the Kelvin sign folds to k, and the
-- long s to s.
unfoldable pub fold_rune : ℕ → ℕ
fold_rune c =
    if ltb 64 c && ltb c 91
    then c + 32
    else if nat_eq c 8490
    then 107
    else if nat_eq c 383
    then 115
    else c

-- bytes.EqualFold, for an ASCII text on one side
unfoldable pub equal_fold : String → String → Bool
unfolding fold_rune
equal_fold empty empty = true
equal_fold empty (char d t) = false
equal_fold (char c s) empty = false
equal_fold (char c s) (char d t) =
    let rest = equal_fold s t in nat_eq (fold_rune (code c)) (fold_rune (code d)) && rest

-- A string: null leaves it as it is, and any other value but a text is an error
unfoldable pub store_text : Value → String → Option String
store_text null s = some s
store_text (str t) s = some t
store_text _ s = none

unfoldable pub folded_text : String → Fields → Option String → Option String
folded_text k end o = o
folded_text k (field j v m) none = none
folded_text k (field j v m) (some s) =
    folded_text k m (if equal_fold j k then store_text v s else some s)

-- A pointer to an int: null makes it nil
unfoldable pub store_int : Value → Option (Option ℤ)
store_int null = some none
store_int (int64 n) = some (some n)
store_int _ = none

unfoldable pub folded_int : String → Fields → Option (Option ℤ) → Option (Option ℤ)
folded_int k end o = o
folded_int k (field j v m) none = none
folded_int k (field j v m) (some n) =
    folded_int k m (if equal_fold j k then store_int v else some n)

-- The object has a member with this value, under a key that names the field `k`.
pub data HasFolded (k : String) (v : Value) : Fields → Type 0 where
  here : (j : String) (m : Fields) → equal_fold j k ≡ true → HasFolded k v (field j v m)
  later : (j : String) (w : Value) (m : Fields) → HasFolded k v m → HasFolded k v (field j w m)

same_text : (s t : String) → some s ≡ some t → s ≡ t
same_text s t h = ap (λ o. elim o [ none ↦ s | some x ↦ x ]) h

stored : (v : Value) (s t : String) → store_text v s ≡ some t → (v ≡ str t) ⊎ (s ≡ t)
unfolding store_text
stored null s t h = inr (same_text s t h)
stored (str u) s t h = inl (ap str (same_text u t h))
stored (bool b) s t h = absurd (cc)
stored (int64 b) s t h = absurd (cc)
stored (int b) s t h = absurd (cc)
stored (float64 b) s t h = absurd (cc)
stored (arr b) s t h = absurd (cc)
stored (obj b) s t h = absurd (cc)

folded_text_failed : (k : String) (m : Fields) → folded_text k m none ≡ none
unfolding folded_text
folded_text_failed k end = refl
folded_text_failed k (field j v m) = refl

skipped-HasFolded :
    (k j : String) (v w : Value) (m : Fields) (s t : String)
    → HasFolded k v m ⊎ (s ≡ t)
    → HasFolded k v (field j w m) ⊎ (s ≡ t)
skipped-HasFolded k j v w m s t (inl has) = inl (later j w m has)
skipped-HasFolded k j v w m s t (inr same) = inr same

stored-HasFolded :
    (k j : String) (v : Value) (m : Fields) (s t : String) (o : Option String)
    → equal_fold j k ≡ true
    → store_text v s ≡ o
    → folded_text k m o ≡ some t
    → ((u : String) → folded_text k m (some u) ≡ some t → HasFolded k (str t) m ⊎ (u ≡ t))
    → HasFolded k (str t) (field j v m) ⊎ (s ≡ t)
stored-HasFolded k j v m s t none named e h next =
    let bad : none ≡ some t = sym (folded_text_failed k m) ∙ h in absurd (cc)
stored-HasFolded k j v m s t (some u) named e h next = elim (next u h) [
  | inl has ↦ inl (later j v m has)
  | inr same ↦ elim (stored v s u e) [
    | inl is_u ↦
        inl (
          subst (λ w. HasFolded k (str t) (field j w m)) (sym (is_u ∙ ap str same))
            (here j m named))
    | inr kept ↦ inr (kept ∙ same)
  ]
]

-- The text that a field gets is that of a member whose key names it, unless it is the one it had.
pub folded_text-HasFolded :
    (k : String) (m : Fields) (s t : String)
    → folded_text k m (some s) ≡ some t
    → HasFolded k (str t) m ⊎ (s ≡ t)
unfolding folded_text
folded_text-HasFolded k end s t h = inr (same_text s t h)
folded_text-HasFolded k (field j v m) s t h = elim (Bool-cases (equal_fold j k)) [
  | inl named ↦
      stored-HasFolded k j v m s t (store_text v s) named refl
        (ap (folded_text k m) (sym (if_true _ _ _ named)) ∙ h) (λ u. folded_text-HasFolded k m u t)
  | inr other ↦
      skipped-HasFolded k j (str t) v m s t
        (folded_text-HasFolded k m s t (ap (folded_text k m) (sym (if_false _ _ _ other)) ∙ h))
]
