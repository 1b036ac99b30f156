-- ===== src/Json/Decode.antt =====
-- encoding/json: Unmarshal of a parsed value into a struct. A number without fraction or exponent that
-- fits 64 bits is `int64`, a number into a float64 stays the value that spells it, a json.RawMessage is
-- the value of its text, none where it has length 0, and a nil slice is [].
use claude_agent_sdk_go.Base.{
  ℤ, pos, ◌≡◌, refl, String, Bool, false, Option, none, some, List, [], ◌∷◌,
}
use claude_agent_sdk_go.Json.{
  Value, Fields, Items, null, bool, int64, float64, str, arr, obj, end, no_items, item, get,
}

-- `P` holds of the value that there is, if there is one.
abbrev pub Always {ℓ κ} : {A : Type ℓ} → (A → Type κ) → Option A → Type (ℓ ⊔ κ)
Always {A} P o = (a : A) → o ≡ some a → P a

module _ {ℓ κ} {A : Type ℓ} {B : Type κ} where
  infixl 5 ◌>>=◌
  abbrev pub ◌>>=◌ : Option A → (A → Option B) → Option B
  none >>= f = none
  some a >>= f = f a

  pub bind-Always {ρ} :
      (P : B → Type ρ) (o : Option A) (f : A → Option B)
      → ((a : A) → o ≡ some a → Always P (f a))
      → Always P (o >>= f)
  bind-Always P none f each = λ b h. absurd (cc)
  bind-Always P (some a) f each = each a refl

-- What Unmarshal stores into a struct: null leaves it as it is
abbrev pub decode_struct {ℓ} : {A : Type ℓ} → (Fields → Option A) → Value → Option A
decode_struct decode null = decode end
decode_struct decode (obj m) = decode m
decode_struct decode _ = none

-- A member of a struct, by the value of its key
abbrev pub of_text : Option Value → Option String
of_text none = some ""
of_text (some null) = some ""
of_text (some (str s)) = some s
of_text (some _) = none

abbrev pub of_bool : Option Value → Option Bool
of_bool none = some false
of_bool (some null) = some false
of_bool (some (bool b)) = some b
of_bool (some _) = none

abbrev pub of_int : Option Value → Option ℤ
of_int none = some (pos 0)
of_int (some null) = some (pos 0)
of_int (some (int64 n)) = some n
of_int (some _) = none

abbrev pub of_float : Option Value → Option Value
of_float none = some (int64 (pos 0))
of_float (some null) = some (int64 (pos 0))
of_float (some (int64 n)) = some (int64 n)
of_float (some (float64 x)) = some (float64 x)
of_float (some _) = none

abbrev pub of_struct {ℓ} : {A : Type ℓ} → (Fields → Option A) → Option Value → Option A
of_struct decode none = decode end
of_struct decode (some v) = decode_struct decode v

-- A pointer
abbrev pub of_pointer {ℓ} :
    {A : Type ℓ} → (Option Value → Option A) → Option Value → Option (Option A)
of_pointer decode none = some none
of_pointer decode (some null) = some none
of_pointer decode (some v) = do a ← decode (some v); some (some a)

unfoldable pub decode_items {ℓ} : {A : Type ℓ} → (Option Value → Option A) → Items → Option (List A)
decode_items decode no_items = some []
decode_items decode (item v xs) = do
  a ← decode (some v)
  rest ← decode_items decode xs
  some (a ∷ rest)

-- A slice
unfoldable pub of_slice {ℓ} :
    {A : Type ℓ} → (Option Value → Option A) → Option Value → Option (List A)
of_slice decode none = some []
of_slice decode (some null) = some []
of_slice decode (some (arr xs)) = decode_items decode xs
of_slice decode (some _) = none

-- A map[string]any
abbrev pub of_map : Option Value → Option Fields
of_map none = some end
of_map (some null) = some end
of_map (some (obj m)) = some m
of_map (some _) = none

module _ (m : Fields) where
  abbrev pub get_text : String → Option String
  get_text k = of_text (get k m)

  abbrev pub get_maybe_text : String → Option (Option String)
  get_maybe_text k = of_pointer of_text (get k m)

  abbrev pub get_bool : String → Option Bool
  get_bool k = of_bool (get k m)

  abbrev pub get_maybe_bool : String → Option (Option Bool)
  get_maybe_bool k = of_pointer of_bool (get k m)

  abbrev pub get_int : String → Option ℤ
  get_int k = of_int (get k m)

  abbrev pub get_maybe_int : String → Option (Option ℤ)
  get_maybe_int k = of_pointer of_int (get k m)

  abbrev pub get_texts : String → Option (List String)
  get_texts k = of_slice of_text (get k m)
