-- ===== src/Json.antt =====
-- The values of Go's `any` that transcript entries and summaries hold: what encoding/json decodes,
-- and the int64 and int that the SDK itself stores. A `map[string]any` is `Fields`.
-- A float64 is its bit pattern; nothing computes with it but a conversion that is a parameter.
pub mod Decode
pub mod Encode
pub mod Folded
use claude_agent_sdk_go.Base.{
  ℕ, String, ◌≡◌, refl, Bool, true, false, Option, none, some, arith, ℤ, List, [], ◌∷◌, str_eq,
  eq_iff, if◌then◌else◌,
}

mutual
  pub data Value : Type 0 where
    null : Value
    bool : Bool → Value
    int64 : ℤ → Value
    int : ℤ → Value
    float64 : ℕ → Value
    str : String → Value
    arr : Items → Value
    obj : Fields → Value

  pub data Fields : Type 0 where
    end : Fields
    field : String → Value → Fields → Fields

  pub data Items : Type 0 where
    no_items : Items
    item : Value → Items → Items

-- v, ok := m[k]
unfoldable pub get : String → Fields → Option Value
get k end = none
get k (field j v m) = if str_eq j k then some v else get k m

-- m[k] = v
unfoldable pub put : String → Value → Fields → Fields
put k v end = field k v end
put k v (field j w m) = if str_eq j k then field j v m else field j w (put k v m)

-- delete(m, k)
unfoldable pub del : String → Fields → Fields
del k end = end
del k (field j w m) = let rest = del k m in if str_eq j k then rest else field j w rest

pub get-put :
    (k j : String) (v : Value) (m : Fields)
    → get j (put k v m) ≡ (if str_eq k j then some v else get j m)
unfolding get put
get-put k j v end = refl
get-put k j v (field i w m) = ground (arith, eq_iff i k, eq_iff i j, eq_iff k j, get-put k j v m)

pub get-del : (k j : String) (m : Fields) → get j (del k m) ≡ (if str_eq k j then none else get j m)
unfolding get del
get-del k j end = ground arith
get-del k j (field i w m) = ground (arith, eq_iff i k, eq_iff i j, eq_iff k j, get-del k j m)

pub get-end : (k : String) → get k end ≡ none
unfolding get
get-end k = refl

pub ruleset fields_laws = (get-put, get-del, get-end)

-- m[k] where a missing key reads as no_items
abbrev pub or_null : Option Value → Value
or_null none = null
or_null (some v) = v

unfoldable pub index : String → Fields → Value
index k m = or_null (get k m)

-- v.(string)
abbrev pub as_str : Value → Option String
as_str (str s) = some s
as_str _ = none

-- s, _ := v.(string)
abbrev pub str_or_empty : Value → String
str_or_empty (str s) = s
str_or_empty _ = ""

-- b, _ := v.(bool)
abbrev pub bool_or_false : Value → Bool
bool_or_false (bool b) = b
bool_or_false _ = false

-- v.(map[string]any)
abbrev pub as_obj : Value → Option Fields
as_obj (obj m) = some m
as_obj _ = none

-- v.([]any)
abbrev pub as_arr : Value → Option Items
as_arr (arr xs) = some xs
as_arr _ = none

-- v == true
abbrev pub is_true : Value → Bool
is_true (bool b) = b
is_true _ = false

-- v == "s"
abbrev pub is_str : Value → String → Bool
is_str (str s) t = str_eq s t
is_str _ t = false

-- v == no_items
abbrev pub is_null : Value → Bool
is_null null = true
is_null _ = false

abbrev pub has : String → Fields → Bool
has k m = elim (get k m) [ none ↦ false | some _ ↦ true ]

unfoldable pub to_list : Items → List Value
to_list no_items = []
to_list (item v xs) = v ∷ to_list xs

unfoldable pub of_list : List Value → Items
of_list [] = no_items
of_list (v ∷ vs) = item v (of_list vs)
