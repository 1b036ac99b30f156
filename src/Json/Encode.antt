-- ===== src/Json/Encode.antt =====
-- encoding/json: Marshal of a struct, whose members may be left out by `omitempty`. A slice that is
-- always written is null where it is nil.
use claude_agent_sdk_go.Base.{
  String, Bool, true, false, Option, none, some, List, [], ◌∷◌, map, ℤ, if◌then◌else◌, str_eq, ◌≡◌,
  refl, arith,
}
use claude_agent_sdk_go.Text.{is_empty}
use claude_agent_sdk_go.Json.{get, Value, Fields, bool, int64, str, arr, obj, end, field, of_list}

abbrev pub Member : Type 0
Member = String × Option Value

-- The members that are not left out
unfoldable pub fields_of : List Member → Fields
fields_of [] = end
fields_of ((k, none) ∷ ms) = fields_of ms
fields_of ((k, some v) ∷ ms) = field k v (fields_of ms)

-- With omitempty
abbrev pub omit_text : String → Option Value
omit_text s = if is_empty s then none else some (str s)

abbrev pub omit_false : Bool → Option Value
omit_false true = some (bool true)
omit_false false = none

abbrev pub omit_nil : List String → Option Value
omit_nil [] = none
omit_nil xs = some (arr (of_list (map str xs)))

abbrev pub omit_end : Fields → Option Value
omit_end end = none
omit_end m = some (obj m)

-- Pointers with omitempty
abbrev pub maybe_bool : Option Bool → Option Value
maybe_bool none = none
maybe_bool (some b) = some (bool b)

abbrev pub maybe_int : Option ℤ → Option Value
maybe_int none = none
maybe_int (some n) = some (int64 n)

abbrev pub or_else : Option Value → Option Value → Option Value
or_else none o = o
or_else (some v) _ = some v

-- The member that a key names
unfoldable pub member : String → List Member → Option Value
member k [] = none
member k ((j, o) ∷ ms) = let rest = member k ms in if str_eq j k then or_else o rest else rest

-- A key reads as the first of its members that is not left out.
pub get-fields_of : (k : String) (ms : List Member) → get k (fields_of ms) ≡ member k ms
unfolding get fields_of member
get-fields_of k [] = refl
get-fields_of k ((j, none) ∷ ms) = ground (arith, get-fields_of k ms)
get-fields_of k ((j, some v) ∷ ms) = ground (arith, get-fields_of k ms)

pub or_else-none : (o : Option Value) → or_else o none ≡ o
or_else-none none = refl
or_else-none (some v) = refl
