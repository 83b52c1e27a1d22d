-- ===== src/Json.antt =====
-- The documents that the messages are: the part of Go's encoding/json on which protocol.go, mqtt.go
-- and agent.go rely. The grammar of the text is left aside: a document is its tree, and a payload
-- that is no document is `none` where one is received. Strings are valid UTF-8, keys do not repeat
-- within an object, and the case folding of keys is that of ASCII.
use o_camera_agent.Common.{
  ℕ, ◌^◌, ◌-◌, Bool, false, ◌&&◌, List, [], ◌∷◌, map, Option, none, some, if◌then◌else◌,
}
use o_camera_agent.Common.Int.{ℤ, pos, negsuc, leb_ℤ}
use o_camera_agent.Common.Text.{Bytes, same, to_lower}

mutual
  pub data Value : Type 0 where
    null : Value
    bool : Bool → Value
    int : ℤ → Value
    -- a number with a fraction or an exponent
    real : Bytes → Value
    str : Bytes → Value
    arr : Items → Value
    obj : Fields → Value

  pub data Items : Type 0 where
    nil : Items
    cons : Value → Items → Items

  pub data Fields : Type 0 where
    end : Fields
    field : Bytes → Value → Fields → Fields

abbrev pub strings : List Bytes → Items
strings [] = nil
strings (s ∷ ss) = cons (str s) (strings ss)

-- A key selects a field of a struct by its name, without regard to case.
unfoldable pub is_key : Bytes → Bytes → Bool
unfolding same to_lower
is_key name key = same (map to_lower key) (map to_lower name)

unfoldable pub get : Bytes → Fields → Option Value
unfolding is_key
get name end = none
get name (field k v fs) = let rest = get name fs in if is_key name k then some v else rest

-- The decoders answer `none` for a value of the wrong kind. A field that is absent or `null` keeps
-- its zero value, or `nil` behind a pointer.
unfoldable pub string_field : Option Value → Option Bytes
string_field none = some []
string_field (some null) = some []
string_field (some (str s)) = some s
string_field _ = none

unfoldable pub int64_field : Option Value → Option ℤ
int64_field none = some (pos 0)
int64_field (some null) = some (pos 0)
int64_field (some (int n)) =
    if leb_ℤ (negsuc (2 ^ 63 - 1)) n && leb_ℤ n (pos (2 ^ 63 - 1)) then some n else none
int64_field _ = none

unfoldable pub bool_field : Option Value → Option Bool
bool_field none = some false
bool_field (some null) = some false
bool_field (some (bool b)) = some b
bool_field _ = none

unfoldable pub bool_pointer_field : Option Value → Option (Option Bool)
bool_pointer_field none = some none
bool_pointer_field (some null) = some none
bool_pointer_field (some (bool b)) = some (some b)
bool_pointer_field _ = none

unfoldable pub string_pointer_field : Option Value → Option (Option Bytes)
string_pointer_field none = some none
string_pointer_field (some null) = some none
string_pointer_field (some (str s)) = some (some s)
string_pointer_field _ = none

unfoldable pub uint16_pointer_field : Option Value → Option (Option ℕ)
uint16_pointer_field none = some none
uint16_pointer_field (some null) = some none
uint16_pointer_field (some (int (pos n))) =
    if leb_ℤ (pos n) (pos (2 ^ 16 - 1)) then some (some n) else none
uint16_pointer_field _ = none

-- json.Unmarshal into a struct: the fields that it may read. Nothing is no document, `null` leaves
-- the struct as it is.
unfoldable pub struct_fields : Option Value → Option Fields
struct_fields (some null) = some end
struct_fields (some (obj fs)) = some fs
struct_fields _ = none
