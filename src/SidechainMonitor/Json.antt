-- ===== src/SidechainMonitor/Json.antt =====
-- What encoding/json gives to litwindow/server/engines/sidechain_monitor_engine.go: the values of
-- a text, the two targets of json.Unmarshal that the engine uses, and its type assertions. A text
-- is `none` where it is not JSON. A number is the 64 bits of its float64.
use drivechain_litwindow.Prelude.{
  ℕ, ◌+◌, ◌-◌, ◌*◌, ◌/◌, ◌%◌, ◌^◌, ◌≡◌, ◌≤◌, ◌<◌, arith, tests, Bool-cases, inl, inr, refl, Bool,
  Option, none, some, List, [], ◌∷◌, Bytes, same, ltb, if◌then◌else◌,
}
use native.Mathlib.Nat.{pow-le-pow_right, div-le_self}
use drivechain_litwindow.Int64.{i64_sub}

mutual
  pub data Json : Type 0 where
    null : Json
    boolean : Bool → Json
    number : ℕ → Json
    text : Bytes → Json
    array : Items → Json
    object : Fields → Json

  pub data Items : Type 0 where
    nil : Items
    item : Json → Items → Items

  pub data Fields : Type 0 where
    end : Fields
    field : Bytes → Json → Fields → Fields

-- a message as it came: `none` if it is not JSON
abbrev pub RawMessage : Type 0
RawMessage = Option Json

-- m[key] of a decoded object: the last of several fields with one name stands
unfoldable pub get_field : Bytes → Fields → Option Json
get_field key end = none
get_field key (field k v rest) = elim (get_field key rest) [
  | some later ↦ some later
  | none ↦ if same k key then some v else none
]

-- json.Unmarshal into a map[string]interface{}: null leaves the map empty
unfoldable pub unmarshal_map : RawMessage → Option Fields
unmarshal_map (some null) = some end
unmarshal_map (some (object fields)) = some fields
unmarshal_map _ = none

-- into a []map[string]interface{}
unfoldable pub maps_of : Items → Option (List Fields)
unfolding unmarshal_map
maps_of nil = some []
maps_of (item v rest) = elim (unmarshal_map (some v)) [
  | none ↦ none
  | some fields ↦ elim (maps_of rest) [ none ↦ none | some more ↦ some (fields ∷ more) ]
]

unfoldable pub unmarshal_maps : RawMessage → Option (List Fields)
unfolding maps_of
unmarshal_maps (some null) = some []
unmarshal_maps (some (array items)) = maps_of items
unmarshal_maps _ = none

-- v.(string), v.(float64), v.([]interface{}) and v.(map[string]interface{})
unfoldable pub as_text : Option Json → Option Bytes
as_text (some (text s)) = some s
as_text _ = none

unfoldable pub as_number : Option Json → Option ℕ
as_number (some (number bits)) = some bits
as_number _ = none

unfoldable pub as_array : Option Json → Option Items
as_array (some (array items)) = some items
as_array _ = none

unfoldable pub as_object : Json → Option Fields
as_object (object fields) = some fields
as_object _ = none

-- int64(f) of a float64 given by its bits, rounded towards 0; out of range Go leaves the value
-- open, and this is what amd64 gives
unfoldable pub whole_part : ℕ → ℕ → ℕ
whole_part exponent mantissa =
    if ltb exponent 1023
    then 0
    else if ltb exponent 1075
    then mantissa / 2 ^ (1075 - exponent)
    else if ltb exponent 1086
    then mantissa * 2 ^ (exponent - 1075)
    else 2 ^ 63

unfoldable pub float_to_int64 : ℕ → ℕ
unfolding whole_part
float_to_int64 bits =
    let size = whole_part (bits / 2 ^ 52 % 2 ^ 11) (2 ^ 52 + bits % 2 ^ 52) in
    if ltb bits (2 ^ 63) then size else i64_sub 0 size

mul-lt : (a b : ℕ) → a < 2 ^ 53 → b ≤ 2 ^ 10 → a * b < 2 ^ 64
mul-lt a b h k = let m : a * b ≤ a * 2 ^ 10 = grind arith in omega arith

whole_part-lt : (exponent mantissa : ℕ) → mantissa < 2 ^ 53 → whole_part exponent mantissa < 2 ^ 64
unfolding whole_part
whole_part-lt exponent mantissa h = elim (Bool-cases (ltb exponent 1086)) [
  | inl low ↦
      let power : 2 ^ (exponent - 1075) ≤ 2 ^ 10 =
        pow-le-pow_right {n = 2} (omega arith) {i = exponent - 1075} {j = 10} (omega tests) in
      ground (
        arith,
        mul-lt mantissa (2 ^ (exponent - 1075)) h power,
        div-le_self mantissa (2 ^ (1075 - exponent)),
      )
  | inr high ↦ ground (arith, div-le_self mantissa (2 ^ (1075 - exponent)))
]

pub float_to_int64-lt : (bits : ℕ) → float_to_int64 bits < 2 ^ 64
unfolding float_to_int64 i64_sub
float_to_int64-lt bits =
    ground (arith, whole_part-lt (bits / 2 ^ 52 % 2 ^ 11) (2 ^ 52 + bits % 2 ^ 52))

-- 100000.0, -2.5 and 1e300
float_to_int64_test :
    (float_to_int64 0x40F86A0000000000 ≡ 100_000)
    × (float_to_int64 0xC004000000000000 ≡ 2 ^ 64 - 2)
    × (float_to_int64 0x7E37E43C8800759C ≡ 2 ^ 63)
unfolding float_to_int64 whole_part i64_sub
float_to_int64_test = (refl, refl, refl)
