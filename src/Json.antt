-- ===== src/Json.antt =====
-- `serde_json::Value` as the code uses it: the type, the accessors, and objects as maps.
-- serde_json is built without `preserve_order`, so an object is a map in key order.
pub mod Map
pub mod Arrays
pub mod Build
pub mod Selected
use Prim.Native.String.{compare}
use Prim.Native.Nat.{Ordering}
use mcp_memory_rs.Common.{
  ℕ, String, Bool, true, false, Option, none, some, List, [], ◌∷◌, ◌==◌, if◌then◌else◌,
}

-- `N::{PosInt, NegInt, Float}`; a float is its bits.
pub data Number : Type 0 where
  pos_int : ℕ → Number
  neg_int : ℕ → Number
  float : ℕ → Number

mutual
  pub data Value : Type 0 where
    null : Value
    boolean : Bool → Value
    number : Number → Value
    text : String → Value
    array : Items → Value
    object : Fields → Value

  pub data Items : Type 0 where
    nil : Items
    cons : Value → Items → Items

  pub data Fields : Type 0 where
    end : Fields
    field : String → Value → Fields → Fields

-- `Map::get`
unfoldable pub lookup : String → Fields → Option Value
lookup k end = none
lookup k (field j v m) = if j == k then some v else lookup k m

-- `Map::insert`
unfoldable pub insert : String → Value → Fields → Fields
insert k v end = field k v end
insert k v (field j w m) =
    let later = insert k v m in
    elim (compare k j) [
      | Ordering.lt ↦ field k v (field j w m)
      | Ordering.eq ↦ field k v m
      | Ordering.gt ↦ field j w later
    ]

-- `Map::remove`
unfoldable pub remove : String → Fields → Fields
remove k end = end
remove k (field j w m) = let later = remove k m in if j == k then later else field j w later

unfoldable pub elements : Items → List Value
elements nil = []
elements (cons v xs) = v ∷ elements xs

unfoldable pub from_elements : List Value → Items
from_elements [] = nil
from_elements (v ∷ vs) = cons v (from_elements vs)

-- `Value::get` by a key
unfoldable pub get : Value → String → Option Value
unfolding lookup
get (object m) k = lookup k m
get _ k = none

abbrev pub as_str : Value → Option String
as_str (text s) = some s
as_str _ = none

abbrev pub as_u64 : Value → Option ℕ
as_u64 (number (pos_int n)) = some n
as_u64 _ = none

unfoldable pub as_array : Value → Option (List Value)
unfolding elements
as_array (array xs) = some (elements xs)
as_array _ = none

abbrev pub is_array : Value → Bool
is_array (array _) = true
is_array _ = false

abbrev pub is_null : Value → Bool
is_null null = true
is_null _ = false

-- `value[key] = v` on an object.
unfoldable pub set_field : Value → String → Value → Value
unfolding insert
set_field (object m) k v = object (insert k v m)
set_field other k v = other

abbrev pub opt_u64 : Option ℕ → Value
opt_u64 none = null
opt_u64 (some n) = number (pos_int n)
