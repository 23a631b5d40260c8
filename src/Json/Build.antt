-- ===== src/Json/Build.antt =====
-- The `json!` macro on objects, and the fields that a reader asks for.
use mcp_memory_rs.Common.{ℕ, String, Option, none, some, List, [], ◌∷◌, ◌==◌, map, if◌then◌else◌}
use mcp_memory_rs.Common.Words.{trim, split_commas}
use mcp_memory_rs.Json.{Value, null, text, number, pos_int, object, Fields, end, lookup, insert}

abbrev pub with_fields : List (String × Value) → Fields → Fields
with_fields [] m = m
with_fields ((k, v) ∷ rest) m = with_fields rest (insert k v m)

abbrev pub json_object : List (String × Value) → Value
json_object fields = object (with_fields fields end)

abbrev pub opt_text : Option String → Value
opt_text none = null
opt_text (some s) = text s

abbrev pub nat_value : ℕ → Value
nat_value n = number (pos_int n)

abbrev pub insert_found : String → Option Value → Fields → Fields
insert_found k none out = out
insert_found k (some v) out = insert k v out

-- The loop of `filter_fields`.
unfoldable pub select_fields : List String → Fields → Fields → Fields
select_fields [] m out = out
select_fields (f ∷ fs) m out = select_fields fs m (insert_found f (lookup f m) out)

unfoldable pub filter_fields : Value → String → Value
filter_fields (object m) spec =
    if spec == "*" then object m else object (select_fields (map trim (split_commas spec)) m end)
filter_fields v spec = v

abbrev pub filtered : Option String → Value → Value
filtered none v = v
filtered (some spec) v = filter_fields v spec
