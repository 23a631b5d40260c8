-- ===== src/Json/Map.antt =====
-- The laws of objects as maps.
use mcp_memory_rs.Common.{String, ◌≡◌, refl, none, some, arith, ◌==◌, eq_iff, if◌then◌else◌}
use mcp_memory_rs.Json.{Value, object, Fields, end, field, lookup, insert, remove, get, set_field}

pub lookup-insert :
    (j k : String) (v : Value) (m : Fields)
    → lookup j (insert k v m) ≡ (if k == j then some v else lookup j m)
unfolding lookup insert
lookup-insert j k v end = refl
lookup-insert j k v (field i w m) =
    ground (arith, eq_iff k i, eq_iff i j, eq_iff k j, lookup-insert j k v m)

pub lookup-remove :
    (j k : String) (m : Fields) → lookup j (remove k m) ≡ (if k == j then none else lookup j m)
unfolding lookup remove
lookup-remove j k end = ground arith
lookup-remove j k (field i w m) =
    ground (arith, eq_iff i k, eq_iff i j, eq_iff k j, lookup-remove j k m)

pub get-set_field :
    (j k : String) (v : Value) (m : Fields)
    → get (set_field (object m) k v) j ≡ (if k == j then some v else get (object m) j)
unfolding get set_field
get-set_field j k v m = lookup-insert j k v m
