-- ===== src/Json/Selected.antt =====
-- Which fields `filter_fields` of src/server.rs leaves.
use mcp_memory_rs.Common.{
  String, ◌≡◌, refl, Bool, Option, none, some, List, [], ◌∷◌, ◌==◌, eq_iff, map, arith, any, inl,
  inr, Bool-cases, if◌then◌else◌, or_else,
}
use mcp_memory_rs.Common.Words.{trim, split_commas}
use mcp_memory_rs.Json.{Value, object, Fields, end, lookup}
use mcp_memory_rs.Json.Map.{lookup-insert}
use mcp_memory_rs.Json.Build.{insert_found, select_fields, filter_fields}

-- The key is one of the names of the list between the commas, without the white space around them.
abbrev pub asked_for : String → String → Bool
asked_for spec k = any (λ f. f == k) (map trim (split_commas spec))

lookup-insert_found :
    (k f : String) (o : Option Value) (m out : Fields)
    → o ≡ lookup f m
    → lookup k (insert_found f o out)
      ≡ (if f == k then or_else (lookup k m) (lookup k out) else lookup k out)
lookup-insert_found k f none m out e = ground (arith, eq_iff f k)
lookup-insert_found k f (some v) m out e = ground (arith, eq_iff f k, lookup-insert k f v out)

lookup-select_fields :
    (fs : List String) (m out : Fields) (k : String)
    → lookup k (select_fields fs m out)
      ≡ (if any (λ f. f == k) fs then or_else (lookup k m) (lookup k out) else lookup k out)
unfolding select_fields
lookup-select_fields [] m out k = refl
lookup-select_fields (f ∷ fs) m out k = ground (
  arith,
  lookup-select_fields fs m (insert_found f (lookup f m) out) k,
  lookup-insert_found k f (lookup f m) m out refl,
)

-- The fields that are asked for stay with their values, and no other field does; "*" asks for all.
pub filter_fields_lem :
    (m : Fields) (spec k : String)
    → (out : Fields) × (filter_fields (object m) spec ≡ object out)
      × (lookup k out
          ≡ (if spec == "*" then lookup k m else if asked_for spec k then lookup k m else none))
unfolding filter_fields lookup
filter_fields_lem m spec k = elim (Bool-cases (spec == "*")) [
  | inl q ↦ (m, rw q refl, rw q refl)
  | inr q ↦ (
    select_fields (map trim (split_commas spec)) m end,
    rw q refl,
    ground (arith, lookup-select_fields (map trim (split_commas spec)) m end k),
  )
]
