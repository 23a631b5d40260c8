-- ===== src/Json/Arrays.antt =====
-- Arrays as lists.
use mcp_memory_rs.Common.{◌≡◌, refl, List, [], ◌∷◌, ap, some}
use mcp_memory_rs.Json.{Value, array, elements, from_elements, as_array}

pub elements-from_elements : (vs : List Value) → elements (from_elements vs) ≡ vs
unfolding elements from_elements
elements-from_elements [] = refl
elements-from_elements (v ∷ vs) = ap (λ xs. v ∷ xs) (elements-from_elements vs)

pub as_array-from_elements : (vs : List Value) → as_array (array (from_elements vs)) ≡ some vs
unfolding as_array
as_array-from_elements vs = ap some (elements-from_elements vs)
