-- ===== src/Store/Patch.antt =====
-- What a merge patch of `write_with` does to an object.
use mcp_memory_rs.Common.{
  String, ◌≡◌, refl, ◌∙◌, ◌⊎◌, inl, inr, Option, none, some, arith, eq_iff, ◌==◌, if◌then◌else◌,
  Bool-cases,
}
use mcp_memory_rs.Json.{Value, Fields, end, field, lookup, is_null}
use mcp_memory_rs.Json.Map.{lookup-insert, lookup-remove}
use mcp_memory_rs.Store.Write.{patch_key, apply_patch}

-- No key stands twice, as in every `Map`.
abbrev pub Distinct : Fields → Type 0
Distinct end = Unit
Distinct (field k v m) = (lookup k m ≡ none) × Distinct m

-- What a key has after a patch that has `change` for it.
abbrev pub patched : Option Value → Option Value → Option Value
patched none before = before
patched (some v) before = if is_null v then none else some v

lookup-patch_key :
    (j k : String) (v : Value) (m : Fields)
    → lookup j (patch_key k v m) ≡ (if k == j then patched (some v) (lookup j m) else lookup j m)
unfolding patch_key
lookup-patch_key j k v m = elim (Bool-cases (is_null v)) [
  | inl q ↦ rw q (ground (arith, lookup-remove j k m))
  | inr q ↦ rw q (ground (arith, lookup-insert j k v m))
]

-- After a patch, a key of the patch has the value that the patch gives it, or is gone if that is
-- `null`; every other key is as it was.
pub lookup-apply_patch :
    (p m : Fields) (j : String)
    → Distinct p
    → lookup j (apply_patch p m) ≡ patched (lookup j p) (lookup j m)
unfolding apply_patch lookup
lookup-apply_patch end m j d = refl
lookup-apply_patch (field k v p) m j (fresh, d) =
    lookup-apply_patch p (patch_key k v m) j d ∙ (elim (Bool-cases (k == j)) [
      | inl q ↦ ground (arith, lookup-patch_key j k v m, eq_iff k j)
      | inr q ↦ ground (arith, lookup-patch_key j k v m)
    ])

-- Two patches with no key in common give the same object in either order.
pub apply_patch_comm :
    (p q m : Fields)
    → Distinct p
    → Distinct q
    → ((j : String) → (lookup j p ≡ none) ⊎ (lookup j q ≡ none))
    → (j : String)
    → lookup j (apply_patch p (apply_patch q m)) ≡ lookup j (apply_patch q (apply_patch p m))
apply_patch_comm p q m dp dq apart j = elim (apart j) [
  | inl e ↦ ground (
    arith,
    lookup-apply_patch p (apply_patch q m) j dp,
    lookup-apply_patch q m j dq,
    lookup-apply_patch q (apply_patch p m) j dq,
    lookup-apply_patch p m j dp,
  )
  | inr e ↦ ground (
    arith,
    lookup-apply_patch p (apply_patch q m) j dp,
    lookup-apply_patch q m j dq,
    lookup-apply_patch q (apply_patch p m) j dq,
    lookup-apply_patch p m j dp,
  )
]
