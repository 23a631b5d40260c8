-- ===== src/Snapshot/Staged.antt =====
-- What the staged copy of `restore` in src/store/snapshot.rs is.
use mcp_memory_rs.Common.{
  String, ◌≡◌, refl, ◌∙◌, ap, sym, inl, inr, Bool-cases, Option, Option-cases, none, some, [], ◌∷◌,
}
use mathlib.Core.Option.{some-injective}
use mcp_memory_rs.Common.Map.{Map}
use mcp_memory_rs.Snapshot.Verify.{Manifest, Node, regular, not_regular, Dir}
use mcp_memory_rs.Snapshot.Restore.{
  copied_onto, copy_nodes, copy_categories, copy_backups, staged_dir, staged_copy,
}

-- A copy of a directory has the same files.
copied_onto_lem :
    (o : Option (Map Node)) (name : String) (node : Node) (copy : Map Node)
    → copied_onto o name node ≡ some copy
    → (rest : Map Node) × (o ≡ some rest) × (copy ≡ (name, node) ∷ rest)
copied_onto_lem none name node copy e = cc
copied_onto_lem (some rest) name (regular content) copy e = (rest, refl, sym (some-injective _ _ e))
copied_onto_lem (some rest) name not_regular copy e = cc

copy_nodes_lem : (files copy : Map Node) → copy_nodes files ≡ some copy → copy ≡ files
unfolding copy_nodes
copy_nodes_lem [] copy e = sym (some-injective _ _ e)
copy_nodes_lem ((name, node) ∷ files) copy e =
    let (rest, q, p) = copied_onto_lem (copy_nodes files) name node copy e in
    p ∙ ap (λ l. (name, node) ∷ l) (copy_nodes_lem files rest q)

pub copy_categories_lem :
    (o : Option (Map Node)) (copy : Map Node) → copy_categories o ≡ some copy → o ≡ some copy
unfolding copy_categories
copy_categories_lem none copy e = cc
copy_categories_lem (some files) copy e = ap (λ l. some l) (sym (copy_nodes_lem files copy e))

-- What a staged copy is.
pub record IsCopy (m : Manifest) (src staged : Dir) : Type 0 where
  pub same_manifest : staged.manifest ≡ src.manifest
  pub same_database : staged.database ≡ src.database
  pub same_categories : staged.categories ≡ src.categories

pub IsCopy-staged_copy :
    (m : Manifest) (src staged : Dir) → staged_copy m src ≡ some staged → IsCopy m src staged
unfolding staged_copy
IsCopy-staged_copy m src staged e = elim (Option-cases (copy_categories src.categories)) [
  | inl q ↦ cc (rw (q, staged_copy) at e)
  | inr (files, q) ↦ elim (Bool-cases (copy_backups m src.backups).0) [
    | inl b ↦
        let same : staged_dir src (some files) (copy_backups m src.backups).1 ≡ staged =
          some-injective _ _ (rw b at rw (q, staged_copy) at e) in
        record {
          same_manifest = ap (λ (d : Dir). d.manifest) (sym same);
          same_database = ap (λ (d : Dir). d.database) (sym same);
          same_categories =
              ap (λ (d : Dir). d.categories) (sym same) ∙ sym (copy_categories_lem _ files q);
        }
    | inr b ↦ cc (rw b at rw (q, staged_copy) at e)
  ]
]
