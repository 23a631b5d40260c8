-- ===== src/Sync/Root.antt =====
-- The Merkle root and the manifest of src/sync.rs.
use mathlib.Core.List.{Permᴰ}
use mcp_memory_rs.Common.{
  String, ◌≡◌, refl, ◌∙◌, ap, sym, List, [], ◌∷◌, map, is_nil, if◌then◌else◌,
}
use mcp_memory_rs.Common.Map.{values}
use mcp_memory_rs.Common.Order.{sort, sort_of_perm, map-perm, sort_by_key-perm}
use mcp_memory_rs.Db.{CategoryMeta}
use mcp_memory_rs.World.{Disk, World}
use mcp_memory_rs.World.Ends.{Ends, Ends-bind, Ends-pure, Ends-mono}
use mcp_memory_rs.World.Accesses.{Ends-query}
use mcp_memory_rs.Codec.{Codec}
use mcp_memory_rs.Store.Read.{list, history}
use mcp_memory_rs.Sync.{
  joined, get_category_version, compute_leaf, compute_merkle_root, manifest_entries, leaf_data,
  build_manifest,
}

is_nil_of_perm : {A : Type 0} {l m : List A} → Permᴰ l m → is_nil l ≡ is_nil m
is_nil_of_perm Permᴰ.nil = refl
is_nil_of_perm (Permᴰ.cons e p) = refl
is_nil_of_perm (Permᴰ.swap e q) = refl
is_nil_of_perm (Permᴰ.trans p q) = is_nil_of_perm p ∙ is_nil_of_perm q

module _ (c : Codec) where
  leaves : List (String × String) → List String
  leaves l = map (λ x. compute_leaf c x.0 x.1) l

  root_of_leaves :
      (l : List (String × String))
      → compute_merkle_root c l ≡ (if is_nil l then "empty" else c.hash (joined (sort (leaves l))))
  unfolding compute_merkle_root leaves
  root_of_leaves [] = refl
  root_of_leaves (e ∷ l) = refl

  -- Two lists of entries that differ in their order only have the same Merkle root.
  pub compute_merkle_root_of_perm :
      (l m : List (String × String)) → Permᴰ l m → compute_merkle_root c l ≡ compute_merkle_root c m
  compute_merkle_root_of_perm l m p =
      let q : sort (leaves l) ≡ sort (leaves m) =
        unfold leaves in sort_of_perm (map-perm (λ x. compute_leaf c x.0 x.1) p) in
      cc (root_of_leaves l, root_of_leaves m, is_nil_of_perm p, q)

  module _ (d : Disk) where
    Same : {A : Type 0} → A → Disk → Type 0
    Same a x = x ≡ d

    Ends-version :
        (name : String) (w : World)
        → w.disk ≡ d
        → Ends (λ _ x. x ≡ d) (λ _ x. x ≡ d) (get_category_version name w)
    unfolding get_category_version history
    Ends-version name w e =
        Ends-bind (history name 1) _ w
          (Ends-mono (λ _ x h. h.0 ∙ e) (λ _ x h. h ∙ e) (Ends-query _ w))
          (λ vs u h. Ends-pure _ u h)

    Ends-manifest_entries :
        (cats : List CategoryMeta) (w : World)
        → w.disk ≡ d
        → Ends
            (λ es x. (x ≡ d) × (map (λ e. (e.name, e.content_hash)) es ≡ leaf_data c cats))
            (λ _ x. x ≡ d)
            (manifest_entries c cats w)
    unfolding manifest_entries leaf_data
    Ends-manifest_entries [] w e = Ends-pure [] w (e, refl)
    Ends-manifest_entries (cat ∷ cats) w e =
        Ends-bind (get_category_version cat.name) _ w (Ends-version cat.name w e) (λ v u h.
          Ends-bind (manifest_entries c cats) _ u (Ends-manifest_entries cats u h)
            (λ es y k. Ends-pure _ y (k.0, ap (λ l. (cat.name, cat.content_hash) ∷ l) k.1)))

  -- A manifest lists the names and hashes of the rows in their order, its root is that of the rows
  -- in any order, and the store stays as it is.
  pub Ends-build_manifest :
      (device now : String) (rows : List (String × String)) (w : World)
      → Permᴰ rows (leaf_data c (values w.db.category))
      → Ends
          (λ m x.
            (x ≡ w.disk)
            × (map (λ e. (e.name, e.content_hash)) m.categories
                ≡ leaf_data c (values w.db.category))
            × (m.merkle_root ≡ compute_merkle_root c rows))
          (λ _ x. x ≡ w.disk)
          (build_manifest c device now w)
  unfolding build_manifest list
  Ends-build_manifest device now rows w p =
      Ends-bind list _ w (Ends-query (λ t. values t.category) w) (λ cats u h.
        Ends-bind (manifest_entries c cats) _ u (Ends-manifest_entries w.disk cats u h.0) (λ es y k.
          Ends-pure _ y (
            k.0,
            k.1 ∙ ap (leaf_data c) h.1,
            compute_merkle_root_of_perm _ _ (sort_by_key-perm (λ x. x.0) (leaf_data c cats))
                ∙ (ap (λ l. compute_merkle_root c (leaf_data c l)) h.1
                    ∙ sym (compute_merkle_root_of_perm _ _ p)),
          )))
