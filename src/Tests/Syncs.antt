-- ===== src/Tests/Syncs.antt =====
-- Manifests, differences and an import on one store.
use mathlib.Core.List.{Permᴰ}
use mcp_memory_rs.Common.{ℕ, String, ◌≡◌, refl, true, none, [], ◌∷◌, All, map}
use mcp_memory_rs.Common.Map.{find, values}
use mcp_memory_rs.Json.{text}
use mcp_memory_rs.Codec.{Times}
use mcp_memory_rs.World.{done, fails}
use mcp_memory_rs.World.Ends.{Ends}
use mcp_memory_rs.Sync.{
  CategorySyncEntry, SyncManifest, by_name, compute_merkle_root, compute_diff, build_manifest,
  leaf_data,
}
use mcp_memory_rs.Sync.Root.{Ends-build_manifest}
use mcp_memory_rs.Sync.Diff.{Sorted, compute_diff_lem}
use mcp_memory_rs.Sync.Envelope.{SyncTransferEntry, nothing_synced, apply_entries}
use mcp_memory_rs.Sync.Envelope.Apply.{InStore, Ends-apply_entries}
use mcp_memory_rs.Tests.Fixtures.{codec, times, base_row, disk, world}

one_leaf : Permᴰ (("base", "A") ∷ []) (leaf_data codec (values disk.db.category))
unfolding leaf_data values
one_leaf = Permᴰ.cons refl Permᴰ.nil

Ends-build_manifest_example :
    Ends
      (λ m x.
        (x ≡ disk)
        × (map (λ e. (e.name, e.content_hash)) m.categories
            ≡ leaf_data codec (values disk.db.category))
        × (m.merkle_root ≡ compute_merkle_root codec (("base", "A") ∷ [])))
      (λ _ x. x ≡ disk)
      (build_manifest codec "tower" "now" (world []))
Ends-build_manifest_example =
    Ends-build_manifest codec "tower" "now" (("base", "A") ∷ []) (world []) one_leaf

abbrev sync_entry : String → CategorySyncEntry
sync_entry hash = record {
  name = "base";
  content_hash = hash;
  updated_at = "2026-01-01";
  updated_by = "laptop";
  merkle_leaf = "";
  version = 1;
}

abbrev manifest : String → SyncManifest
manifest hash = record {
  device_id = "x";
  timestamp = "now";
  merkle_root = "";
  categories = sync_entry hash ∷ [];
}

compute_diff_lem_example :
    Sorted true
      (find "base" (by_name (manifest "A").categories))
      (find "base" (by_name (manifest "B").categories))
      (compute_diff (manifest "A") (manifest "B"))
      "base"
compute_diff_lem_example = compute_diff_lem (manifest "A") (manifest "B") "base"

abbrev transfer : SyncTransferEntry
transfer = record {
  name = "base";
  value = text "Z";
  content_hash = "Z";
  updated_at = "2027-01-01";
  updated_by = "laptop";
  reason = none;
}

abbrev clock : ℕ → Times
clock _ = times

transfer_known : All (InStore codec disk) (transfer ∷ [])
unfolding find
transfer_known = ((base_row, refl), tt)

Ends-apply_entries_example :
    Ends
      (λ _ x. x ≡ disk)
      (λ _ x. x ≡ disk)
      (apply_entries codec
        (transfer ∷ [])
        "laptop"
        "local_wins"
        clock
        0
        nothing_synced
        (world (done ∷ fails none ∷ [])))
Ends-apply_entries_example =
    Ends-apply_entries codec disk (transfer ∷ []) "laptop" clock 0 nothing_synced
      (world (done ∷ fails none ∷ [])) refl transfer_known
