-- ===== src/Sync.antt =====
-- src/sync.rs: the manifest and its Merkle root, the comparison of two manifests, the resolution of
-- conflicts, and the transfer envelope.
pub mod Root
pub mod Diff
pub mod Envelope
use mcp_memory_rs.Common.{
  ℕ, String, ◌<>◌, Bool, true, false, ◌||◌, Option, none, some, List, [], ◌∷◌, ◌==◌, map,
  if◌then◌else◌,
}
use mcp_memory_rs.Common.Map.{Map, find, put, keys}
use mcp_memory_rs.Common.TextOrder.{text_leb}
use mcp_memory_rs.Common.Order.{sort, sort_by_key}
use mcp_memory_rs.Db.{CategoryMeta, VersionEntry}
use mcp_memory_rs.World.{World, Exec, pure, ◌>>=◌, continue}
use mcp_memory_rs.Codec.{Codec}
use mcp_memory_rs.Store.Read.{list, history}

pub record CategorySyncEntry : Type 0 where
  pub name : String
  pub content_hash : String
  pub updated_at : String
  pub updated_by : String
  pub merkle_leaf : String
  pub version : ℕ

pub record SyncManifest : Type 0 where
  pub device_id : String
  pub timestamp : String
  pub merkle_root : String
  pub categories : List CategorySyncEntry

-- The text of several `update` calls of one hasher.
abbrev pub joined : List String → String
joined [] = ""
joined (s ∷ rest) = s <> joined rest

abbrev latest_id : List VersionEntry → ℕ
latest_id [] = 0
latest_id (v ∷ _) = v.id

unfoldable pub get_category_version : String → Exec ℕ
get_category_version name = do versions ← history name 1; pure (latest_id versions)

module _ (c : Codec) where
  unfoldable pub compute_leaf : String → String → String
  compute_leaf name hash = c.hash (name <> (":" <> hash))

  unfoldable pub compute_merkle_root : List (String × String) → String
  unfolding compute_leaf
  compute_merkle_root [] = "empty"
  compute_merkle_root (e ∷ entries) =
      c.hash (joined (sort (map (λ x. compute_leaf x.0 x.1) (e ∷ entries))))

  -- The loop of `build_manifest`.
  unfoldable pub manifest_entries : List CategoryMeta → Exec (List CategorySyncEntry)
  manifest_entries [] = pure []
  manifest_entries (cat ∷ cats) = do
    version ← get_category_version cat.name
    later ← manifest_entries cats
    pure (
        record {
          name = cat.name;
          content_hash = cat.content_hash;
          updated_at = cat.updated_at;
          updated_by = cat.updated_by;
          merkle_leaf = compute_leaf cat.name cat.content_hash;
          version = version;
        }
        ∷ later)

  unfoldable pub leaf_data : List CategoryMeta → List (String × String)
  leaf_data cats = map (λ cat. (cat.name, cat.content_hash)) cats

  unfoldable pub build_manifest : String → String → Exec SyncManifest
  build_manifest device_id now = do
    categories ← list
    entries ← manifest_entries categories
    pure (record {
      device_id = device_id;
      timestamp = now;
      merkle_root = compute_merkle_root (sort_by_key (λ x. x.0) (leaf_data categories));
      categories = entries;
    })

pub record SyncDiff : Type 0 where
  pub to_pull : List CategorySyncEntry
  pub to_push : List String
  pub conflicts : List (String × String × String)
  pub unchanged : List String

abbrev no_diff : SyncDiff
no_diff = record { to_pull = []; to_push = []; conflicts = []; unchanged = [] }

-- `collect` into a map: a later entry of the same name takes the place of an earlier one.
abbrev collected : Map CategorySyncEntry → List CategorySyncEntry → Map CategorySyncEntry
collected m [] = m
collected m (e ∷ es) = collected (put e.name e m) es

unfoldable pub by_name : List CategorySyncEntry → Map CategorySyncEntry
by_name es = collected [] es

-- The loop body of `compute_diff`.
unfoldable pub diff_name :
    String → Option CategorySyncEntry → Option CategorySyncEntry → SyncDiff → SyncDiff
diff_name name none (some remote) d = record d { to_pull = remote ∷ d.to_pull }
diff_name name (some _) none d = record d { to_push = name ∷ d.to_push }
diff_name name none none d = d
diff_name name (some here) (some there) d =
    if here.content_hash == there.content_hash
    then record d { unchanged = name ∷ d.unchanged }
    else record d { conflicts = (name, here.content_hash, there.content_hash) ∷ d.conflicts }

unfoldable pub diff_names : List String → Map CategorySyncEntry → Map CategorySyncEntry → SyncDiff
unfolding diff_name
diff_names [] here there = no_diff
diff_names (name ∷ names) here there =
    diff_name name (find name here) (find name there) (diff_names names here there)

-- The set of all names. A `HashSet` has no order of its own; this is the order of the names.
abbrev with_names : List String → Map (Unit {0}) → Map (Unit {0})
with_names [] s = s
with_names (n ∷ ns) s = with_names ns (put n tt s)

unfoldable pub all_names : Map CategorySyncEntry → Map CategorySyncEntry → List String
all_names here there = keys (with_names (keys there) (with_names (keys here) []))

unfoldable pub compute_diff : SyncManifest → SyncManifest → SyncDiff
unfolding diff_names by_name all_names
compute_diff local remote =
    let here = by_name local.categories in
    let there = by_name remote.categories in diff_names (all_names here there) here there

pub data ConflictResolution : Type 0 where
  local_wins remote_wins merged skipped : ConflictResolution

abbrev last_write : String → String → ConflictResolution
last_write local_at remote_at = if text_leb local_at remote_at then remote_wins else local_wins

-- The part of `resolve_conflict` that it reads: the two dates and the strategy.
unfoldable pub resolve_conflict : String → String → String → ConflictResolution
resolve_conflict local_at remote_at strategy =
    if strategy == "last_write_wins"
    then last_write local_at remote_at
    else if strategy == "local_wins"
    then local_wins
    else if strategy == "remote_wins"
    then remote_wins
    else last_write local_at remote_at
