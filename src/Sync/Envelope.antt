-- ===== src/Sync/Envelope.antt =====
-- The transfer envelope of src/sync.rs: export, and the import with its conflicts.
-- `clock i` are the moments that the i-th call of the store takes from the clock.
pub mod Apply
use mcp_memory_rs.Common.{
  ℕ, ◌+◌, String, ◌<>◌, Bool, true, false, not, Option, none, some, List, [], ◌∷◌, ◌++◌, ◌==◌, map,
  keep, if◌then◌else◌,
}
use mcp_memory_rs.Common.Map.{values}
use mcp_memory_rs.Common.Order.{sort_by_key}
use mcp_memory_rs.Json.{Value}
use mcp_memory_rs.Error.{MemoryError}
use mcp_memory_rs.Db.{CategoryMeta, DirtyEntry}
use mcp_memory_rs.World.{
  World, Exec, pure, ◌>>=◌, ◌>>◌, continue, Attempt, got, threw, attempt, query,
}
use mcp_memory_rs.Codec.{Codec, Times}
use mcp_memory_rs.Store.Read.{get_meta, read_with_meta}
use mcp_memory_rs.Store.Write.{delete}
use mcp_memory_rs.Store.Remote.{holds_remote_version, upsert_synced_category, clear_dirty}
use mcp_memory_rs.Sync.{
  ConflictResolution, local_wins, remote_wins, merged, skipped, resolve_conflict,
}

-- `value` is the field `data`.
pub record SyncTransferEntry : Type 0 where
  pub name : String
  pub value : Value
  pub content_hash : String
  pub updated_at : String
  pub updated_by : String
  pub reason : Option String

pub record SyncTransferEnvelope : Type 0 where
  pub source_device : String
  pub exported_at : String
  pub categories : List SyncTransferEntry
  pub deleted : List String

pub record ConflictEntry : Type 0 where
  pub category : String
  pub local_hash : String
  pub remote_hash : String
  pub resolution : ConflictResolution

-- An error is kept with the text before it.
pub record SyncResult : Type 0 where
  pub pushed : List String
  pub pulled : List String
  pub conflicts : List ConflictEntry
  pub errors : List (String × MemoryError)

abbrev pub nothing_synced : SyncResult
nothing_synced = record { pushed = []; pulled = []; conflicts = []; errors = [] }

abbrev pub with_pulled : String → SyncResult → SyncResult
with_pulled name r = record r { pulled = r.pulled ++ name ∷ [] }

abbrev pub with_conflict : String → String → String → ConflictResolution → SyncResult → SyncResult
with_conflict name local_hash remote_hash resolution r = record r {
  conflicts =
      r.conflicts
      ++ record {
        category = name;
        local_hash = local_hash;
        remote_hash = remote_hash;
        resolution = resolution;
      }
        ∷ [];
}

abbrev pub with_error : String → MemoryError → SyncResult → SyncResult
with_error label e r = record r { errors = r.errors ++ (label, e) ∷ [] }

-- `dirty_entries`, ordered by date and name.
unfoldable pub dirty_entries : Exec (List DirtyEntry)
dirty_entries = query (λ t. sort_by_key (λ d. d.marked_at) (values t.sync_dirty))

module _ (c : Codec) where
  -- A category that cannot be read is left out.
  abbrev exported :
      String → Attempt (Value × CategoryMeta) → List SyncTransferEntry → List SyncTransferEntry
  exported name (threw _) later = later
  exported name (got (value, meta)) later =
      record {
        name = name;
        value = value;
        content_hash = meta.content_hash;
        updated_at = meta.updated_at;
        updated_by = meta.updated_by;
        reason = none;
      }
      ∷ later

  unfoldable pub export_entries : List String → Exec (List SyncTransferEntry)
  export_entries [] = pure []
  export_entries (name ∷ names) = do
    r ← attempt (read_with_meta c name)
    later ← export_entries names
    pure (exported name r later)

  unfoldable pub export_sync_envelope : List String → String → String → Exec SyncTransferEnvelope
  export_sync_envelope categories device_id now = do
    entries ← export_entries categories
    pure (record {
      source_device = device_id;
      exported_at = now;
      categories = entries;
      deleted = [];
    })

  unfoldable pub export_dirty_envelope : String → String → Exec SyncTransferEnvelope
  export_dirty_envelope device_id now = do
    dirty ← dirty_entries
    envelope ←
        export_sync_envelope
          (map (λ d. d.category_name) (keep (λ d. not (d.operation == "delete")) dirty)) device_id
          now
    pure (record envelope {
      deleted = map (λ d. d.category_name) (keep (λ d. d.operation == "delete") dirty);
    })

  -- After the upsert of one entry.
  unfoldable pub after_upsert :
      Attempt CategoryMeta
      → SyncTransferEntry
      → (SyncResult → SyncResult)
      → SyncResult
      → Exec SyncResult
  after_upsert (threw e) entry noted r = pure (with_error entry.name e r)
  after_upsert (got _) entry noted r = do
    clear_dirty c (entry.name ∷ [])
    pure (noted (with_pulled entry.name r))

  unfoldable pub upsert_entry :
      String → SyncTransferEntry → (SyncResult → SyncResult) → Times → SyncResult → Exec SyncResult
  upsert_entry source entry noted t r = do
    u ← attempt (
        upsert_synced_category c entry.name entry.value entry.content_hash entry.updated_at
          entry.updated_by (some ("Sync pull from " <> source)) t)
    after_upsert u entry noted r

  unfoldable pub apply_resolved :
      ConflictResolution
      → String
      → SyncTransferEntry
      → CategoryMeta
      → Times
      → SyncResult
      → Exec SyncResult
  apply_resolved remote_wins source entry here t r =
      upsert_entry source entry
        (with_conflict entry.name here.content_hash entry.content_hash remote_wins) t r
  apply_resolved local_wins source entry here t r =
      pure (with_conflict entry.name here.content_hash entry.content_hash local_wins r)
  apply_resolved merged source entry here t r = pure r
  apply_resolved skipped source entry here t r = pure r

  -- `unwrap_or(false)`: an error of the query counts as another version.
  unfoldable pub apply_known :
      Attempt Bool
      → String
      → String
      → SyncTransferEntry
      → CategoryMeta
      → Times
      → SyncResult
      → Exec SyncResult
  apply_known (got true) source strategy entry here t r = pure r
  apply_known (got false) source strategy entry here t r =
      apply_resolved (resolve_conflict here.updated_at entry.updated_at strategy) source entry here
        t r
  apply_known (threw _) source strategy entry here t r =
      apply_resolved (resolve_conflict here.updated_at entry.updated_at strategy) source entry here
        t r

  unfoldable pub apply_found :
      Attempt (Option CategoryMeta)
      → String
      → String
      → SyncTransferEntry
      → Times
      → SyncResult
      → Exec SyncResult
  apply_found (threw e) source strategy entry t r = pure (with_error entry.name e r)
  apply_found (got none) source strategy entry t r = upsert_entry source entry (λ x. x) t r
  apply_found (got (some here)) source strategy entry t r = do
    already ← attempt (holds_remote_version c entry.name here entry.content_hash entry.updated_by)
    apply_known already source strategy entry here t r

  -- The loop over the categories.
  unfoldable pub apply_entries :
      List SyncTransferEntry → String → String → (ℕ → Times) → ℕ → SyncResult → Exec SyncResult
  apply_entries [] source strategy clock i r = pure r
  apply_entries (entry ∷ entries) source strategy clock i r = do
    meta ← attempt (get_meta entry.name)
    next ← apply_found meta source strategy entry (clock i) r
    apply_entries entries source strategy clock (i + 1) next

  -- `delete` of the store, and what is noted of it.
  unfoldable pub apply_deleted : Attempt (Unit {0}) → String → SyncResult → Exec SyncResult
  apply_deleted (threw e) name r = pure (with_error ("delete " <> name) e r)
  apply_deleted (got _) name r = do
    clear_dirty c (name ∷ [])
    pure (with_pulled ("(deleted) " <> name) r)

  unfoldable pub apply_deletions : List String → (ℕ → Times) → ℕ → SyncResult → Exec SyncResult
  apply_deletions [] clock i r = pure r
  apply_deletions (name ∷ names) clock i r = do
    d ← attempt (delete c name (clock i))
    next ← apply_deleted d name r
    apply_deletions names clock (i + 1) next

  unfoldable pub apply_sync_envelope :
      SyncTransferEnvelope → String → (ℕ → Times) → (ℕ → Times) → Exec SyncResult
  apply_sync_envelope envelope strategy clock delete_clock = do
    r ← apply_entries envelope.categories envelope.source_device strategy clock 0 nothing_synced
    apply_deletions envelope.deleted delete_clock 0 r
