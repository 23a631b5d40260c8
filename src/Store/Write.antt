-- ===== src/Store/Write.antt =====
-- The local mutations of src/store/mod.rs: `write_with`, `append` and `delete`.
use mcp_memory_rs.Common.{
  String, ◌<>◌, Option, none, some, ◌==◌, or_else, unwrap_or, and_then, if◌then◌else◌,
}
use mcp_memory_rs.Common.Instant.{Chrono}
use mcp_memory_rs.Json.{Value, object, Fields, end, field, insert, remove, is_null}
use mcp_memory_rs.Log.{
  Retention, default_retention, Appended, appended, refused, panicked, not_a_log, malformed_log,
  is_log, stored_retention, append_entry,
}
use mcp_memory_rs.Error.{kind_mismatch, concurrency_conflict}
use mcp_memory_rs.Db.{
  CategoryMeta, hash_of_row, delete_index, delete_versions, delete_category, delete_state,
}
use mcp_memory_rs.World.{Exec, pure, throw, panic, ◌>>=◌, ◌>>◌, execute, commit, transaction}
use mcp_memory_rs.AtomicJson.{StagedDelete, validate_name, promote, stage_delete, promote_delete}
use mcp_memory_rs.Codec.{Codec, Times}
use mcp_memory_rs.Store.Read.{get_meta, settle_locked, current_value}
use mcp_memory_rs.Store.Rows.{stage_local_write, mark_dirty}

-- How `write_with` derives the new content.
pub data WriteMode : Type 0 where
  replace : Value → WriteMode
  merge : Fields → WriteMode

-- One key of a patch: `null` removes it.
unfoldable pub patch_key : String → Value → Fields → Fields
patch_key k v m = if is_null v then remove k m else insert k v m

unfoldable pub apply_patch : Fields → Fields → Fields
apply_patch end m = m
apply_patch (field k v patch) m = apply_patch patch (patch_key k v m)

abbrev fields_of : Option Value → Fields
fields_of (some (object m)) = m
fields_of _ = end

unfoldable pub new_value : WriteMode → Option Value → Value
new_value (replace v) current = v
new_value (merge patch) current = object (apply_patch patch (fields_of current))

-- A log is never overwritten by `write`.
unfoldable pub guard_kind : Option Value → String → Exec (Unit {0})
guard_kind none name = pure tt
guard_kind (some v) name = if is_log v then throw (kind_mismatch name) else pure tt

-- The optional compare-and-swap: it is checked only if the category has a row.
unfoldable pub guard_hash : Option String → Option CategoryMeta → Exec (Unit {0})
guard_hash (some expected) (some meta) =
    if meta.content_hash == expected
    then pure tt
    else throw (concurrency_conflict expected meta.content_hash)
guard_hash _ _ = pure tt

-- The retention that applies: given, stored on the log, or the default.
unfoldable pub effective_retention : Option Retention → Option Value → Retention
effective_retention retention existing =
    unwrap_or (or_else retention (and_then existing stored_retention)) default_retention

unfoldable pub appended_value : Appended → String → Exec Value
appended_value (appended v) name = pure v
appended_value (refused not_a_log) name = throw (kind_mismatch name)
appended_value (refused malformed_log) name = throw (kind_mismatch name)
appended_value panicked name = panic

abbrev pub remote_hash_key : String → String
remote_hash_key name = "remote_hash:" <> name

module _ (c : Codec) where
  -- `write_with` from the reads on, inside the transaction.
  unfoldable pub write_current :
      String
      → WriteMode
      → Option String
      → String
      → Option String
      → Times
      → Option CategoryMeta
      → Option Value
      → Exec (Option String × CategoryMeta)
  write_current name mode reason actor expected_hash t previous current = do
    guard_kind current name
    guard_hash expected_hash previous
    let value = new_value mode current
    r ← stage_local_write c name value (c.to_string_pretty value) reason actor t
    commit
    promote r.1
    pure (hash_of_row previous, r.0)

  unfoldable pub write_locked :
      String
      → WriteMode
      → Option String
      → String
      → Option String
      → Times
      → Exec (Option String × CategoryMeta)
  write_locked name mode reason actor expected_hash t = do
    settle_locked c name t
    previous ← get_meta name
    current ← current_value c name
    write_current name mode reason actor expected_hash t previous current

  unfoldable pub write_with :
      String
      → WriteMode
      → Option String
      → String
      → Option String
      → Times
      → Exec (Option String × CategoryMeta)
  write_with name mode reason actor expected_hash t = do
    validate_name name
    transaction (write_locked name mode reason actor expected_hash t)

  unfoldable pub write :
      String → Value → Option String → String → Option String → Times → Exec CategoryMeta
  write name value reason actor expected_hash t = do
    r ← write_with name (replace value) reason actor expected_hash t
    pure r.1

  unfoldable pub write_merge :
      String
      → Fields
      → Option String
      → String
      → Option String
      → Times
      → Exec (Option String × CategoryMeta)
  write_merge name patch reason actor expected_hash t =
      write_with name (merge patch) reason actor expected_hash t

  -- `append` from the reads on.
  unfoldable pub append_current :
      Chrono → String → Value → Option Retention → String → Times → Option Value → Exec CategoryMeta
  append_current chrono name payload retention actor t existing = do
    new ←
        appended_value
          (append_entry chrono existing payload (effective_retention retention existing) t.now) name
    r ← stage_local_write c name new (c.to_string_pretty new) (some "append") actor t
    commit
    promote r.1
    pure r.0

  unfoldable pub append_locked :
      Chrono → String → Value → Option Retention → String → Times → Exec CategoryMeta
  append_locked chrono name payload retention actor t = do
    settle_locked c name t
    existing ← current_value c name
    append_current chrono name payload retention actor t existing

  unfoldable pub append :
      Chrono → String → Value → Option Retention → String → Times → Exec CategoryMeta
  append chrono name payload retention actor t = do
    validate_name name
    transaction (append_locked chrono name payload retention actor t)

  unfoldable pub promote_parked : Option StagedDelete → Times → Exec (Unit {0})
  promote_parked none t = pure tt
  promote_parked (some s) t = promote_delete s t.deleted_at

  -- The statements of `delete`, from the parking of the file to the commit.
  unfoldable pub delete_rows : String → Times → Exec (Unit {0})
  delete_rows name t = do
    execute (delete_index name)
    execute (delete_versions name)
    execute (delete_category name)
    execute (delete_state (remote_hash_key name))
    mark_dirty c name "delete" none t

  unfoldable pub delete_locked : String → Times → Exec (Unit {0})
  delete_locked name t = do
    settle_locked c name t
    parked ← stage_delete name t.suffix
    delete_rows name t
    commit
    promote_parked parked t

  unfoldable pub delete : String → Times → Exec (Unit {0})
  delete name t = do validate_name name; transaction (delete_locked name t)
