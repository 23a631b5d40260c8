-- ===== src/Recovery/Plan.antt =====
-- `plan` of src/store/recovery.rs: a read-only description of the categories whose row and file diverge.
use Prim.Native.String.{len}
use mcp_memory_rs.Common.{
  ℕ, String, ◌<>◌, Bool, ◌&&◌, Option, none, some, List, [], ◌∷◌, ◌==◌, is_nil, is_some,
  if◌then◌else◌, or_else,
}
use mcp_memory_rs.Common.Map.{find, keys}
use mcp_memory_rs.Common.Text.{starts_with, strip_suffix}
use mcp_memory_rs.Json.{Value}
use mcp_memory_rs.Log.{is_log}
use mcp_memory_rs.Error.{io, missing, other_io, sqlite, inconsistent}
use mcp_memory_rs.Db.{CategoryMeta, hash_of_row}
use mcp_memory_rs.World.{
  Exec, pure, throw, ◌>>=◌, ◌>>◌, Attempt, got, threw, attempt, access, reading, read_to_string,
}
use mcp_memory_rs.AtomicJson.{json_path}
use mcp_memory_rs.Codec.{Codec}
use mcp_memory_rs.Store.Report.{StoreReport, Probe, select, verify_store}
use mcp_memory_rs.Recovery.Delta.{Delta, semantic_delta}

-- One divergent category.
pub record PlanEntry : Type 0 where
  pub name : String
  pub db_hash : Option String
  pub db_updated_at : Option String
  pub db_updated_by : Option String
  pub file_hash : String
  pub file_size : ℕ
  pub kind : String
  pub db_version_backup : Option String
  pub delta : Option Delta

pub record Plan : Type 0 where
  pub generated_at : String
  pub base_dir : String
  pub journal_mode : String
  pub entries : List PlanEntry

abbrev pub kind_of : Option Value → String
kind_of none = "invalid"
kind_of (some v) = if is_log v then "log" else "memory"

abbrev pub opt_delta : Option Value → Option Value → Option Delta
opt_delta (some f) (some d) = some (semantic_delta d f)
opt_delta _ _ = none

-- `fs::read_to_string` of a backup.
unfoldable pub backup_found : Option String → Exec String
backup_found none = throw (io missing)
backup_found (some c) = reading (io other_io) (λ _. c)

unfoldable pub read_backup : String → Exec String
read_backup file w = backup_found (find file w.backups) w

abbrev pub is_backup_of : String → String → Bool
is_backup_of name file = starts_with file (name <> ".") && is_some (strip_suffix file ".json")

module _ (c : Codec) where
  abbrev pub with_hash : Attempt String → String → String → Option (String × String)
  with_hash (threw _) file hash = none
  with_hash (got content) file hash = if c.hash content == hash then some (file, content) else none

  -- The last of the files with the hash, in the order of the names.
  unfoldable pub last_with_hash : List String → String → String → Exec (Option (String × String))
  last_with_hash [] name hash = pure none
  last_with_hash (file ∷ files) name hash =
      let skipped = last_with_hash files name hash in
      if is_backup_of name file
      then (do
        r ← attempt (read_backup file)
        later ← skipped
        pure (or_else later (with_hash r file hash)))
      else skipped

  abbrev pub parsed : Option (String × String) → Option String × Option Value
  parsed none = (none, none)
  parsed (some (file, content)) = (some file, c.from_str content)

  -- A directory that cannot be listed has no backups.
  unfoldable pub backups_listed :
      Attempt (List String) → String → String → Exec (Option String × Option Value)
  backups_listed (threw _) name hash = pure (none, none)
  backups_listed (got files) name hash = do
    found ← last_with_hash files name hash
    pure (parsed found)

  unfoldable pub find_backup_with_hash : String → String → Exec (Option String × Option Value)
  find_backup_with_hash name hash = do
    files ← attempt (reading (io other_io) (λ d. keys d.backups))
    backups_listed files name hash

  unfoldable pub find_backup : Option String → String → Exec (Option String × Option Value)
  find_backup none name = pure (none, none)
  find_backup (some hash) name = find_backup_with_hash name hash

  abbrev pub at_of : Option CategoryMeta → Option String
  at_of none = none
  at_of (some m) = some m.updated_at

  abbrev pub by_of : Option CategoryMeta → Option String
  by_of none = none
  by_of (some m) = some m.updated_by

  unfoldable pub plan_entry : String → Exec PlanEntry
  plan_entry name = do
    row ← select (λ t. find name t.category)
    content ← read_to_string (json_path name)
    backup ← find_backup (hash_of_row row) name
    pure (record {
      name = name;
      db_hash = hash_of_row row;
      db_updated_at = at_of row;
      db_updated_by = by_of row;
      file_hash = c.hash content;
      file_size = len content;
      kind = kind_of (c.from_str content);
      db_version_backup = backup.0;
      delta = opt_delta (c.from_str content) backup.1;
    })

  unfoldable pub plan_entries : List String → Exec (List PlanEntry)
  plan_entries [] = pure []
  plan_entries (name ∷ names) = do
    entry ← plan_entry name
    entries ← plan_entries names
    pure (entry ∷ entries)

  -- The report must be of a store at rest.
  unfoldable pub guard_report : StoreReport → Exec (Unit {0})
  guard_report report =
      if is_nil report.pending
      then (if is_some report.interrupted_restore
          then throw (inconsistent "interrupted restore marker present")
          else pure tt)
      else throw (inconsistent "store has pending staged/parked files")

  unfoldable pub plan : Probe → String → String → Exec Plan
  plan probe base_dir now = do
    report ← verify_store c probe
    guard_report report
    access sqlite (λ d. d)
    access sqlite (λ d. d)
    entries ← plan_entries report.mismatches
    pure (record {
      generated_at = now;
      base_dir = base_dir;
      journal_mode = report.journal_mode;
      entries = entries;
    })
