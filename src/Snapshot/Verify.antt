-- ===== src/Snapshot/Verify.antt =====
-- `read_manifest` and `verify` of src/store/snapshot.rs, for a directory whose files can be read.
use mcp_memory_rs.Common.{
  ℕ, String, Bool, true, false, Option, none, some, List, [], ◌∷◌, ◌++◌, ◌==◌, nat_eq, is_nil,
  is_some, if◌then◌else◌, length, any,
}
use mcp_memory_rs.Common.Map.{Map, find, keys}
use mcp_memory_rs.Error.{json, sqlite, io, missing, inconsistent, other, Result, ok, err}
use mcp_memory_rs.Db.{Tables}
use mcp_memory_rs.AtomicJson.{json_path}
use mcp_memory_rs.AtomicJson.Names.{final_names_in}
use mcp_memory_rs.Store.Report.{hashes}

pub record Manifest : Type 0 where
  pub format : ℕ
  pub created_at : String
  pub device : String
  pub sqlite_version : String
  pub categories : ℕ
  pub source_base_dir : String
  pub includes_backups : Bool
  pub backup_files : ℕ
  pub backups : Map String

-- What stands in a directory under a name: a regular file, or something else.
pub data Node : Type 0 where
  regular : String → Node
  not_regular : Node

-- A database file: the answer of its integrity check, and its tables.
pub record Database : Type 0 where
  pub integrity : String
  pub tables : Tables

-- The manifest of a snapshot: no file, a file that cannot be parsed, or a manifest.
pub data ManifestFile : Type 0 where
  absent : ManifestFile
  unparsed : ManifestFile
  holds : Manifest → ManifestFile

-- The directory of a snapshot or of a store; `sidecars` are the files beside the database.
pub record Dir : Type 0 where
  pub manifest : ManifestFile
  pub database : Option Database
  pub sidecars : List String
  pub categories : Option (Map Node)
  pub backups : Option (Map Node)

unfoldable pub read_manifest : Dir → Result Manifest
read_manifest d = elim d.manifest [
  | absent ↦ err (other "not a snapshot")
  | unparsed ↦ err json
  | holds m ↦
      if nat_eq m.format 1
      then (if is_some d.database then ok m else err (other "snapshot has no memory.db"))
      else err (other "unsupported snapshot format")
]

-- What the verification complains of.
pub data Problem : Type 0 where
  no_file : String → Problem
  hash_differs : String → Problem
  no_row : String → Problem
  count_differs : Problem
  backup_differs : String → Problem
  backup_unlisted : String → Problem
  no_backups : Problem
  backup_count_differs : Problem

abbrev pub complain : Bool → Problem → List Problem
complain true p = []
complain false p = p ∷ []

module _ (hash : String → String) where
  abbrev pub row_problem : Option Node → String → String → List Problem
  row_problem none name h = no_file name ∷ []
  row_problem (some not_regular) name h = no_file name ∷ []
  row_problem (some (regular content)) name h = complain (hash content == h) (hash_differs name)

  unfoldable pub row_problems : List (String × String) → Map Node → List Problem
  row_problems [] files = []
  row_problems ((name, h) ∷ rows) files =
      row_problem (find (json_path name) files) name h ++ row_problems rows files

  unfoldable pub unknown_problems : List String → List (String × String) → List Problem
  unknown_problems [] rows = []
  unknown_problems (f ∷ files) rows =
      complain (any (λ (r : String × String). r.0 == f) rows) (no_row f)
      ++ unknown_problems files rows

  abbrev pub backup_problem : Option Node → String → String → List Problem
  backup_problem (some (regular content)) name h =
      complain (hash content == h) (backup_differs name)
  backup_problem _ name h = backup_differs name ∷ []

  unfoldable pub listed_problems : Map String → Map Node → List Problem
  listed_problems [] files = []
  listed_problems ((name, h) ∷ listed) files =
      backup_problem (find name files) name h ++ listed_problems listed files

  abbrev pub unlisted_problem : Node → String → Map String → List Problem
  unlisted_problem not_regular name listed = backup_unlisted name ∷ []
  unlisted_problem (regular _) name listed =
      complain (is_some (find name listed)) (backup_unlisted name)

  unfoldable pub unlisted_problems : Map Node → Map String → List Problem
  unlisted_problems [] listed = []
  unlisted_problems ((name, node) ∷ files) listed =
      unlisted_problem node name listed ++ unlisted_problems files listed

  unfoldable pub backups_problems : Option (Map Node) → Map String → List Problem
  backups_problems none listed = listed_problems listed [] ++ no_backups ∷ []
  backups_problems (some files) listed =
      listed_problems listed files ++ unlisted_problems files listed

  unfoldable pub coverage_problems : Manifest → Option (Map Node) → List Problem
  coverage_problems m files =
      if m.includes_backups
      then (backups_problems files m.backups
          ++ complain (nat_eq (length m.backups) m.backup_files) backup_count_differs)
      else []

  -- All the problems of a snapshot with this manifest, these rows and these files.
  unfoldable pub problems :
      Manifest → List (String × String) → Map Node → Option (Map Node) → List Problem
  problems m rows files backups =
      row_problems rows files
      ++ (unknown_problems (final_names_in (keys files)) rows
          ++ (complain (nat_eq (length rows) m.categories) count_differs
              ++ coverage_problems m backups))

  unfoldable pub verify_files :
      Manifest → Tables → Option (Map Node) → Option (Map Node) → Result Manifest
  verify_files m tables none backups = err (io missing)
  verify_files m tables (some files) backups =
      if is_nil (problems m (hashes tables.category) files backups)
      then ok m
      else err (inconsistent "snapshot failed verification")

  unfoldable pub verify_database :
      Manifest → Option Database → Option (Map Node) → Option (Map Node) → Result Manifest
  verify_database m none files backups = err sqlite
  verify_database m (some db) files backups =
      if db.integrity == "ok"
      then verify_files m db.tables files backups
      else err (inconsistent "snapshot database integrity_check")

  abbrev pub verify_manifest : Result Manifest → Dir → Result Manifest
  verify_manifest (ok m) d = verify_database m d.database d.categories d.backups
  verify_manifest r d = r

  unfoldable pub verify : Dir → Result Manifest
  verify d = verify_manifest (read_manifest d) d
