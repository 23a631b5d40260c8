-- ===== src/Snapshot/Create.antt =====
-- `create` of src/store/snapshot.rs and `snapshot` of src/store/mod.rs: a snapshot of a store in a directory.
use mcp_memory_rs.Common.{
  ℕ, ◌+◌, String, Bool, true, false, Option, none, some, List, [], ◌∷◌, if◌then◌else◌, length,
}
use mcp_memory_rs.Common.Map.{Map, put}
use mcp_memory_rs.Error.{sqlite, io, other_io, other, Result, ok, err, crashed}
use mcp_memory_rs.Db.{Tables}
use mcp_memory_rs.World.{
  Exec, pure, throw, ◌>>=◌, ◌>>◌, access, reading, read_to_string, transaction,
}
use mcp_memory_rs.AtomicJson.{json_path}
use mcp_memory_rs.AtomicJson.Names.{json_names, pending_names}
use mcp_memory_rs.Codec.{Codec, Times}
use mcp_memory_rs.Store.Open.{settle_names, rollback}
use mcp_memory_rs.Snapshot.Verify.{
  Manifest, ManifestFile, absent, unparsed, holds, Node, regular, Database, Dir, verify,
}

pub record Options : Type 0 where
  pub with_backups : Bool

-- What the manifest says of the place, and what SQLite answers for the copy that `VACUUM INTO` makes.
pub record Origin : Type 0 where
  pub created_at : String
  pub device : String
  pub sqlite_version : String
  pub source_base_dir : String
  pub integrity : String

abbrev pub nodes : Option (Map Node) → Map Node
nodes none = []
nodes (some files) = files

abbrev pub has_manifest : ManifestFile → Bool
has_manifest absent = false
has_manifest unparsed = true
has_manifest (holds _) = true

-- `VACUUM INTO`: SQLite refuses a file that is there.
unfoldable pub vacuum_into : Option Database → Exec Tables
vacuum_into none = reading sqlite (λ d. d.saved)
vacuum_into (some _) = throw sqlite

-- The loop over `json_names`: a file is read and its copy written.
unfoldable pub copy_files : List String → Map Node → Exec (Map Node)
copy_files [] copies = pure copies
copy_files (name ∷ names) copies = do
  content ← read_to_string (json_path name)
  access (io other_io) (λ d. d)
  copy_files names (put (json_path name) (regular content) copies)

-- What the copies of the backups are, and the hashes that the manifest has for them.
pub record Copied : Type 0 where
  pub copies : Map Node
  pub digests : Map String
  pub count : ℕ

unfoldable pub copy_entries : (String → String) → Map String → Copied → Exec Copied
copy_entries hash [] out = pure out
copy_entries hash ((name, content) ∷ entries) out = do
  access (io other_io) (λ d. d)
  copy_entries hash entries (record {
    copies = put name (regular content) out.copies;
    digests = put name (hash content) out.digests;
    count = out.count + 1;
  })

-- With `with_backups` the directory of the backups is made, even if it stays empty.
unfoldable pub copy_all_backups :
    (String → String) → Bool → Option (Map Node) → Exec (Copied × Option (Map Node))
copy_all_backups hash false there = pure (record { copies = []; digests = []; count = 0 }, there)
copy_all_backups hash true there = do
  backups ← reading (io other_io) (λ d. d.backups)
  out ← copy_entries hash backups (record { copies = nodes there; digests = []; count = 0 })
  pure (out, some out.copies)

abbrev pub manifest_of : Origin → Options → List String → Copied → Manifest
manifest_of o options names backups = record {
  format = 1;
  created_at = o.created_at;
  device = o.device;
  sqlite_version = o.sqlite_version;
  categories = length names;
  source_base_dir = o.source_base_dir;
  includes_backups = options.with_backups;
  backup_files = backups.count;
  backups = backups.digests;
}

abbrev pub created_dir : Origin → Manifest → Tables → Dir → Map Node → Option (Map Node) → Dir
created_dir o m tables dest files backups = record {
  manifest = holds m;
  database = some (record { integrity = o.integrity; tables = tables });
  sidecars = dest.sidecars;
  categories = some files;
  backups = backups;
}

-- A snapshot that is not accepted is not reported.
abbrev pub when_accepted : Result Manifest → Manifest → Dir → Exec (Manifest × Dir)
when_accepted (ok _) m d = pure (m, d)
when_accepted (err e) m d = throw e
when_accepted crashed m d = λ w. (crashed, w)

module _ (c : Codec) (o : Origin) where
  abbrev pub read_back : Manifest → Dir → Exec (Manifest × Dir)
  read_back m d = when_accepted (verify c.hash d) m d

  unfoldable pub write_snapshot : Dir → Options → Exec (Manifest × Dir)
  write_snapshot dest options = do
    tables ← vacuum_into dest.database
    names ← json_names
    files ← copy_files names (nodes dest.categories)
    backups ← copy_all_backups c.hash options.with_backups dest.backups
    access (io other_io) (λ d. d)
    rollback
    read_back (manifest_of o options names backups.0)
        (created_dir o (manifest_of o options names backups.0) tables dest files backups.1)

  -- With the write lock held, the pending files are settled first.
  unfoldable pub create_locked : Dir → Options → (ℕ → Times) → Exec (Manifest × Dir)
  create_locked dest options clock = do
    names ← pending_names
    settle_names c names clock 0
    write_snapshot dest options

  unfoldable pub create : Dir → Options → (ℕ → Times) → Exec (Manifest × Dir)
  create dest options clock =
      if has_manifest dest.manifest
      then throw (other "snapshot destination already holds a snapshot")
      else transaction (create_locked dest options clock)
