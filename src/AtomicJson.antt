-- ===== src/AtomicJson.antt =====
-- src/store/atomic_json.rs: staged writes, parked deletes, and how they are settled.
pub mod Paths
pub mod Recoverable
pub mod Settling
pub mod Reading
pub mod Names
pub mod Searching
use mcp_memory_rs.Common.{
  ℕ, ◌+◌, String, ◌<>◌, Bool, true, false, ◌||◌, Option, none, some, List, [], ◌∷◌, ◌++◌, ◌==◌, map,
  is_nil, is_text, not, if◌then◌else◌,
}
use mcp_memory_rs.Common.Map.{find, put, erase, keys}
use mcp_memory_rs.Common.Text.{contains}
use mcp_memory_rs.Error.{MemoryError, io, missing, other_io, invalid_name}
use mcp_memory_rs.World.{
  Disk, World, Exec, pure, throw, ◌>>=◌, ◌>>◌, continue, Attempt, got, threw, attempt, access,
  access_with, rename, remove_file, write_file, read_to_string, files_with_prefix,
}

abbrev pub staged_mark : String
staged_mark = ".json.new."

abbrev pub deleted_mark : String
deleted_mark = ".json.deleted."

abbrev pub json_path : String → String
json_path name = name <> ".json"

abbrev pub staged_prefix : String → String
staged_prefix name = name <> staged_mark

abbrev pub deleted_prefix : String → String
deleted_prefix name = name <> deleted_mark

-- A staged file waiting for the commit.
pub record Staged : Type 0 where
  pub staged : String
  pub final_path : String

-- A deletion parked until the commit.
pub record StagedDelete : Type 0 where
  pub parked : String
  pub name : String

-- What settling one category did.
pub record Settled : Type 0 where
  pub promoted : ℕ
  pub discarded : ℕ
  pub restored : ℕ
  pub completed : ℕ

abbrev pub nothing_settled : Settled
nothing_settled = record { promoted = 0; discarded = 0; restored = 0; completed = 0 }

unfoldable pub validate_name : String → Exec (Unit {0})
validate_name name =
    if name == "" || contains name "/" || contains name "\\" || contains name ".."
    then throw (invalid_name name)
    else pure tt

-- `match r { Ok(()) => done, Err(NotFound) => absent, Err(e) => return Err(e) }`
unfoldable pub or_missing {ℓ} : {A : Type ℓ} → Attempt (Unit {0}) → A → A → Exec A
or_missing (got _) finished absent = pure finished
or_missing (threw (io missing)) finished absent = pure absent
or_missing (threw e) finished absent = throw e

-- `Staged::promote`
unfoldable pub promote : Staged → Exec (Unit {0})
promote s = do r ← attempt (rename s.staged s.final_path); or_missing r tt tt

-- `fsync_dir_strict`
unfoldable pub fsync_dir_strict : Exec (Unit {0})
fsync_dir_strict = access (io other_io) (λ d. d)

-- `stage`, with the suffix that is unique to the transaction.
unfoldable pub stage : String → String → String → Exec Staged
stage name suffix content = do
  let staged = staged_prefix name <> suffix
  write_file staged content
  fsync_dir_strict
  pure (record { staged = staged; final_path = json_path name })

unfoldable pub staged_files : String → Exec (List String)
staged_files name = files_with_prefix (staged_prefix name)

unfoldable pub deleted_files : String → Exec (List String)
deleted_files name = files_with_prefix (deleted_prefix name)

-- `backup_copy`: a copy that fails is logged, and the write goes on.
abbrev pub copied : String → Option String → Disk → Disk
copied dest none d = d
copied dest (some c) d = record d { backups = put dest c d.backups }

-- A copy that is cut short may leave any text in its file.
abbrev pub torn_copy : String → Option String → Option String → Disk → Disk
torn_copy dest none t d = d
torn_copy dest (some _) t d = copied dest t d

-- `fs::copy`
unfoldable pub copy_bytes : Option String → String → Exec (Unit {0})
copy_bytes o dest w = access_with (io other_io) (copied dest o) (torn_copy dest o) w.faults w.disk

unfoldable pub backup_copy : String → String → String → Exec (Unit {0})
backup_copy src name time w =
    (do r ← attempt (copy_bytes (find src w.files) ((name <> ".") <> (time <> ".json"))); pure tt) w

-- `fs::rename` and `fs::copy` from the categories to the backups.
abbrev pub moved_out : String → String → String → Disk → Disk
moved_out from dest c d = record d { files = erase from d.files; backups = put dest c d.backups }

unfoldable pub move_found : Option String → String → String → Exec (Unit {0})
move_found none from dest = throw (io missing)
move_found (some c) from dest = access (io other_io) (moved_out from dest c)

unfoldable pub move_out : String → String → Exec (Unit {0})
move_out from dest w = move_found (find from w.files) from dest w

unfoldable pub copy_found : Option String → String → Exec (Unit {0})
copy_found none dest = throw (io missing)
copy_found (some c) dest = copy_bytes (some c) dest

unfoldable pub copy_out : String → String → Exec (Unit {0})
copy_out from dest w = copy_found (find from w.files) dest w

-- The branch of `finish_delete` after the rename: backups may live on another file system.
unfoldable pub copy_and_remove : Attempt (Unit {0}) → String → String → Exec (Unit {0})
copy_and_remove (got _) parked dest = pure tt
copy_and_remove (threw _) parked dest = do copy_out parked dest; remove_file parked

unfoldable pub finish_delete : String → String → String → Exec (Unit {0})
finish_delete parked name time = do
  let dest = (name <> ".") <> (time <> ".deleted.json")
  r ← attempt (move_out parked dest)
  copy_and_remove r parked dest

-- `StagedDelete::promote`
unfoldable pub promote_delete : StagedDelete → String → Exec (Unit {0})
promote_delete s time = do r ← attempt (finish_delete s.parked s.name time); or_missing r tt tt

-- `stage_delete`
unfoldable pub park : Option String → String → String → Exec (Option StagedDelete)
park none name suffix = pure none
park (some _) name suffix = do
  let parked = deleted_prefix name <> suffix
  rename (json_path name) parked
  fsync_dir_strict
  pure (some (record { parked = parked; name = name }))

unfoldable pub stage_delete : String → String → Exec (Option StagedDelete)
stage_delete name suffix w = park (find (json_path name) w.files) name suffix w

module _ (hash_of : String → String) where
  -- The rest of the loop body of `settle_staged`, after the read.
  unfoldable pub settle_read :
      Attempt String → String → String → Option String → Settled → Exec Settled
  settle_read (got content) path name db_hash out =
      if is_text db_hash (hash_of content)
      then (do
        r ← attempt (rename path (json_path name))
        or_missing r (record out { promoted = out.promoted + 1 }) out)
      else (do
        r ← attempt (remove_file path)
        or_missing r (record out { discarded = out.discarded + 1 }) out)
  settle_read (threw (io missing)) path name db_hash out = pure out
  settle_read (threw e) path name db_hash out = throw e

  unfoldable pub settle_staged_files : List String → String → Option String → Settled → Exec Settled
  settle_staged_files [] name db_hash out = pure out
  settle_staged_files (path ∷ paths) name db_hash out = do
    r ← attempt (read_to_string path)
    next ← settle_read r path name db_hash out
    settle_staged_files paths name db_hash next

  unfoldable pub settle_staged : String → Option String → Exec Settled
  settle_staged name db_hash = do
    paths ← staged_files name
    settle_staged_files paths name db_hash nothing_settled

-- The loop of `settle_deleted`.
unfoldable pub settle_deleted_files : List String → String → Bool → String → Settled → Exec Settled
settle_deleted_files [] name db_has_row time out = pure out
settle_deleted_files (parked ∷ rest) name true time out = do
  r ← attempt (rename parked (json_path name))
  next ← or_missing r (record out { restored = out.restored + 1 }) out
  settle_deleted_files rest name true time next
settle_deleted_files (parked ∷ rest) name false time out = do
  r ← attempt (finish_delete parked name time)
  next ← or_missing r (record out { completed = out.completed + 1 }) out
  settle_deleted_files rest name false time next

unfoldable pub settle_deleted : String → Bool → String → Exec Settled
settle_deleted name db_has_row time = do
  paths ← deleted_files name
  settle_deleted_files paths name db_has_row time nothing_settled

abbrev any_listed : Attempt (List String) → Bool
any_listed (got paths) = not (is_nil paths)
any_listed (threw _) = false

-- `has_pending`: a directory that cannot be listed counts as one with nothing pending.
unfoldable pub has_pending : String → Exec Bool
has_pending name = do
  staged ← attempt (staged_files name)
  parked ← attempt (deleted_files name)
  pure (any_listed staged || any_listed parked)

-- Where a reader found the committed content.
pub data Source : Type 0 where
  final_file staged_file parked_file : Source

module _ (hash_of : String → String) where
  -- The loop body of `committed_content` after the read.
  unfoldable pub match_read :
      Attempt String
      → Source
      → String
      → Exec (Option (String × Source))
      → Exec (Option (String × Source))
  match_read (got content) source committed later =
      if hash_of content == committed then pure (some (content, source)) else later
  match_read (threw (io missing)) source committed later = later
  match_read (threw e) source committed later = throw e

  unfoldable pub first_matching : List (String × Source) → String → Exec (Option (String × Source))
  first_matching [] committed = pure none
  first_matching ((path, source) ∷ rest) committed = do
    r ← attempt (read_to_string path)
    match_read r source committed (first_matching rest committed)

  unfoldable pub committed_content : String → String → Exec (Option (String × Source))
  committed_content name committed = do
    staged ← staged_files name
    parked ← deleted_files name
    first_matching
        ((json_path name, final_file)
          ∷ (map (λ p. (p, staged_file)) staged ++ map (λ p. (p, parked_file)) parked))
        committed
