-- ===== src/Snapshot/Restore.antt =====
-- `restore` of src/store/snapshot.rs: the staged copy, and the swap of the directories step by step. A step
-- is an access to the disk; a restore may be stopped before any of them, by an error or by a crash.
use mcp_memory_rs.Common.{
  ℕ, zero, suc, String, Bool, true, false, Option, none, some, List, [], ◌∷◌, ◌++◌, ◌==◌, not, keep,
  if◌then◌else◌,
}
use mcp_memory_rs.Common.Map.{Map, find, keys}
use mcp_memory_rs.Error.{MemoryError, inconsistent, Result, ok, err, crashed}
use mcp_memory_rs.Snapshot.Verify.{
  Manifest, absent, Node, regular, not_regular, Database, Dir, verify,
}

-- The base directory: the store, the staged copy, what is parked, and the marker.
pub record Site : Type 0 where
  pub live : Dir
  pub staging : Dir
  pub parked : Dir
  pub marker : Bool

abbrev pub empty_dir : Dir
empty_dir = record {
  manifest = absent;
  database = none;
  sidecars = [];
  categories = none;
  backups = none;
}

-- `fs::copy` of every entry of a directory: only a regular file can be copied.
abbrev pub copied_onto : Option (Map Node) → String → Node → Option (Map Node)
copied_onto none name node = none
copied_onto (some files) name (regular content) = some ((name, regular content) ∷ files)
copied_onto (some files) name not_regular = none

unfoldable pub copy_nodes : Map Node → Option (Map Node)
copy_nodes [] = some []
copy_nodes ((name, node) ∷ files) = copied_onto (copy_nodes files) name node

unfoldable pub copy_categories : Option (Map Node) → Option (Map Node)
copy_categories none = none
copy_categories (some files) = copy_nodes files

-- The backups that the manifest lists.
abbrev pub copied_backup : Option (Map Node) → String → Option Node → Option (Map Node)
copied_backup (some files) name (some (regular content)) = some ((name, regular content) ∷ files)
copied_backup _ name _ = none

unfoldable pub copy_listed : List String → Map Node → Option (Map Node)
copy_listed [] files = some []
copy_listed (name ∷ names) files = copied_backup (copy_listed names files) name (find name files)

abbrev or_empty : Option (Map Node) → Map Node
or_empty none = []
or_empty (some files) = files

-- With a flag for a copy that failed.
unfoldable pub copy_backups : Manifest → Option (Map Node) → Bool × Option (Map Node)
copy_backups m files =
    if m.includes_backups
    then (elim (copy_listed (keys m.backups) (or_empty files)) [
      | none ↦ (false, none)
      | some copy ↦ (true, some copy)
    ])
    else (true, none)

abbrev pub staged_dir : Dir → Option (Map Node) → Option (Map Node) → Dir
staged_dir src files backups = record {
  manifest = src.manifest;
  database = src.database;
  sidecars = [];
  categories = files;
  backups = backups;
}

-- `stage_all`, without the check at its end.
unfoldable pub staged_copy : Manifest → Dir → Option Dir
staged_copy m src = elim (copy_categories src.categories) [
  | none ↦ none
  | some files ↦
      let backups = copy_backups m src.backups in
      if backups.0 then some (staged_dir src (some files) backups.1) else none
]

module _ (hash : String → String) where
  abbrev pub checked_copy : Result Manifest → Dir → Result Dir
  checked_copy (ok _) staged = ok staged
  checked_copy _ staged = err (inconsistent "restore aborted before touching the live store")

  unfoldable pub stage_all : Manifest → Dir → Result Dir
  stage_all m src = elim (staged_copy m src) [
    | none ↦ err (inconsistent "restore aborted before touching the live store")
    | some staged ↦ checked_copy (verify hash staged) staged
  ]

-- A step of the swap; `none` is an error, after which nothing has changed.
abbrev pub Step : Type 0
Step = Site → Option Site

abbrev pub write_marker : Step
write_marker s = some (record s { marker = true })

-- A sync of a directory, and the making of the one for what is parked: nothing that is seen changes.
abbrev pub sync_dir : Step
sync_dir s = some s

abbrev pub park_database : Step
park_database s = some (record s {
  live = record s.live { database = none };
  parked = record s.parked { database = s.live.database };
})

-- A file that is not there is not moved.
abbrev pub park_sidecar : String → Step
park_sidecar suffix s = some (record s {
  live = record s.live { sidecars = keep (λ x. not (x == suffix)) s.live.sidecars };
  parked = record s.parked {
    sidecars = keep (λ x. x == suffix) s.live.sidecars ++ s.parked.sidecars;
  };
})

abbrev pub park_categories : Step
park_categories s = some (record s {
  live = record s.live { categories = none };
  parked = record s.parked { categories = s.live.categories };
})

-- A rename from the staged copy fails where there is nothing to rename.
abbrev pub placed_database : Option Database → Step
placed_database none s = none
placed_database (some db) s = some (record s {
  live = record s.live { database = some db };
  staging = record s.staging { database = none };
})

abbrev pub place_database : Step
place_database s = placed_database s.staging.database s

abbrev pub placed_categories : Option (Map Node) → Step
placed_categories none s = none
placed_categories (some files) s = some (record s {
  live = record s.live { categories = some files };
  staging = record s.staging { categories = none };
})

abbrev pub place_categories : Step
place_categories s = placed_categories s.staging.categories s

abbrev pub park_backups : Step
park_backups s = some (record s {
  live = record s.live { backups = none };
  parked = record s.parked { backups = s.live.backups };
})

abbrev pub placed_backups : Option (Map Node) → Step
placed_backups none s = none
placed_backups (some files) s = some (record s {
  live = record s.live { backups = some files };
  staging = record s.staging { backups = none };
})

abbrev pub place_backups : Step
place_backups s = placed_backups s.staging.backups s

abbrev pub keep_manifest : Step
keep_manifest s = some (record s {
  staging = record s.staging { manifest = absent };
  parked = record s.parked { manifest = s.staging.manifest };
})

abbrev pub remove_marker : Step
remove_marker s = some (record s { marker = false })

abbrev pub backup_steps : Bool → List Step
backup_steps true = park_backups ∷ place_backups ∷ []
backup_steps false = []

-- The steps after the marker and before its removal, with backups or without.
abbrev pub swap_with : Bool → List Step
swap_with b =
    sync_dir
    ∷ sync_dir
    ∷ sync_dir
    ∷ park_database
    ∷ park_sidecar "-wal"
    ∷ park_sidecar "-shm"
    ∷ park_sidecar "-journal"
    ∷ park_categories
    ∷ place_database
    ∷ place_categories
    ∷ (backup_steps b ++ keep_manifest ∷ sync_dir ∷ [])

abbrev pub swap_steps : Manifest → List Step
swap_steps m = swap_with m.includes_backups

-- How far a list of steps comes: `stopped` is an error or a crash.
pub data Run : Type 0 where
  finished : Site → Run
  stopped : Site → Run

-- The first `n` accesses go well.
unfoldable pub run : List Step → ℕ → Site → Run
run [] n s = finished s
run (step ∷ steps) zero s = stopped s
run (step ∷ steps) (suc n) s = elim (step s) [ none ↦ stopped s | some s' ↦ run steps n s' ]

unfoldable pub restore_steps : Manifest → List Step
restore_steps m = write_marker ∷ (swap_steps m ++ remove_marker ∷ sync_dir ∷ [])

-- The end of `restore`: the result, and the base directory.
pub record Restored : Type 0 where
  pub result : Result Manifest
  pub site : Site

-- What stopped the restore: an error or, with `none`, a crash.
abbrev pub failure : Option MemoryError → Result Manifest
failure none = crashed
failure (some e) = err e

abbrev pub swapped : Manifest → Option MemoryError → Run → Restored
swapped m stop (finished s) = record { result = ok m; site = s }
swapped m stop (stopped s) = record { result = failure stop; site = s }

module _ (hash : String → String) where
  abbrev pub swap : Manifest → Result Dir → ℕ → Option MemoryError → Site → Restored
  swap m (ok staged) n stop s =
      swapped m stop (run (restore_steps m) n (record s { staging = staged; parked = empty_dir }))
  swap m _ n stop s = record {
    result = err (inconsistent "restore aborted before touching the live store");
    site = s;
  }

  abbrev pub restore_verified : Result Manifest → Dir → ℕ → Option MemoryError → Site → Restored
  restore_verified (ok m) src n stop s = swap m (stage_all hash m src) n stop s
  restore_verified (err e) src n stop s = record { result = err e; site = s }
  restore_verified crashed src n stop s = record { result = crashed; site = s }

  -- The first `n` accesses of the swap go well; if there are more, `stop` ends it there.
  unfoldable pub restore : Dir → ℕ → Option MemoryError → Site → Restored
  restore src n stop s = restore_verified (verify hash src) src n stop s
