-- ===== src/Tests/Snapshots.antt =====
-- A snapshot with one category, and its restore over an empty store.
use mcp_memory_rs.Common.{
  ℕ, String, sym, subst, ◌≡◌, refl, ◌≤◌, length, arith, false, none, some, [], ◌∷◌,
}
use mcp_memory_rs.Common.Map.{find, put, keys}
use mcp_memory_rs.Common.Text.{contains, before_first, strip_prefix, strip_suffix}
use mcp_memory_rs.Error.{ok}
use mcp_memory_rs.AtomicJson.Names.{json_name}
use mcp_memory_rs.Snapshot.Verify.{
  Manifest, Dir, holds, absent, regular, read_manifest, row_problems, unknown_problems,
  coverage_problems, problems, verify_files, verify_database, verify,
}
use mcp_memory_rs.Snapshot.Verifying.{IsSound, verify-IsSound}
use mcp_memory_rs.Snapshot.Restore.{
  Site, empty_dir, copy_nodes, copy_categories, restore_steps, restore,
}
use mcp_memory_rs.Snapshot.Endings.{Ending, Replaced, restore-Ending}
use mcp_memory_rs.Snapshot.Completing.{restore-Replaced}
use mcp_memory_rs.World.{done, fails, access, access_with, read_to_string, read_found, transaction}
use mcp_memory_rs.World.Ends.{Ends}
use mcp_memory_rs.AtomicJson.Names.{pending_in, pending_name, pending_names, json_names}
use mcp_memory_rs.Codec.{Times}
use mcp_memory_rs.Store.Open.{DotFree, Reconciled, settle_names, rollback}
use mcp_memory_rs.Snapshot.Create.{
  Options, Origin, vacuum_into, copy_files, copy_all_backups, write_snapshot, create_locked, create,
}
use mcp_memory_rs.Snapshot.Creating.{Created, Ends-create}
use mcp_memory_rs.Snapshot.Roundtrip.{create-restore}
use mcp_memory_rs.Tests.Fixtures.{codec, times, one_row, disk, world, disk-Recoverable}

abbrev manifest : Manifest
manifest = record {
  format = 1;
  created_at = "2026-01-02";
  device = "tower";
  sqlite_version = "3.50.0";
  categories = 1;
  source_base_dir = "/memory";
  includes_backups = false;
  backup_files = 0;
  backups = [];
}

abbrev snapshot : Dir
snapshot = record {
  manifest = holds manifest;
  database = some (record { integrity = "ok"; tables = one_row });
  sidecars = [];
  categories = some (("base.json", regular "A") ∷ []);
  backups = none;
}

abbrev site : Site
site = record {
  live = record {
    manifest = absent;
    database = none;
    sidecars = "-wal" ∷ [];
    categories = some (("old.json", regular "B") ∷ []);
    backups = none;
  };
  staging = empty_dir;
  parked = empty_dir;
  marker = false;
}

verified : verify codec.hash snapshot ≡ ok manifest
unfolding verify verify_database verify_files problems row_problems unknown_problems
    coverage_problems read_manifest find keys put json_name contains before_first strip_prefix
    strip_suffix
verified = refl

copied : copy_categories snapshot.categories ≡ some (("base.json", regular "A") ∷ [])
unfolding copy_categories copy_nodes
copied = refl

enough : length (restore_steps manifest) ≤ 20
unfolding restore_steps
enough = omega arith

verify-IsSound_example :
    (snapshot.manifest ≡ holds manifest)
    × (manifest.format ≡ 1)
    × IsSound codec.hash manifest snapshot
verify-IsSound_example = verify-IsSound codec.hash snapshot manifest verified

restore-Ending_example : Ending codec.hash snapshot site (restore codec.hash snapshot 6 none site)
restore-Ending_example = restore-Ending codec.hash snapshot 6 none site

restore-Replaced_example :
    ((restore codec.hash snapshot 20 none site).result ≡ ok manifest)
    × Replaced codec.hash snapshot site manifest (restore codec.hash snapshot 20 none site).site
restore-Replaced_example =
    restore-Replaced codec.hash snapshot manifest (("base.json", regular "A") ∷ []) 20 none site
      verified refl copied enough

abbrev origin : Origin
origin = record {
  created_at = "2026-01-02";
  device = "tower";
  sqlite_version = "3.50.0";
  source_base_dir = "/memory";
  integrity = "ok";
}

abbrev lean : Options
lean = record { with_backups = false }

abbrev taken : ℕ → Times
taken _ = times

none_pending : pending_in disk.files ≡ []
unfolding keys pending_name before_first strip_prefix
none_pending = refl

created : (create codec origin empty_dir lean taken (world [])).0 ≡ ok (manifest, snapshot)
unfolding create create_locked write_snapshot vacuum_into copy_files copy_all_backups access
    access_with pending_names json_names settle_names rollback read_to_string read_found verify
    verify_database verify_files problems row_problems unknown_problems coverage_problems
    read_manifest find keys put json_name contains before_first strip_prefix strip_suffix
    transaction pending_name
created = refl

Ends-create_example :
    Ends
      (λ x d. Created codec origin one_row empty_dir lean x.0 x.1 × Reconciled codec one_row d)
      (λ _ d. Reconciled codec one_row d)
      (create codec origin empty_dir lean taken (world (done ∷ done ∷ fails none ∷ [])))
Ends-create_example =
    Ends-create codec origin empty_dir lean taken (world (done ∷ done ∷ fails none ∷ []))
      (subst (λ l. DotFree codec l) (sym none_pending) tt) disk-Recoverable

create-restore_example :
    ((restore codec.hash snapshot 20 none site).result ≡ ok manifest)
    × Replaced codec.hash snapshot site manifest (restore codec.hash snapshot 20 none site).site
    × (i : String) × ((restore codec.hash snapshot 20 none site).site.live.database
        ≡ some (record { integrity = i; tables = one_row }))
create-restore_example =
    create-restore codec origin empty_dir lean taken (world []) manifest snapshot 20 none site
      (subst (λ l. DotFree codec l) (sym none_pending) tt) disk-Recoverable refl refl created enough
