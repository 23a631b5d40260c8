-- ===== src/Tests/Reports.antt =====
-- A report on a store with one category.
use mcp_memory_rs.Common.{◌≡◌, refl, true, none, [], ◌∷◌}
use mcp_memory_rs.Error.{ok}
use mcp_memory_rs.Common.Map.{find, put, keys}
use mcp_memory_rs.Common.Text.{contains, before_first, strip_prefix, strip_suffix}
use mcp_memory_rs.World.{
  done, crashes, access, access_with, files_with_prefix, read_to_string, read_found,
}
use mcp_memory_rs.AtomicJson.{
  committed_content, staged_files, deleted_files, first_matching, match_read,
}
use mcp_memory_rs.AtomicJson.Names.{pending_names, pending_name, json_names, json_name}
use mcp_memory_rs.World.Ends.{Ends}
use mcp_memory_rs.AtomicJson.Recoverable.{Recoverable}
use mcp_memory_rs.Store.Report.{
  StoreReport, is_clean, Probe, select, mismatched, report_of, verify_store,
}
use mcp_memory_rs.Store.Verified.{
  Reported, NothingPending, AllKnown, Ends-verify_store, verify_store-Recoverable,
}
use mcp_memory_rs.Tests.Fixtures.{codec, disk, world}

abbrev pub probe : Probe
probe = record {
  db_path = "memory.db";
  db_exists = true;
  integrity_check = "ok";
  journal_mode = "wal";
  restore_marker = none;
}

abbrev report : StoreReport
report = record {
  integrity = "ok";
  journal_mode = "wal";
  categories = 1;
  mismatches = [];
  orphan_files = [];
  pending = [];
  interrupted_restore = none;
}

report_ran : (verify_store codec probe (world [])).0 ≡ ok report
unfolding verify_store report_of access select pending_names mismatched committed_content
    staged_files files_with_prefix deleted_files first_matching read_to_string find match_read
    json_names json_name pending_name contains before_first keys put strip_prefix strip_suffix
    access_with read_found
report_ran = refl

clean_ran : is_clean report ≡ true
unfolding is_clean
clean_ran = refl

verify_store-Recoverable_example :
    Recoverable codec.hash disk × NothingPending codec disk × AllKnown codec disk
verify_store-Recoverable_example =
    verify_store-Recoverable codec probe (world []) report report_ran clean_ran

Ends-verify_store_example :
    Ends
      (λ r d. (d ≡ disk) × Reported codec disk probe r)
      (λ _ d. d ≡ disk)
      (verify_store codec probe (world (done ∷ crashes none ∷ [])))
Ends-verify_store_example = Ends-verify_store codec probe (world (done ∷ crashes none ∷ []))
