-- ===== src/Tests/Recoveries.antt =====
-- A store whose only file is newer than its row, and its repair.
use mcp_memory_rs.Common.{ℕ, String, ◌≡◌, refl, none, some, List, [], ◌∷◌}
use mcp_memory_rs.Common.Among.{Among}
use mcp_memory_rs.Common.Map.{find, put, keys}
use mcp_memory_rs.Common.Text.{contains, before_first, strip_prefix, strip_suffix}
use mcp_memory_rs.Json.{Value, text, object, field, end, get, lookup}
use mcp_memory_rs.Log.{is_log}
use mcp_memory_rs.Error.{ok}
use mcp_memory_rs.Codec.{Times}
use mcp_memory_rs.Db.{
  update_category, insert_version, delete_index, insert_index, set_dirty, prune_versions_table,
}
use mcp_memory_rs.World.{
  World, done, crashes, access, access_with, files_with_prefix, read_to_string, read_found, query,
  execute, commit, transaction,
}
use mcp_memory_rs.World.Ends.{Ends}
use mcp_memory_rs.AtomicJson.{
  committed_content, staged_files, deleted_files, first_matching, match_read, validate_name,
  has_pending, copy_out, copy_found, copy_bytes,
}
use mcp_memory_rs.AtomicJson.Names.{pending_names, pending_name, json_names, json_name}
use mcp_memory_rs.AtomicJson.Recoverable.{Recoverable}
use mcp_memory_rs.Store.Read.{get_meta}
use mcp_memory_rs.Store.Rows.{
  new_meta, insert_rows, index_rows, update_search_index, mark_dirty, prune_versions,
}
use mcp_memory_rs.Store.Report.{StoreReport, select, mismatched, report_of, verify_store}
use mcp_memory_rs.Recovery.Delta.{
  map, value_eq, fields_eq, shape_delta, map_delta, field_keys, semantic_delta,
}
use mcp_memory_rs.Recovery.Plan.{PlanEntry}
use mcp_memory_rs.Recovery.Adopt.{
  AdoptOutcome, adopted, guard_restore, guard_valid, guard_pending, guard_file, todo_of,
  check_entry, check_entries, adopt_row, adopt_entry, adopt_work, adopt_locked, adopt_plan,
  names_of,
}
use mcp_memory_rs.Recovery.Kept.{Describes, semantic_delta_lem}
use mcp_memory_rs.Recovery.Recovered.{
  AllAdopted, NoneAdopted, Ends-adopt_plan, adopt_plan-Recoverable,
}
use mcp_memory_rs.Tests.Fixtures.{codec, times, one_row, disk}
use mcp_memory_rs.Tests.Reports.{probe}

abbrev drifted : World
drifted = record { disk = record disk { files = ("base.json", "B") ∷ [] }; faults = [] }

abbrev report : StoreReport
report = record {
  integrity = "ok";
  journal_mode = "wal";
  categories = 1;
  mismatches = "base" ∷ [];
  orphan_files = [];
  pending = [];
  interrupted_restore = none;
}

report_ran : (verify_store codec probe drifted).0 ≡ ok report
unfolding verify_store report_of access select pending_names mismatched committed_content
    staged_files files_with_prefix deleted_files first_matching read_to_string find match_read
    json_names json_name pending_name contains before_first keys put strip_prefix strip_suffix
    access_with read_found
report_ran = refl

abbrev entry : PlanEntry
entry = record {
  name = "base";
  db_hash = some "A";
  db_updated_at = some "2026-01-01";
  db_updated_by = some "tower";
  file_hash = "B";
  file_size = 1;
  kind = "memory";
  db_version_backup = none;
  delta = none;
}

abbrev clock : ℕ → Times
clock _ = times

abbrev outcomes : List (String × AdoptOutcome)
outcomes = ("base", adopted (some "A") "B" "base.2026-01-02.adopted.json") ∷ []

abbrev repaired : World
repaired = (adopt_plan codec none (entry ∷ []) clock drifted).1

adopt_ran : adopt_plan codec none (entry ∷ []) clock drifted ≡ (ok outcomes, repaired)
unfolding adopt_plan guard_restore transaction adopt_locked check_entries check_entry validate_name
    guard_valid has_pending staged_files deleted_files files_with_prefix guard_pending
    read_to_string read_found guard_file get_meta query todo_of adopt_work adopt_entry copy_out
    copy_found copy_bytes adopt_row execute update_search_index insert_rows index_rows mark_dirty
    prune_versions commit access access_with find keys put contains strip_prefix new_meta
    update_category insert_version delete_index insert_index set_dirty prune_versions_table
adopt_ran = refl

all_named : (n : String) → Among n report.mismatches → Among n (names_of (entry ∷ []))
all_named n m = m

adopt_plan-Recoverable_example : Recoverable codec.hash repaired.disk
adopt_plan-Recoverable_example =
    adopt_plan-Recoverable codec probe none (entry ∷ []) clock drifted repaired report outcomes refl
      report_ran refl all_named adopt_ran

Ends-adopt_plan_example :
    Ends
      (λ os d. AllAdopted codec drifted.files one_row (entry ∷ []) os d)
      (λ _ d. NoneAdopted codec drifted.files one_row d)
      (adopt_plan codec none
        (entry ∷ [])
        clock
        (record drifted { faults = done ∷ done ∷ crashes none ∷ [] }))
Ends-adopt_plan_example =
    Ends-adopt_plan codec none (entry ∷ []) clock
      (record drifted { faults = done ∷ done ∷ crashes none ∷ [] }) refl refl

abbrev before : Value
before = object (field "a" (text "1") (field "b" (text "2") end))

abbrev after : Value
after = object (field "b" (text "3") (field "c" (text "4") end))

delta_ran : semantic_delta before after ≡ map ("c" ∷ []) ("a" ∷ []) ("b" ∷ [])
unfolding semantic_delta value_eq fields_eq shape_delta is_log get lookup map_delta field_keys
delta_ran = refl

semantic_delta_lem_example : Describes before after (semantic_delta before after)
semantic_delta_lem_example = semantic_delta_lem before after
