-- ===== src/Recovery/Adopt.antt =====
-- `adopt_plan` and `adopt_json` of src/store/recovery.rs: the rows are made to name the files.
use Prim.Native.String.{len, slice}
use Prim.Native.Nat.{min}
use mcp_memory_rs.Common.{
  ℕ, ◌+◌, String, ◌<>◌, Bool, true, false, Option, none, some, List, [], ◌∷◌, ◌==◌, is_text,
  opt_text_eq, unwrap_or, map, if◌then◌else◌,
}
use mcp_memory_rs.Json.{Value}
use mcp_memory_rs.Error.{json, inconsistent, concurrency_conflict}
use mcp_memory_rs.Db.{CategoryMeta, hash_of_row, update_category, insert_version}
use mcp_memory_rs.World.{
  Exec, pure, throw, panic, ◌>>=◌, ◌>>◌, execute, commit, transaction, read_to_string,
}
use mcp_memory_rs.AtomicJson.{json_path, validate_name, has_pending, copy_out}
use mcp_memory_rs.Codec.{Codec, Times}
use mcp_memory_rs.Store.Read.{get_meta, or_throw}
use mcp_memory_rs.Store.Rows.{new_meta, insert_row, update_search_index, mark_dirty, prune_versions}
use mcp_memory_rs.Recovery.Plan.{PlanEntry}

pub data AdoptOutcome : Type 0 where
  already_consistent : AdoptOutcome
  adopted : Option String → String → String → AdoptOutcome

-- What is left to do for an entry: the content of the file, its value, and the hash of the row.
abbrev pub Todo : Type 0
Todo = Option (String × Value × Option String)

abbrev pub names_of : List PlanEntry → List String
names_of entries = map (λ (e : PlanEntry). e.name) entries

abbrev pub outcome_names : List (String × AdoptOutcome) → List String
outcome_names outcomes = map (λ (o : String × AdoptOutcome). o.0) outcomes

abbrev pub work_entries : List (PlanEntry × Todo) → List PlanEntry
work_entries work = map (λ (p : PlanEntry × Todo). p.0) work

abbrev pub no_row : Option String → String
no_row o = unwrap_or o "<no row>"

abbrev pub first_eight : Option String → String
first_eight none = "no row"
first_eight (some h) = slice h 0 (min 8 (len h))

abbrev pub adopt_reason : Option String → String
adopt_reason db_hash = ("recovery: adopted on-disk json (db had " <> first_eight db_hash) <> ")"

unfoldable pub guard_restore : Option String → Exec (Unit {0})
guard_restore none = pure tt
guard_restore (some m) = throw (inconsistent ("interrupted restore marker present: " <> m))

unfoldable pub guard_valid : PlanEntry → Exec (Unit {0})
guard_valid entry =
    if entry.kind == "invalid"
    then throw (inconsistent (entry.name <> ": plan marks the file as invalid JSON"))
    else pure tt

unfoldable pub guard_pending : Bool → String → Exec (Unit {0})
guard_pending true name = throw (inconsistent (name <> " has staged/parked files"))
guard_pending false name = pure tt

unfoldable pub guard_file : PlanEntry → String → Exec (Unit {0})
guard_file entry file_hash =
    if file_hash == entry.file_hash
    then pure tt
    else throw (concurrency_conflict entry.file_hash file_hash)

-- The row against the plan.
unfoldable pub todo_of : PlanEntry → String → Value → String → Option String → Exec Todo
todo_of entry content value file_hash db_hash =
    if is_text db_hash file_hash
    then pure none
    else (if opt_text_eq db_hash entry.db_hash
        then pure (some (content, value, db_hash))
        else throw (concurrency_conflict (no_row entry.db_hash) (no_row db_hash)))

module _ (c : Codec) where
  -- The loop body of the preflight.
  unfoldable pub check_entry : PlanEntry → Exec Todo
  check_entry entry = do
    validate_name entry.name
    guard_valid entry
    pending ← has_pending entry.name
    guard_pending pending entry.name
    content ← read_to_string (json_path entry.name)
    value ← or_throw (c.from_str content) json
    guard_file entry (c.hash content)
    row ← get_meta entry.name
    todo_of entry content value (c.hash content) (hash_of_row row)

  unfoldable pub check_entries : List PlanEntry → Exec (List (PlanEntry × Todo))
  check_entries [] = pure []
  check_entries (entry ∷ entries) = do
    todo ← check_entry entry
    work ← check_entries entries
    pure ((entry, todo) ∷ work)

  abbrev pub adopted_copy : String → String → String
  adopted_copy name time = ((name <> ".") <> time) <> ".adopted.json"

  -- UPDATE or INSERT, by the hash that the preflight saw.
  unfoldable pub adopt_row : Option String → CategoryMeta → Exec (Unit {0})
  adopt_row (some _) m =
      execute (update_category m.name m.content_hash m.updated_at m.updated_by m.size_bytes)
  adopt_row none m = insert_row m

  -- The loop body of the application.
  unfoldable pub adopt_entry : PlanEntry → Todo → Times → Exec (String × AdoptOutcome)
  adopt_entry entry none t = pure (entry.name, already_consistent)
  adopt_entry entry (some (content, value, db_hash)) t = do
    let name = entry.name
    let file_hash = c.hash content
    copy_out (json_path name) (adopted_copy name t.backup_at)
    adopt_row db_hash (new_meta c name content file_hash t.now "recovery")
    execute (insert_version name file_hash (some (adopt_reason db_hash)) "recovery" t.now)
    update_search_index c name value
    mark_dirty c name "upsert" (some file_hash) t
    prune_versions c name
    pure (name, adopted db_hash file_hash (adopted_copy name t.backup_at))

  unfoldable pub adopt_work :
      List (PlanEntry × Todo) → (ℕ → Times) → ℕ → Exec (List (String × AdoptOutcome))
  adopt_work [] clock i = pure []
  adopt_work ((entry, todo) ∷ work) clock i = do
    outcome ← adopt_entry entry todo (clock i)
    outcomes ← adopt_work work clock (i + 1)
    pure (outcome ∷ outcomes)

  unfoldable pub adopt_locked : List PlanEntry → (ℕ → Times) → Exec (List (String × AdoptOutcome))
  adopt_locked entries clock = do
    work ← check_entries entries
    outcomes ← adopt_work work clock 0
    commit
    pure outcomes

  -- `marker` is that of an interrupted restore.
  unfoldable pub adopt_plan :
      Option String → List PlanEntry → (ℕ → Times) → Exec (List (String × AdoptOutcome))
  adopt_plan marker entries clock = do
    guard_restore marker
    transaction (adopt_locked entries clock)

  -- `remove(0)` panics where there is no outcome.
  unfoldable pub first_outcome : List (String × AdoptOutcome) → Exec AdoptOutcome
  first_outcome [] = panic
  first_outcome (o ∷ _) = pure o.1

  unfoldable pub adopt_json : Option String → PlanEntry → (ℕ → Times) → Exec AdoptOutcome
  adopt_json marker entry clock = do
    outcomes ← adopt_plan marker (entry ∷ []) clock
    first_outcome outcomes
