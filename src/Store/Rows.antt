-- ===== src/Store/Rows.antt =====
-- The rows that an upsert writes inside the open transaction: `stage_rows`, `update_search_index`,
-- `mark_dirty` and `prune_versions` of src/store/mod.rs.
use mcp_memory_rs.Common.{
  ℕ, ◌+◌, String, ◌<>◌, Option, none, some, List, [], ◌∷◌, ◌++◌, ◌==◌, if◌then◌else◌,
}
use mcp_memory_rs.Common.Decimal.{decimal}
use mcp_memory_rs.Common.Map.{find}
use Prim.Native.String.{len}
use mcp_memory_rs.Json.{Value, number, text, array, object, Items, nil, cons, Fields, end, field}
use mcp_memory_rs.Error.{sqlite}
use mcp_memory_rs.Db.{
  CategoryMeta, IndexRow, insert_category, update_category, insert_version, delete_index,
  insert_index, set_dirty, prune_versions_table,
}
use mcp_memory_rs.World.{
  Exec, pure, throw, ◌>>=◌, ◌>>◌, Attempt, got, threw, attempt, query, execute,
}
use mcp_memory_rs.AtomicJson.{Staged, json_path, backup_copy, stage}
use mcp_memory_rs.Codec.{Codec, Times}

-- An INSERT is refused where the row is there already (PRIMARY KEY).
unfoldable pub insert_absent : Option CategoryMeta → CategoryMeta → Exec (Unit {0})
insert_absent (some _) m = throw sqlite
insert_absent none m = execute (insert_category m)

unfoldable pub insert_row : CategoryMeta → Exec (Unit {0})
insert_row m w = insert_absent (find m.name w.db.category) m w

abbrev child_path : String → String → String
child_path path k = if path == "" then k else (path <> ".") <> k

module _ (c : Codec) where
  -- The rows of `index_recursive`, in the order of its statements.
  unfoldable mutual
    pub index_rows : String → String → Value → List IndexRow
    index_rows category path (text s) =
        if s == ""
        then []
        else record { category_name = category; key_path = path; value_text = s } ∷ []
    index_rows category path (number n) =
        record { category_name = category; key_path = path; value_text = c.number_text n } ∷ []
    index_rows category path (object m) = index_fields category path m
    index_rows category path (array xs) = index_items category path 0 xs
    index_rows category path v = []

    pub index_fields : String → String → Fields → List IndexRow
    index_fields category path end = []
    index_fields category path (field k v m) =
        index_rows category (child_path path k) v ++ index_fields category path m

    pub index_items : String → String → ℕ → Items → List IndexRow
    index_items category path i nil = []
    index_items category path i (cons v xs) =
        index_rows category ((path <> "[") <> (decimal i <> "]")) v
        ++ index_items category path (i + 1) xs

  unfoldable pub insert_rows : List IndexRow → Exec (Unit {0})
  insert_rows [] = pure tt
  insert_rows (r ∷ rs) = do execute (insert_index r); insert_rows rs

  unfoldable pub update_search_index : String → Value → Exec (Unit {0})
  update_search_index name value = do
    execute (delete_index name)
    insert_rows (index_rows name "" value)

  unfoldable pub mark_dirty : String → String → Option String → Times → Exec (Unit {0})
  mark_dirty name operation content_hash t = execute (
      set_dirty (record {
        category_name = name;
        operation = operation;
        content_hash = content_hash;
        marked_at = t.marked_at;
      }))

  unfoldable pub prune_versions : String → Exec (Unit {0})
  prune_versions name = execute (prune_versions_table name c.max_versions)

  -- `.ok()` drops an error of the query: the row then counts as absent.
  unfoldable pub upsert_row : Attempt (Option CategoryMeta) → CategoryMeta → Exec (Unit {0})
  upsert_row (got (some _)) m =
      execute (update_category m.name m.content_hash m.updated_at m.updated_by m.size_bytes)
  upsert_row (got none) m = insert_row m
  upsert_row (threw _) m = insert_row m

  unfoldable pub new_meta : String → String → String → String → String → CategoryMeta
  new_meta name json_str content_hash updated_at updated_by = record {
    name = name;
    namespace = "default";
    content_hash = content_hash;
    updated_at = updated_at;
    updated_by = updated_by;
    write_policy = "device";
    size_bytes = len json_str;
  }

  unfoldable pub stage_rows :
      String
      → Value
      → String
      → String
      → String
      → String
      → Option String
      → Times
      → Exec (CategoryMeta × Staged)
  stage_rows name value json_str content_hash updated_at updated_by reason t = do
    let meta = new_meta name json_str content_hash updated_at updated_by
    backup_copy (json_path name) name t.backup_at
    staged ← stage name t.suffix json_str
    existing ← attempt (query (λ d. find name d.category))
    upsert_row existing meta
    execute (insert_version name content_hash reason updated_by t.version_at)
    update_search_index name value
    pure (meta, staged)

  unfoldable pub stage_local_write :
      String → Value → String → Option String → String → Times → Exec (CategoryMeta × Staged)
  stage_local_write name value json_str reason actor t = do
    let content_hash = c.hash json_str
    r ← stage_rows name value json_str content_hash t.now actor reason t
    mark_dirty name "upsert" (some content_hash) t
    prune_versions name
    pure r
