-- ===== src/Store/Progress.antt =====
-- The rows and the file of an upsert of src/store/mod.rs in a process where no access fails.
use mcp_memory_rs.Common.{String, ◌<>◌, ◌≡◌, ◌∙◌, ap, sym, subst, Option, none, some, List, [], ◌∷◌}
use mcp_memory_rs.Common.Map.{find}
use mcp_memory_rs.Json.{Value}
use mcp_memory_rs.Error.{io, other_io}
use mcp_memory_rs.Db.{
  CategoryMeta, IndexRow, insert_category, update_category, insert_version, delete_index,
  insert_index, prune_versions_table,
}
use mcp_memory_rs.World.{Disk, World, got, access, execute, query, write_file, rename}
use mcp_memory_rs.World.Accesses.{Ends-access_with, Ends-query, Ends-rename}
use mcp_memory_rs.World.Completes.{
  Completes, Completes-pure, Completes-attempt, Completes-then, Completes-access,
  Completes-access_with, Completes-query, Completes-execute, Completes-write_file, Completes-rename,
}
use mcp_memory_rs.AtomicJson.{
  Staged, json_path, staged_prefix, copied, torn_copy, copy_bytes, backup_copy, stage,
  fsync_dir_strict, promote, or_missing,
}
use mcp_memory_rs.Codec.{Codec, Times}
use mcp_memory_rs.Store.Rows.{
  insert_absent, insert_row, upsert_row, insert_rows, index_rows, update_search_index, mark_dirty,
  prune_versions, new_meta, stage_rows, stage_local_write,
}

module _ (w : World) (calm : w.faults ≡ []) where
  Completes-backup_copy : (src name time : String) → Completes (backup_copy src name time w)
  unfolding backup_copy copy_bytes
  Completes-backup_copy src name time =
      let dest : String = (name <> ".") <> (time <> ".json") in
      let effect : Disk → Disk = copied dest (find src w.files) in
      let torn : Option String → Disk → Disk = torn_copy dest (find src w.files) in
      Completes-attempt (copy_bytes (find src w.files) dest) _ w
        (Ends-access_with (io other_io) effect torn w.faults w.disk)
        (Completes-access_with w calm (io other_io) effect torn) (λ _ u k _. Completes-pure tt u k)

  Completes-stage : (name suffix content : String) → Completes (stage name suffix content w)
  unfolding stage fsync_dir_strict
  Completes-stage name suffix content =
      Completes-then (write_file (staged_prefix name <> suffix) content) _ w
        (Completes-write_file w calm (staged_prefix name <> suffix) content)
        (λ _ u k.
          Completes-then (access (io other_io) (λ d. d)) _ u
            (Completes-access u k (io other_io) (λ d. d)) (λ _ v k2. Completes-pure _ v k2))

  module _ (c : Codec) where
    -- The row is looked up in the state in which it is written.
    Completes-upsert_row :
        (o : Option CategoryMeta) (m : CategoryMeta)
        → o ≡ find m.name w.db.category
        → Completes (upsert_row c (got o) m w)
    unfolding upsert_row insert_row insert_absent
    Completes-upsert_row (some _) m e =
        Completes-execute w calm
          (update_category m.name m.content_hash m.updated_at m.updated_by m.size_bytes)
    Completes-upsert_row none m e =
        subst (λ o. Completes (insert_absent o m w)) e
          (Completes-execute w calm (insert_category m))

Completes-insert_rows :
    (c : Codec) (rs : List IndexRow) (w : World) → w.faults ≡ [] → Completes (insert_rows c rs w)
unfolding insert_rows
Completes-insert_rows c [] w calm = Completes-pure tt w calm
Completes-insert_rows c (r ∷ rs) w calm =
    Completes-then (execute (insert_index r)) _ w (Completes-execute w calm (insert_index r))
      (λ _ u k. Completes-insert_rows c rs u k)

Completes-update_search_index :
    (c : Codec) (name : String) (value : Value) (w : World)
    → w.faults ≡ []
    → Completes (update_search_index c name value w)
unfolding update_search_index
Completes-update_search_index c name value w calm =
    Completes-then (execute (delete_index name)) _ w (Completes-execute w calm (delete_index name))
      (λ _ u k. Completes-insert_rows c (index_rows c name "" value) u k)

module _ (c : Codec) (name : String) (value : Value) (content at by : String)
    (reason : Option String) (t : Times) where
  Completes-stage_rows :
      (w : World)
      → w.faults ≡ []
      → Completes (stage_rows c name value content (c.hash content) at by reason t w)
  unfolding stage_rows new_meta
  Completes-stage_rows w calm =
      Completes-then (backup_copy (json_path name) name t.backup_at) _ w
        (Completes-backup_copy w calm (json_path name) name t.backup_at)
        (λ _ u k1.
          Completes-then (stage name t.suffix content) _ u
            (Completes-stage u k1 name t.suffix content)
            (λ s v k2.
              Completes-attempt (query (λ d. find name d.category)) _ v
                (Ends-query (λ d. find name d.category) v)
                (Completes-query v k2 (λ d. find name d.category))
                (λ o x k3 (e, q).
                  Completes-then
                    (upsert_row c (got o) (new_meta c name content (c.hash content) at by)) _ x
                    (Completes-upsert_row x k3 c o (new_meta c name content (c.hash content) at by)
                      (q ∙ ap (λ y. find name y.db.category) (sym e)))
                    (λ _ y k4.
                      Completes-then
                        (execute (insert_version name (c.hash content) reason by t.version_at)) _ y
                        (Completes-execute y k4
                          (insert_version name (c.hash content) reason by t.version_at))
                        (λ _ z k5.
                          Completes-then (update_search_index c name value) _ z
                            (Completes-update_search_index c name value z k5)
                            (λ _ a k6. Completes-pure _ a k6))))))

  pub Completes-stage_local_write :
      (w : World)
      → w.faults ≡ []
      → at ≡ t.now
      → Completes (stage_local_write c name value content reason by t w)
  unfolding stage_local_write mark_dirty prune_versions
  Completes-stage_local_write w calm e =
      Completes-then (stage_rows c name value content (c.hash content) t.now by reason t) _ w
        (subst (λ a. Completes (stage_rows c name value content (c.hash content) a by reason t w)) e
          (Completes-stage_rows w calm))
        (λ r u k1.
          Completes-then (mark_dirty c name "upsert" (some (c.hash content)) t) _ u
            (Completes-execute u k1 _)
            (λ _ v k2.
              Completes-then (prune_versions c name) _ v
                (Completes-execute v k2 (prune_versions_table name c.max_versions))
                (λ _ x k3. Completes-pure r x k3)))

-- The staged file is there to be renamed.
pub Completes-promote :
    (s : Staged) (content : String) (w : World)
    → w.faults ≡ []
    → find s.staged w.files ≡ some content
    → Completes (promote s w)
unfolding promote or_missing
Completes-promote s content w calm f =
    Completes-attempt (rename s.staged s.final_path) _ w (Ends-rename s.staged s.final_path w)
      (Completes-rename w calm s.staged s.final_path content f) (λ _ u k _. Completes-pure tt u k)
