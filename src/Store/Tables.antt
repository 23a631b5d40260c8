-- ===== src/Store/Tables.antt =====
-- The tables after an upsert of src/store/mod.rs, as a function of those before it, without the order of
-- the statements, the errors and the files.
use mcp_memory_rs.Common.{
  String, ◌≡◌, ◌≢◌, refl, ◌∙◌, ap, Option, none, some, List, [], ◌∷◌, arith, Option-cases, inl, inr,
}
use mcp_memory_rs.Common.Map.{find, put, find-put_self, find-put_ne}
use mcp_memory_rs.Json.{Value}
use mcp_memory_rs.Db.{
  CategoryMeta, Tables, IndexRow, DirtyEntry, insert_category, update_category, insert_version,
  delete_index, insert_index, set_dirty, prune_versions_table,
}
use mcp_memory_rs.Codec.{Codec}
use mcp_memory_rs.Store.Rows.{index_rows}

-- The row is there with the given hash, and every other category is as before.
pub record RowSet (n h : String) (s0 s1 : Tables) : Type 0 where
  pub row : CategoryMeta
  pub found : find n s1.category ≡ some row
  pub has_hash : row.content_hash ≡ h
  pub others : (m : String) → m ≢ n → find m s1.category ≡ find m s0.category

unfoldable pub upsert_category : CategoryMeta → Tables → Tables
upsert_category m t = elim (find m.name t.category) [
  | none ↦ insert_category m t
  | some _ ↦ update_category m.name m.content_hash m.updated_at m.updated_by m.size_bytes t
]

abbrev pub insert_all : List IndexRow → Tables → Tables
insert_all [] t = t
insert_all (r ∷ rs) t = insert_all rs (insert_index r t)

module _ (c : Codec) where
  -- After `stage_rows`.
  abbrev pub upserted_tables : CategoryMeta → Value → Option String → String → Tables → Tables
  upserted_tables m value reason version_at t = insert_all (index_rows c m.name "" value) (
      delete_index m.name
        (insert_version m.name m.content_hash reason m.updated_by version_at (upsert_category m t)))

  abbrev pub dirty_row : CategoryMeta → String → DirtyEntry
  dirty_row m marked_at = record {
    category_name = m.name;
    operation = "upsert";
    content_hash = some m.content_hash;
    marked_at = marked_at;
  }

  -- After `stage_local_write`.
  abbrev pub written_tables :
      CategoryMeta → Value → Option String → String → String → Tables → Tables
  written_tables m value reason version_at marked_at t =
      prune_versions_table m.name c.max_versions
        (set_dirty (dirty_row m marked_at) (upserted_tables m value reason version_at t))

RowSet-put :
    (n : String) (row : CategoryMeta) (s0 s1 : Tables)
    → s1.category ≡ put n row s0.category
    → RowSet n row.content_hash s0 s1
RowSet-put n row s0 s1 e = record {
  row = row;
  found = ap (find n) e ∙ find-put_self n row s0.category;
  has_hash = refl;
  others = λ k ne. ap (find k) e ∙ find-put_ne k n row s0.category ne;
}

abbrev updated : CategoryMeta → CategoryMeta → CategoryMeta
updated m row = record row {
  content_hash = m.content_hash;
  updated_at = m.updated_at;
  updated_by = m.updated_by;
  size_bytes = m.size_bytes;
}

module _ (m : CategoryMeta) (t : Tables) where
  category-upsert_absent :
      find m.name t.category ≡ none → (upsert_category m t).category ≡ put m.name m t.category
  unfolding upsert_category insert_category
  category-upsert_absent e = ground arith

  category-upsert_present :
      (row : CategoryMeta)
      → find m.name t.category ≡ some row
      → (upsert_category m t).category ≡ put m.name (updated m row) t.category
  unfolding upsert_category update_category
  category-upsert_present row e = ground arith

  pub RowSet-upsert_category : RowSet m.name m.content_hash t (upsert_category m t)
  RowSet-upsert_category = elim (Option-cases (find m.name t.category)) [
    | inl e ↦ RowSet-put m.name m t _ (category-upsert_absent e)
    | inr (row, e) ↦ RowSet-put m.name (updated m row) t _ (category-upsert_present row e)
  ]

-- A change to other tables.
pub RowSet-frame :
    (n h : String) (s0 s1 s2 : Tables)
    → s2.category ≡ s1.category
    → RowSet n h s0 s1
    → RowSet n h s0 s2
RowSet-frame n h s0 s1 s2 e r = record {
  row = r.row;
  found = ap (find n) e ∙ r.found;
  has_hash = r.has_hash;
  others = λ m ne. ap (find m) e ∙ r.others m ne;
}

category-insert_all : (rs : List IndexRow) (t : Tables) → (insert_all rs t).category ≡ t.category
unfolding insert_index
category-insert_all [] t = refl
category-insert_all (r ∷ rs) t = category-insert_all rs (insert_index r t)

sync_dirty-insert_all :
    (rs : List IndexRow) (t : Tables) → (insert_all rs t).sync_dirty ≡ t.sync_dirty
unfolding insert_index
sync_dirty-insert_all [] t = refl
sync_dirty-insert_all (r ∷ rs) t = sync_dirty-insert_all rs (insert_index r t)

sync_dirty-upsert_category :
    (m : CategoryMeta) (t : Tables) → (upsert_category m t).sync_dirty ≡ t.sync_dirty
unfolding upsert_category insert_category update_category
sync_dirty-upsert_category m t = elim (Option-cases (find m.name t.category)) [
  | inl e ↦ ground arith
  | inr (row, e) ↦ ground arith
]

module _ (c : Codec) (m : CategoryMeta) (value : Value) (reason : Option String)
    (version_at : String) (t : Tables) where
  pub RowSet-upserted_tables :
      RowSet m.name m.content_hash t (upserted_tables c m value reason version_at t)
  unfolding delete_index insert_version
  RowSet-upserted_tables =
      RowSet-frame m.name m.content_hash t (upsert_category m t) _
        (category-insert_all (index_rows c m.name "" value) _) (RowSet-upsert_category m t)

  pub RowSet-written_tables :
      (marked_at : String)
      → RowSet m.name m.content_hash t (written_tables c m value reason version_at marked_at t)
  unfolding prune_versions_table set_dirty
  RowSet-written_tables marked_at =
      RowSet-frame m.name m.content_hash t (upserted_tables c m value reason version_at t) _ refl
        RowSet-upserted_tables

  pub sync_dirty-upserted_tables :
      (upserted_tables c m value reason version_at t).sync_dirty ≡ t.sync_dirty
  unfolding delete_index insert_version
  sync_dirty-upserted_tables =
      sync_dirty-insert_all (index_rows c m.name "" value) _ ∙ sync_dirty-upsert_category m t
