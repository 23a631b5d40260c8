-- ===== src/Recovery/Entry.antt =====
-- The statements and the copy of one entry in `adopt_plan` of src/store/recovery.rs.
use mcp_memory_rs.Common.{
  String, ◌≡◌, ◌≢◌, refl, ◌∙◌, ap, sym, subst, Option, none, some, List, [], ◌∷◌, arith,
}
use mcp_memory_rs.Common.Map.{Map, find}
use mcp_memory_rs.Json.{Value}
use mcp_memory_rs.Error.{io, other_io, sqlite}
use mcp_memory_rs.Db.{
  CategoryMeta, IndexRow, Tables, hash_of_row, insert_category, update_category, insert_version,
  delete_index, insert_index, set_dirty, prune_versions_table,
}
use mcp_memory_rs.World.{Disk, World, pure, ◌>>◌, execute}
use mcp_memory_rs.World.Ends.{Ends, Ends-mono, Ends-bind, Ends-pure, Ends-throw}
use mcp_memory_rs.World.Accesses.{Ends-access_with, Ends-execute}
use mcp_memory_rs.AtomicJson.{copied, torn_copy, copy_bytes, copy_found}
use mcp_memory_rs.Codec.{Codec, Times}
use mcp_memory_rs.Store.Rows.{
  insert_absent, insert_row, insert_rows, index_rows, update_search_index, mark_dirty,
  prune_versions,
}
use mcp_memory_rs.Store.Tables.{RowSet, RowSet-upsert_category, upsert_category}
use mcp_memory_rs.Recovery.Adopt.{AdoptOutcome, adopt_row}
use mcp_memory_rs.Recovery.Checking.{Open, Undone, Undone-Open}

module _ (c : Codec) (f0 : Map String) (s0 : Tables) where
  abbrev pub Opened : Map CategoryMeta → Disk → Type 0
  Opened k d = Open c f0 s0 k d

  abbrev pub GivenUp : Disk → Type 0
  GivenUp d = Undone c f0 s0 d

  Ends-execute-Open :
      (f : Tables → Tables) (k : Map CategoryMeta) (w : World)
      → Opened k w.disk
      → Ends (λ _ d. Opened (f w.db).category d) (λ _ d. GivenUp d) (execute f w)
  Ends-execute-Open f k w o =
      Ends-mono
        (λ _ d e. subst (Opened (f w.db).category) (sym e) (record {
          files_are = o.files_are;
          saved_is = o.saved_is;
          is_listed = o.is_listed;
          rows_are = refl;
        }))
        (λ _ d e. subst GivenUp (sym e) (Undone-Open c f0 s0 w.disk o)) (Ends-execute f w)

  -- A statement on another table.
  Ends-execute_other :
      (f : Tables → Tables) (k : Map CategoryMeta) (w : World)
      → ((t : Tables) → (f t).category ≡ t.category)
      → Opened k w.disk
      → Ends (λ _ d. Opened k d) (λ _ d. GivenUp d) (execute f w)
  Ends-execute_other f k w same o =
      subst (λ k. Ends (λ _ d. Opened k d) (λ _ d. GivenUp d) (execute f w))
        (same w.db ∙ o.rows_are) (Ends-execute-Open f k w o)

  Ends-insert_rows :
      (rows : List IndexRow) (k : Map CategoryMeta) (w : World)
      → Opened k w.disk
      → Ends (λ _ d. Opened k d) (λ _ d. GivenUp d) (insert_rows c rows w)
  unfolding insert_rows insert_index
  Ends-insert_rows [] k w o = Ends-pure tt w o
  Ends-insert_rows (r ∷ rows) k w o =
      Ends-bind (execute (insert_index r)) _ w
        (Ends-execute_other (insert_index r) k w (λ t. refl) o)
        (λ _ u o'. Ends-insert_rows rows k u o')

  -- The statements after that on the row.
  pub Ends-adopted_rows :
      (name file_hash : String) (reason : Option String) (value : Value) (t : Times)
      (o : String × AdoptOutcome) (k : Map CategoryMeta) (w : World)
      → Opened k w.disk
      → Ends
          (λ x d. (x ≡ o) × Opened k d)
          (λ _ d. GivenUp d)
          ((do
            execute (insert_version name file_hash reason "recovery" t.now)
            update_search_index c name value
            mark_dirty c name "upsert" (some file_hash) t
            prune_versions c name
            pure o)
            w)
  unfolding insert_version delete_index set_dirty prune_versions_table update_search_index
      mark_dirty prune_versions
  Ends-adopted_rows name file_hash reason value t o k w opened =
      Ends-bind (execute (insert_version name file_hash reason "recovery" t.now)) _ w
        (Ends-execute_other _ k w (λ t. refl) opened)
        (λ _ w1 o1.
          Ends-bind (update_search_index c name value) _ w1
            (Ends-bind (execute (delete_index name)) _ w1 (Ends-execute_other _ k w1 (λ t. refl) o1)
              (λ _ u o'. Ends-insert_rows (index_rows c name "" value) k u o'))
            (λ _ w2 o2.
              Ends-bind (mark_dirty c name "upsert" (some file_hash) t) _ w2
                (Ends-execute_other _ k w2 (λ t. refl) o2)
                (λ _ w3 o3.
                  Ends-bind (prune_versions c name) _ w3 (Ends-execute_other _ k w3 (λ t. refl) o3)
                    (λ _ w4 o4. Ends-pure o w4 (refl, o4)))))

  -- The row of one category has the hash, and the others are as they were.
  pub record Moved (n h : String) (k k' : Map CategoryMeta) : Type 0 where
    pub found : hash_of_row (find n k') ≡ some h
    pub others : (m : String) → m ≢ n → find m k' ≡ find m k

  abbrev Rowed : CategoryMeta → Map CategoryMeta → Disk → Type 0
  Rowed m k d = (k' : Map CategoryMeta) × Opened k' d × Moved m.name m.content_hash k k'

  Moved-upsert_category :
      (m : CategoryMeta) (t : Tables) (k : Map CategoryMeta)
      → t.category ≡ k
      → Moved m.name m.content_hash k (upsert_category m t).category
  Moved-upsert_category m t k e =
      let set : RowSet m.name m.content_hash t (upsert_category m t) = RowSet-upsert_category m t in
      record {
        found = ap hash_of_row set.found ∙ ap (λ h. some h) set.has_hash;
        others = λ j ne. set.others j ne ∙ ap (λ x. find j x) e;
      }

  Ends-upserted :
      (f : Tables → Tables) (m : CategoryMeta) (k : Map CategoryMeta) (w : World)
      → upsert_category m w.db ≡ f w.db
      → Opened k w.disk
      → Ends (λ _ d. Rowed m k d) (λ _ d. GivenUp d) (execute f w)
  Ends-upserted f m k w q o =
      Ends-mono
        (λ _ d x. (
          (f w.db).category,
          x,
          subst (λ t. Moved m.name m.content_hash k t.category) q
              (Moved-upsert_category m w.db k o.rows_are),
        ))
        (λ _ d x. x) (Ends-execute-Open f k w o)

  Ends-insert_absent :
      (old : Option CategoryMeta) (m : CategoryMeta) (k : Map CategoryMeta) (w : World)
      → old ≡ find m.name w.db.category
      → Opened k w.disk
      → Ends (λ _ d. Rowed m k d) (λ _ d. GivenUp d) (insert_absent old m w)
  unfolding insert_absent upsert_category
  Ends-insert_absent (some _) m k w e o = Ends-throw sqlite w (Undone-Open c f0 s0 w.disk o)
  Ends-insert_absent none m k w e o = Ends-upserted (insert_category m) m k w (ground arith) o

  pub Ends-adopt_row :
      (db_hash : Option String) (m : CategoryMeta) (k : Map CategoryMeta) (w : World)
      → ((h : String) → db_hash ≡ some h → (row : CategoryMeta) × (find m.name k ≡ some row))
      → Opened k w.disk
      → Ends (λ _ d. Rowed m k d) (λ _ d. GivenUp d) (adopt_row c db_hash m w)
  unfolding adopt_row insert_row upsert_category
  Ends-adopt_row none m k w has o = Ends-insert_absent (find m.name w.db.category) m k w refl o
  Ends-adopt_row (some h) m k w has o =
      let (row, found) = has h refl in
      let found' : find m.name w.db.category ≡ some row =
        ap (λ x. find m.name x) o.rows_are ∙ found in
      Ends-upserted (update_category m.name m.content_hash m.updated_at m.updated_by m.size_bytes) m
        k w (ground arith) o

  copied-files :
      (dest content : String) (d : Disk) (k : Map CategoryMeta)
      → Opened k d
      → Opened k (copied dest (some content) d)
  copied-files dest content d k o = record {
    files_are = o.files_are;
    saved_is = o.saved_is;
    is_listed = o.is_listed;
    rows_are = o.rows_are;
  }

  Undone-copied :
      (dest : String) (t : Option String) (k : Map CategoryMeta) (d : Disk)
      → Opened k d
      → GivenUp (copied dest t d)
  Undone-copied dest none k d o = Undone-Open c f0 s0 d o
  Undone-copied dest (some t) k d o =
      Undone-Open c f0 s0 (copied dest (some t) d) (copied-files dest t d k o)

  pub Ends-copy_found :
      (found : Option String) (dest : String) (k : Map CategoryMeta) (w : World)
      → Opened k w.disk
      → Ends (λ _ d. Opened k d) (λ _ d. GivenUp d) (copy_found found dest w)
  unfolding copy_found copy_bytes
  Ends-copy_found none dest k w o = Ends-throw _ w (Undone-Open c f0 s0 w.disk o)
  Ends-copy_found (some content) dest k w o =
      Ends-mono (λ _ d e. subst (Opened k) (sym e) (copied-files dest content w.disk k o))
        (λ _ d e. subst GivenUp (sym e.0.1) (Undone-copied dest e.0.0 k w.disk o))
        (Ends-access_with (io other_io) (copied dest (some content)) (torn_copy dest (some content))
          w.faults w.disk)
