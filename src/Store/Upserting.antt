-- ===== src/Store/Upserting.antt =====
-- The rows of an upsert of src/store/mod.rs, statement by statement, against the tables of `Store.Tables`.
use mcp_memory_rs.Common.{
  String, ◌<>◌, ◌≡◌, ◌∙◌, ap, sym, subst, true, Option, none, some, List, [], ◌∷◌, arith,
}
use mcp_memory_rs.Common.Map.{find}
use mcp_memory_rs.Common.Text.{dot_free}
use mcp_memory_rs.Json.{Value}
use mcp_memory_rs.Error.{sqlite}
use mcp_memory_rs.Db.{
  CategoryMeta, Tables, IndexRow, insert_category, update_category, insert_version, delete_index,
  insert_index, set_dirty, prune_versions_table,
}
use mcp_memory_rs.World.{
  pure, ◌>>=◌, ◌>>◌, Disk, World, Attempt, got, threw, attempt, execute, query,
}
use mcp_memory_rs.World.Ends.{
  Ends, Ends-mono, Ends-bind, Ends-pure, Ends-throw, Ends-caught, Attempted,
}
use mcp_memory_rs.World.Accesses.{Ends-execute, Ends-query}
use mcp_memory_rs.AtomicJson.{Staged, staged_prefix, json_path, backup_copy, stage}
use mcp_memory_rs.Codec.{Codec, Times}
use mcp_memory_rs.Store.Rows.{
  insert_absent, insert_row, upsert_row, insert_rows, index_rows, update_search_index, mark_dirty,
  prune_versions, new_meta, stage_rows, stage_local_write,
}
use mcp_memory_rs.Store.Settle.{Clean}
use mcp_memory_rs.Store.Tables.{
  upsert_category, insert_all, upserted_tables, dirty_row, written_tables,
}
use mcp_memory_rs.Store.Staging.{Before, Staging, staged_at, Ends-stage, Ends-backup_copy}

module _ (hash : String → String) (n : String) (s0 : Tables) (path content : String) where
  abbrev StagedWith : Tables → Disk → Type 0
  StagedWith t d = Staging hash n s0 path content t d

  -- A statement in the open transaction.
  pub Ends-execute_staging :
      (f : Tables → Tables) (t : Tables) (w : World)
      → StagedWith t w.disk
      → Ends (λ _ d. StagedWith (f t) d) (λ _ d. Before hash s0 d) (execute f w)
  Ends-execute_staging f t w g =
      Ends-mono
        (λ _ d e. subst (StagedWith (f t)) (sym e) (record {
          before = record {
            recoverable = record {
              is_listed = g.before.recoverable.is_listed;
              healthy = g.before.recoverable.healthy;
            };
            saved_is = g.before.saved_is;
          };
          is_staged_path = g.is_staged_path;
          found = g.found;
          unparked = g.unparked;
          db_is = ap f g.db_is;
        }))
        (λ _ d e. subst (Before hash s0) (sym e) g.before) (Ends-execute f w)

  Ends-insert_absent :
      (o : Option CategoryMeta) (m : CategoryMeta) (t : Tables) (w : World)
      → o ≡ find m.name t.category
      → StagedWith t w.disk
      → Ends
          (λ _ d. StagedWith (upsert_category m t) d)
          (λ _ d. Before hash s0 d)
          (insert_absent o m w)
  unfolding insert_absent
  Ends-insert_absent (some _) m t w e g = Ends-throw sqlite w g.before
  Ends-insert_absent none m t w e g =
      let q : upsert_category m t ≡ insert_category m t = unfold upsert_category in ground arith in
      rw q (Ends-execute_staging (insert_category m) t w g)

  Ends-insert_row :
      (m : CategoryMeta) (t : Tables) (w : World)
      → StagedWith t w.disk
      → Ends (λ _ d. StagedWith (upsert_category m t) d) (λ _ d. Before hash s0 d) (insert_row m w)
  unfolding insert_row
  Ends-insert_row m t w g =
      Ends-insert_absent (find m.name w.db.category) m t w
        (ap (λ x. find m.name x.category) g.db_is) g

  -- What the query for the old row says.
  abbrev Asked : String → Tables → Attempt (Option CategoryMeta) → Type 0
  Asked n t (got o) = o ≡ find n t.category
  Asked n t (threw _) = Unit

  Ends-upsert_row :
      (c : Codec) (r : Attempt (Option CategoryMeta)) (m : CategoryMeta) (t : Tables) (w : World)
      → Asked m.name t r
      → StagedWith t w.disk
      → Ends
          (λ _ d. StagedWith (upsert_category m t) d)
          (λ _ d. Before hash s0 d)
          (upsert_row c r m w)
  unfolding upsert_row
  Ends-upsert_row c (got (some row)) m t w a g =
      let q : upsert_category m t
          ≡ update_category m.name m.content_hash m.updated_at m.updated_by m.size_bytes t =
        unfold upsert_category in ground arith in
      rw q (
        Ends-execute_staging
          (update_category m.name m.content_hash m.updated_at m.updated_by m.size_bytes) t w g)
  Ends-upsert_row c (got none) m t w a g = Ends-insert_row m t w g
  Ends-upsert_row c (threw _) m t w a g = Ends-insert_row m t w g

  Asked-Attempted :
      (m : String) (t : Tables) (r : Attempt (Option CategoryMeta)) (d d' : Disk)
      → StagedWith t d
      → Attempted (λ o x. (x ≡ d) × (o ≡ find m d.db.category)) (λ _ x. x ≡ d) r d'
      → Asked m t r × StagedWith t d'
  Asked-Attempted m t (got o) d d' g (e, q) =
      (q ∙ ap (λ x. find m x.category) g.db_is, subst (StagedWith t) (sym e) g)
  Asked-Attempted m t (threw _) d d' g e = (tt, subst (StagedWith t) (sym e) g)

  Ends-Asked :
      (m : String) (t : Tables) (w : World)
      → StagedWith t w.disk
      → Ends
          (λ r d. Asked m t r × StagedWith t d)
          (λ _ d. Before hash s0 d)
          (attempt (query (λ d. find m d.category)) w)
  Ends-Asked m t w g =
      Ends-mono (λ r d h. Asked-Attempted m t r w.disk d g h) (λ _ d h. h)
        (Ends-caught (λ o x. (x ≡ w.disk) × (o ≡ find m w.db.category)) (λ _ x. x ≡ w.disk)
          (λ _ x. Before hash s0 x) (query (λ d. find m d.category)) w
          (Ends-query (λ d. find m d.category) w) (λ x e. subst (Before hash s0) (sym e) g.before))

  Ends-insert_rows :
      (c : Codec) (rs : List IndexRow) (t : Tables) (w : World)
      → StagedWith t w.disk
      → Ends (λ _ d. StagedWith (insert_all rs t) d) (λ _ d. Before hash s0 d) (insert_rows c rs w)
  unfolding insert_rows
  Ends-insert_rows c [] t w g = Ends-pure tt w g
  Ends-insert_rows c (r ∷ rs) t w g =
      Ends-bind (execute (insert_index r)) _ w (Ends-execute_staging (insert_index r) t w g)
        (λ _ u g'. Ends-insert_rows c rs (insert_index r t) u g')

module _ (c : Codec) (n : String) (dn : dot_free n ≡ true) (s0 : Tables) (value : Value)
    (content at by : String) (reason : Option String) (t : Times) where
  abbrev pub path : String
  path = staged_prefix n <> t.suffix

  abbrev pub meta : CategoryMeta
  meta = new_meta c n content (c.hash content) at by

  abbrev pub upserted : Tables
  upserted = upserted_tables c meta value reason t.version_at s0

  abbrev StagedNow : Tables → Disk → Type 0
  StagedNow s d = Staging c.hash n s0 path content s d

  abbrev with_version : Tables
  with_version = insert_version n (c.hash content) reason by t.version_at (upsert_category meta s0)

  Ends-update_search_index :
      (s : Tables) (w : World)
      → StagedNow s w.disk
      → Ends
          (λ _ d. StagedNow (insert_all (index_rows c n "" value) (delete_index n s)) d)
          (λ _ d. Before c.hash s0 d)
          (update_search_index c n value w)
  unfolding update_search_index
  Ends-update_search_index s w g =
      Ends-bind (execute (delete_index n)) _ w
        (Ends-execute_staging c.hash n s0 path content (delete_index n) s w g)
        (λ _ u g'.
          Ends-insert_rows c.hash n s0 path content c (index_rows c n "" value) (delete_index n s) u
            g')

  -- The rows, once the file is staged.
  abbrev RowsWritten : CategoryMeta × Staged → Disk → Type 0
  RowsWritten r d = (r ≡ (meta, staged_at c n dn s0 t.suffix)) × StagedNow upserted d

  Ends-rows :
      (s : Staged) (w : World)
      → s ≡ staged_at c n dn s0 t.suffix
      → StagedNow s0 w.disk
      → Ends RowsWritten
          (λ _ d. Before c.hash s0 d)
          ((do
            existing ← attempt (query (λ d. find n d.category))
            upsert_row c existing meta
            execute (insert_version n (c.hash content) reason by t.version_at)
            update_search_index c n value
            pure (meta, s))
            w)
  unfolding new_meta
  Ends-rows s w e g =
      Ends-bind (attempt (query (λ d. find n d.category))) _ w
        (Ends-Asked c.hash n s0 path content n s0 w g)
        (λ r u (a, g2).
          Ends-bind (upsert_row c r meta) _ u
            (Ends-upsert_row c.hash n s0 path content c r meta s0 u a g2)
            (λ _ v g3.
              Ends-bind (execute (insert_version n (c.hash content) reason by t.version_at)) _ v
                (Ends-execute_staging c.hash n s0 path content
                  (insert_version n (c.hash content) reason by t.version_at)
                  (upsert_category meta s0) v g3)
                (λ _ x g4.
                  Ends-bind (update_search_index c n value) _ x
                    (Ends-update_search_index with_version x g4)
                    (λ _ y g5. Ends-pure (meta, s) y (ap (λ s. (meta, s)) e, g5)))))

  -- Where `stage_rows` returns, the file is staged and the tables are those of the upsert; whatever
  -- fails, the committed content is still there.
  pub Ends-stage_rows :
      (w : World)
      → Clean c n dn s0 w.disk
      → Ends
          (λ r d.
            (r ≡ (meta, staged_at c n dn s0 t.suffix))
            × Staging c.hash n s0 path content upserted d)
          (λ _ d. Before c.hash s0 d)
          (stage_rows c n value content (c.hash content) at by reason t w)
  unfolding stage_rows
  Ends-stage_rows w k =
      Ends-bind (backup_copy (json_path n) n t.backup_at) _ w
        (Ends-backup_copy c n dn s0 (json_path n) t.backup_at w k)
        (λ _ u k0.
          Ends-bind (stage n t.suffix content) _ u (Ends-stage c n dn s0 t.suffix content u k0)
            (λ s v (e, g). Ends-rows s v e g))

  abbrev pub written : Tables
  written = written_tables c meta value reason t.version_at t.marked_at s0

  -- The same of a local write, which also marks the category dirty and prunes its versions.
  pub Ends-stage_local_write :
      (w : World)
      → Clean c n dn s0 w.disk
      → at ≡ t.now
      → Ends
          (λ r d.
            (r ≡ (meta, staged_at c n dn s0 t.suffix)) × Staging c.hash n s0 path content written d)
          (λ _ d. Before c.hash s0 d)
          (stage_local_write c n value content reason by t w)
  unfolding stage_local_write mark_dirty prune_versions new_meta
  Ends-stage_local_write w k e =
      Ends-bind (stage_rows c n value content (c.hash content) t.now by reason t) _ w
        (subst
          (λ a.
            Ends RowsWritten (λ _ d. Before c.hash s0 d)
              (stage_rows c n value content (c.hash content) a by reason t w))
          e (Ends-stage_rows w k))
        (λ r u (q, g).
          Ends-bind (mark_dirty c n "upsert" (some (c.hash content)) t) _ u
            (Ends-execute_staging c.hash n s0 path content
              (set_dirty (dirty_row c meta t.marked_at)) upserted u g)
            (λ _ v g'.
              Ends-bind (prune_versions c n) _ v
                (Ends-execute_staging c.hash n s0 path content
                  (prune_versions_table n c.max_versions) _ v g')
                (λ _ x g2. Ends-pure r x (q, g2))))
