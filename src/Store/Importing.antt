-- ===== src/Store/Importing.antt =====
-- `upsert_synced_category` of src/store/mod.rs, and what it shares with `import_category`.
pub mod Local
use mcp_memory_rs.Common.{
  String, ◌≡◌, ◌∙◌, ap, sym, subst, Bool, true, false, Option, some, ◌⊎◌, ◌==◌, eq_iff, Bool-cases,
  arith,
}
use mcp_memory_rs.Common.Map.{find}
use mcp_memory_rs.Common.Text.{dot_free}
use mcp_memory_rs.Json.{Value}
use mcp_memory_rs.Log.{is_log}
use mcp_memory_rs.Error.{kind_mismatch}
use mcp_memory_rs.Db.{CategoryMeta, Tables, set_state}
use mcp_memory_rs.World.{Disk, World, Exec, pure, ◌>>=◌, ◌>>◌, commit}
use mcp_memory_rs.World.Ends.{Fault, Ends, Ends-mono, Ends-bind, Ends-pure, Ends-throw}
use mcp_memory_rs.World.Accesses.{Back}
use mcp_memory_rs.AtomicJson.{validate_name, promote}
use mcp_memory_rs.AtomicJson.Recoverable.{Recoverable}
use mcp_memory_rs.Codec.{Codec, Times}
use mcp_memory_rs.Store.Read.{get_meta, current_value, is_log_category}
use mcp_memory_rs.Store.Rows.{new_meta, stage_rows}
use mcp_memory_rs.Store.Write.{remote_hash_key}
use mcp_memory_rs.Store.Remote.{
  reason_text, alias_value, import_current, refuse_log, clobbers_log, import_category,
}
use mcp_memory_rs.Store.Settle.{Clean}
use mcp_memory_rs.Store.Tables.{RowSet, RowSet-upserted_tables}
use mcp_memory_rs.Store.Staging.{Before, Staging, staged_at}
use mcp_memory_rs.Store.Upserting.{path, meta, upserted, Ends-stage_rows}
use mcp_memory_rs.Store.Landing.{Atomic, Landed, Atomic-Before, Ends-land}
use mcp_memory_rs.Store.Locked.{Basis, Ends-get_meta, GoneBack-Clean}

module _ (c : Codec) (n : String) (dn : dot_free n ≡ true) (value : Value) (by : String)
    (t : Times) where
  abbrev pub content : String
  content = c.to_string_pretty value

  -- The row that an upsert sets, at the given date.
  abbrev pub row_at : String → Option String → Tables → CategoryMeta
  row_at at reason s0 = meta c n dn s0 value content at by reason t

  abbrev pub rows_at : String → Option String → Tables → Tables
  rows_at at reason s0 = upserted c n dn s0 value content at by reason t

  pub RowSet-rows_at :
      (at : String) (reason : Option String) (s0 : Tables)
      → RowSet n (c.hash content) s0 (rows_at at reason s0)
  unfolding new_meta
  RowSet-rows_at at reason s0 =
      RowSet-upserted_tables c (row_at at reason s0) value reason t.version_at s0

  -- The rows of an upsert, with more statements `rest` after them, to the end.
  pub Ends-upsert_through :
      (at : String) (reason : Option String) (s0 s1 : Tables) (New : Tables → Type 0)
      (rest : Exec (Unit {0})) (u : World)
      → Clean c n dn s0 u.disk
      → RowSet n (c.hash content) s0 s1
      → New s1
      → ((v : World)
          → Staging c.hash n s0
              (path c n dn s0 value content at by reason t)
              content
              (rows_at at reason s0)
              v.disk
          → Ends
              (λ _ d.
                Staging c.hash n s0 (path c n dn s0 value content at by reason t) content s1 d)
              (λ _ d. Before c.hash s0 d)
              (rest v))
      → Ends
          (λ x d. (x ≡ row_at at reason s0) × Landed c.hash n content s1 (Back d))
          (λ _ d. Atomic c.hash s0 New (Back d))
          ((do
            r ← stage_rows c n value content (c.hash content) at by reason t
            rest
            commit
            promote r.1
            pure r.0)
            u)
  Ends-upsert_through at reason s0 s1 New rest u k set new more =
      let m = row_at at reason s0 in
      let back : (d : Disk) → Before c.hash s0 d → Atomic c.hash s0 New (Back d) =
        Atomic-Before c.hash s0 New in
      Ends-bind (stage_rows c n value content (c.hash content) at by reason t) _ u
        (Ends-mono (λ _ d h. h) (λ _ d b. back d b)
          (Ends-stage_rows c n dn s0 value content at by reason t u k))
        (λ r v (e, g).
          subst
            (λ r.
              Ends (λ x d. (x ≡ m) × Landed c.hash n content s1 (Back d))
                (λ _ d. Atomic c.hash s0 New (Back d)) ((do rest; commit; promote r.1; pure r.0) v))
            (sym e)
            (Ends-bind rest _ v (Ends-mono (λ _ d h. h) (λ _ d b. back d b) (more v g)) (λ _ x h.
              Ends-land c.hash n dn s0 s1 (path c n dn s0 value content at by reason t) content set
                New new m x h)))

  module _ (remote_hash at text : String) where
    abbrev noted : Option String
    noted = some text

    -- The tables that an upsert from another device commits: its rows, and the alias that says which
    -- remote version the local bytes are.
    abbrev pub synced_tables : Tables → Tables
    synced_tables s0 =
        set_state (remote_hash_key n) (c.to_string (alias_value (c.hash content) remote_hash by))
          (rows_at at noted s0)

  module _ (remote_hash at : String) (reason : Option String) where
    -- The reason that is recorded; `&h[..8]` panics where it cuts a character.
    abbrev pub Noted : String → Type 0
    Noted text = reason_text reason (c.hash content) remote_hash ≡ some text

    abbrev pub Synced : Tables → Tables → Type 0
    Synced s0 s = (text : String) × Noted text × (s ≡ synced_tables remote_hash at text s0)

    -- The row that is returned, and what is committed with it.
    pub record Upserted (s0 : Tables) (r : CategoryMeta) (d : Disk) : Type 0 where
      pub text : String
      pub is_noted : Noted text
      pub reported : r ≡ row_at at (some text) s0
      pub landed : Landed c.hash n content (synced_tables remote_hash at text s0) d
      pub dirty_kept : (synced_tables remote_hash at text s0).sync_dirty ≡ s0.sync_dirty
