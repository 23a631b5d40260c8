-- ===== src/Store/Importing/Local.antt =====
-- `import_category` of src/store/mod.rs, with its check of the kind before the lock.
use mcp_memory_rs.Common.{String, ◌≡◌, ◌≢◌, true, Option, some, ◌⊎◌}
use mcp_memory_rs.Common.Map.{find}
use mcp_memory_rs.Common.Text.{dot_free}
use mcp_memory_rs.Json.{Value}
use mcp_memory_rs.Log.{is_log}
use mcp_memory_rs.Db.{CategoryMeta, Tables}
use mcp_memory_rs.World.{Disk, World, ◌>>=◌, ◌>>◌}
use mcp_memory_rs.World.Ends.{Ends}
use mcp_memory_rs.AtomicJson.Recoverable.{Recoverable}
use mcp_memory_rs.Codec.{Codec, Times}
use mcp_memory_rs.Store.Guards.{NoLog}
use mcp_memory_rs.Store.Landing.{Landed}
use mcp_memory_rs.Store.Locked.{Basis}
use mcp_memory_rs.Store.Importing.{row_at, rows_at}

module _ (c : Codec) (n : String) (dn : dot_free n ≡ true) (value : Value) (by : String)
    (t : Times) where
  abbrev imported : Option String
  imported = some "Import from Node.js"

  -- The tables that an import commits.
  abbrev pub import_tables : Tables → Tables
  import_tables s0 = rows_at c n dn value by t t.now imported s0

  -- A value that is no log does not replace one.
  abbrev pub KindKept : Disk → Type 0
  KindKept d0 =
      (is_log value ≡ true) ⊎ ((old : Option Value) × Basis c n d0.saved d0.files old × NoLog old)

  -- The category had these bytes, and nothing was changed.
  pub record Unchanged (s0 : Tables) (r : CategoryMeta) (d : Disk) : Type 0 where
    pub recoverable : Recoverable c.hash d
    pub at_rest : d.db ≡ d.saved
    pub saved_is : d.saved ≡ s0
    pub found : find n s0.category ≡ some r
    pub same_hash : r.content_hash ≡ c.hash (c.to_string_pretty value)

  -- The row, if there is one, has another hash.
  abbrev pub Differs : Tables → Type 0
  Differs s0 =
      (m : CategoryMeta)
      → find n s0.category ≡ some m
      → m.content_hash ≢ c.hash (c.to_string_pretty value)

  -- A row is written just where the bytes are not those of the row.
  abbrev pub Imported : Tables → CategoryMeta → Disk → Type 0
  Imported s0 r d =
      (Differs s0
        × (r ≡ row_at c n dn value by t t.now imported s0)
        × Landed c.hash n (c.to_string_pretty value) (import_tables s0) d)
      ⊎ Unchanged s0 r d

  module _ (s0 : Tables) where
    abbrev Wanted : Tables → Type 0
    Wanted s = s ≡ import_tables s0
