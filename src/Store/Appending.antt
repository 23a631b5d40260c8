-- ===== src/Store/Appending.antt =====
-- `append` of src/store/mod.rs, from the check of the name to the promotion of the file.
use mcp_memory_rs.Common.{String, ◌≡◌, true, Option, some}
use mcp_memory_rs.Common.Instant.{Chrono}
use mcp_memory_rs.Common.Map.{Map}
use mcp_memory_rs.Common.Text.{dot_free}
use mcp_memory_rs.Json.{Value}
use mcp_memory_rs.Log.{Retention, appended, append_entry}
use mcp_memory_rs.Db.{CategoryMeta, Tables}
use mcp_memory_rs.World.{Disk, World}
use mcp_memory_rs.World.Ends.{Ends}
use mcp_memory_rs.Codec.{Codec, Times}
use mcp_memory_rs.Store.Write.{effective_retention}
use mcp_memory_rs.Store.Upserting.{meta, written}
use mcp_memory_rs.Store.Landing.{Landed}
use mcp_memory_rs.Store.Locked.{Basis}

module _ (c : Codec) (n : String) (dn : dot_free n ≡ true) (chrono : Chrono) (payload : Value)
    (retention : Option Retention) (actor : String) (t : Times) where
  abbrev pub tables_of : Tables → Value → Tables
  tables_of s0 v = written c n dn s0 v (c.to_string_pretty v) t.now actor (some "append") t

  module _ (f0 : Map String) where
    -- The old log and the log with the new entry.
    pub record Extended (s0 : Tables) (v : Value) : Type 0 where
      pub old : Option Value
      pub basis : Basis c n s0 f0 old
      pub ran :
          append_entry chrono old payload (effective_retention retention old) t.now ≡ appended v

    abbrev pub Wanted : Tables → Tables → Type 0
    Wanted s0 s1 = (v : Value) × Extended s0 v × (s1 ≡ tables_of s0 v)

    pub record AppendedTo (s0 : Tables) (r : CategoryMeta) (d : Disk) : Type 0 where
      pub new_log : Value
      pub extends : Extended s0 new_log
      pub reported :
          r ≡ meta c n dn s0 new_log (c.to_string_pretty new_log) t.now actor (some "append") t
      pub landed : Landed c.hash n (c.to_string_pretty new_log) (tables_of s0 new_log) d
