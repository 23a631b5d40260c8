-- ===== src/Server/Writing.antt =====
-- `memory_write` of src/server.rs over the store: what its reply says of the store.
use mcp_memory_rs.Common.{String, ◌≡◌, true, Option, some}
use mcp_memory_rs.Common.Map.{Map, find}
use mcp_memory_rs.Common.Text.{dot_free}
use mcp_memory_rs.Json.{Value, text, get}
use mcp_memory_rs.Json.Build.{opt_text}
use mcp_memory_rs.Error.{MemoryError}
use mcp_memory_rs.Db.{CategoryMeta, Tables, hash_of_row}
use mcp_memory_rs.World.{◌>>=◌, Disk, World}
use mcp_memory_rs.World.Ends.{Ends}
use mcp_memory_rs.AtomicJson.{json_path}
use mcp_memory_rs.Acl.{AclConfig}
use mcp_memory_rs.Codec.{Codec, Times}
use mcp_memory_rs.Store.Write.{WriteMode, new_value}
use mcp_memory_rs.Store.Landing.{Atomic}
use mcp_memory_rs.Store.Locked.{AtRest}
use mcp_memory_rs.Store.Writing
use mcp_memory_rs.Store.Writing.{Granted}
use mcp_memory_rs.Server.{Reply, content, internal_error, WriteParams, mode_of}

module _ (c : Codec) (config : AclConfig) (p : WriteParams) (dn : dot_free p.category ≡ true)
    (t : Times) where
  abbrev mode : WriteMode
  mode = mode_of p.merge_patch p.payload

  abbrev pub Wanted : Map String → Tables → Tables → Type 0
  Wanted f0 s0 s1 =
      Writing.Wanted c p.category dn mode p.reason config.device_name p.expected_hash t f0 s0 s1

  -- The reply to a write, and the store then.
  pub data Answered (f0 : Map String) (s0 : Tables) (reply : Reply) (d : Disk) : Type 0 where
    written :
        (v : Value) (row : CategoryMeta) (old : Option Value)
        → reply ≡ content v
        → get v "new_hash" ≡ some (text row.content_hash)
        → get v "previous_hash" ≡ some (opt_text (hash_of_row (find p.category s0.category)))
        → Granted c p.category dn mode p.reason config.device_name p.expected_hash t f0 s0 old
        → find p.category d.saved.category ≡ some row
        → find (json_path p.category) d.files ≡ some (c.to_string_pretty (new_value mode old))
        → c.hash (c.to_string_pretty (new_value mode old)) ≡ row.content_hash
        → AtRest c.hash d
        → Answered f0 s0 reply d
    failed :
        (e : MemoryError)
        → reply ≡ internal_error e
        → Atomic c.hash s0 (Wanted f0 s0) d
        → Answered f0 s0 reply d
