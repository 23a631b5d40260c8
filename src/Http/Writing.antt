-- ===== src/Http/Writing.antt =====
-- `handle_write` of src/http_server.rs over the store: what its response says of the store.
use mcp_memory_rs.Common.{String, ◌≡◌, Bool, true, Option, some, [], ◌∷◌}
use mcp_memory_rs.Common.Map.{find}
use mcp_memory_rs.Common.Text.{dot_free}
use mcp_memory_rs.Json.{Value, text, get}
use mcp_memory_rs.Json.Build.{json_object, nat_value}
use mcp_memory_rs.Error.{MemoryError}
use mcp_memory_rs.Db.{CategoryMeta, Tables}
use mcp_memory_rs.World.{◌>>=◌, Disk, World}
use mcp_memory_rs.World.Ends.{Ends}
use mcp_memory_rs.AtomicJson.{json_path}
use mcp_memory_rs.Acl.{AclConfig}
use mcp_memory_rs.Codec.{Codec, Times}
use mcp_memory_rs.Log.{is_log}
use mcp_memory_rs.Store.Read.{holds_log}
use mcp_memory_rs.Store.Write.{replace}
use mcp_memory_rs.Store.Current.{Current}
use mcp_memory_rs.Store.Guards.{Expected, NoLog}
use mcp_memory_rs.Store.Landing.{Atomic}
use mcp_memory_rs.Store.Locked.{AtRest}
use mcp_memory_rs.Store.Writing
use mcp_memory_rs.Store.Writing.{Wrote}
use mcp_memory_rs.Http.{Response, success, failure, is_kind_log, kind_unknown, of_store}

module _ (c : Codec) (config : AclConfig) (category : String) (dn : dot_free category ≡ true)
    (value : Value) (reason : Option String) (expected_hash : Option String) (t : Times) where
  abbrev pub Wanted : Disk → Tables → Type 0
  Wanted d0 s1 =
      Writing.Wanted c category dn (replace value) reason config.device_name expected_hash t
        d0.files d0.saved s1

  -- The category has no log, as it was read before the write.
  abbrev pub NotLog : Disk → Type 0
  NotLog d0 = (o : Option Value) × Current c category d0 o × NoLog o

  -- The response to a write, and the disk then.
  pub data Answered (d0 : Disk) (reply : Response Value) (d : Disk) : Type 0 where
    written :
        (v : Value) (row : CategoryMeta)
        → reply ≡ success v
        → get v "hash" ≡ some (text row.content_hash)
        → NotLog d0
        → Expected expected_hash (find category d0.saved.category)
        → find category d.saved.category ≡ some row
        → find (json_path category) d.files ≡ some (c.to_string_pretty value)
        → c.hash (c.to_string_pretty value) ≡ row.content_hash
        → AtRest c.hash d
        → Answered d0 reply d
    log_refused :
        (v : Value)
        → reply ≡ failure (is_kind_log category)
        → Current c category d0 (some v)
        → is_log v ≡ true
        → d ≡ d0
        → Answered d0 reply d
    kind_unread :
        (e : MemoryError) → reply ≡ failure (kind_unknown category e) → d ≡ d0 → Answered d0 reply d
    failed :
        (e : MemoryError)
        → reply ≡ failure (of_store e)
        → NotLog d0
        → Atomic c.hash d0.saved (Wanted d0) d
        → Answered d0 reply d

  abbrev write_data : CategoryMeta → Value
  write_data m = json_object (
      ("category", text m.name)
      ∷ ("hash", text m.content_hash)
      ∷ ("updated_at", text m.updated_at)
      ∷ ("size_bytes", nat_value m.size_bytes)
      ∷ [])

  -- What `write` leaves: a write of the value itself.
  abbrev Stored : Disk → CategoryMeta → Disk → Type 0
  Stored d0 m d =
      (o : Option String) × Wrote c category dn (replace value) reason config.device_name
        expected_hash t d0.files d0.saved (o, m) d

  module _ (w : World) (r : AtRest c.hash w.disk) where
    abbrev Replied : Response Value → Disk → Type 0
    Replied reply d = Answered w.disk reply d

    -- All or nothing, for a crash.
    abbrev Cut : Disk → Type 0
    Cut d = Atomic c.hash w.saved (Wanted w.disk) d

    -- The kind that is read before the write.
    abbrev Kind : Bool → Disk → Type 0
    Kind b d = (d ≡ w.disk) × (o : Option Value) × Current c category w.disk o × (b ≡ holds_log c o)
