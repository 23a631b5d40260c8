-- ===== src/Store/Deleting.antt =====
-- `delete` of src/store/mod.rs, from the check of the name to the removal of the parked file.
use mcp_memory_rs.World.{World, ◌>>=◌, ◌>>◌}
use mcp_memory_rs.World.Ends.{Ends}
use mcp_memory_rs.Codec.{Codec}
