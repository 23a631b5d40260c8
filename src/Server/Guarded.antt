-- ===== src/Server/Guarded.antt =====
-- The check of the ACL before the tools of src/server.rs that change a category.
use mcp_memory_rs.Common.{String, ◌≡◌, refl, ap, true, false, some}
use mcp_memory_rs.Common.Instant.{Chrono}
use mcp_memory_rs.Json.{Value, boolean, text, get, lookup, insert}
use mcp_memory_rs.Error.{Result, ok}
use mcp_memory_rs.World.{World, Exec}
use mcp_memory_rs.Acl.{AclConfig, AclDecision, allowed, denied, get_context, authorize_write}
use mcp_memory_rs.Acl.Laws.{MayWrite, is_allowed, authorize_write_iff}
use mcp_memory_rs.Codec.{Codec, Times}
use mcp_memory_rs.Server.{
  Reply, content, WriteParams, AppendParams, unauthorized, guarded, memory_write, memory_append,
  memory_delete,
}

-- The store is untouched, and the reply says so.
pub record Refused (w : World) (category device : String) (r : Result Reply × World) : Type 0 where
  pub reply : Value
  pub returned : r ≡ (ok (content reply), w)
  pub no_success : get reply "success" ≡ some (boolean false)
  pub names_device : get reply "device" ≡ some (text device)

module _ (config : AclConfig) (category : String)
    (no_right : MayWrite category (get_context config) → ⊥) (w : World) where
  guarded_by :
      (d : AclDecision) (what : String) (body : Exec Reply)
      → (is_allowed d ≡ true → ⊥)
      → Refused w category config.device_name (guarded d what category config.device_name body w)
  unfolding guarded unauthorized get lookup insert
  guarded_by (allowed _) what body n = absurd (n refl)
  guarded_by (denied reason) what body n = record {
    reply = unauthorized what category reason config.device_name;
    returned = refl;
    no_success = refl;
    names_device = refl;
  }

  denied_by : is_allowed (authorize_write category (get_context config)) ≡ true → ⊥
  denied_by h = no_right ((authorize_write_iff category (get_context config)).0 h)

  -- A device that may not write a category cannot write, append to or delete it through the MCP
  -- server: the store stays as it is, no access to it is made, and the reply says that the call had
  -- no success.
  pub mutations-Refused :
      (c : Codec) (chrono : Chrono) (wp : WriteParams) (ap : AppendParams) (t : Times)
      → wp.category ≡ category
      → ap.category ≡ category
      → Refused w category config.device_name (memory_write c config wp t w)
        × Refused w category config.device_name (memory_append c chrono config ap t w)
        × Refused w category config.device_name (memory_delete c config category t w)
  unfolding memory_write memory_append memory_delete
  mutations-Refused c chrono wp ap t we ae = (
    rw we (guarded_by (authorize_write category (get_context config)) "write" _ denied_by),
    rw ae (guarded_by (authorize_write category (get_context config)) "write" _ denied_by),
    guarded_by (authorize_write category (get_context config)) "delete" _ denied_by,
  )
