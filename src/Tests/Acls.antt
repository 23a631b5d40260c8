-- ===== src/Tests/Acls.antt =====
-- The rule of src/acl.rs for one device.
use mcp_memory_rs.Common.{◌≡◌, refl, ◌↔◌, true, false, [], ◌∷◌}
use mcp_memory_rs.Acl.{AclContext, authorize_write}
use mcp_memory_rs.Acl.Laws.{is_allowed, MayWrite, authorize_write_iff}

abbrev tower : AclContext
tower = record { device = "tower"; is_admin = false; device_categories = "tower" ∷ "laptop" ∷ [] }

authorize_write_iff_example :
    (is_allowed (authorize_write "workflow_tower" tower) ≡ true) ↔ MayWrite "workflow_tower" tower
authorize_write_iff_example = authorize_write_iff "workflow_tower" tower

tower_writes_own : is_allowed (authorize_write "tower" tower) ≡ true
unfolding authorize_write
tower_writes_own = refl

tower_not_laptop : is_allowed (authorize_write "laptop" tower) ≡ false
unfolding authorize_write
tower_not_laptop = refl
