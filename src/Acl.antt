-- ===== src/Acl.antt =====
-- src/acl.rs: who may write which category.
pub mod Laws
use mcp_memory_rs.Common.{
  String, ◌<>◌, Bool, true, false, Option, none, some, List, [], ◌∷◌, ◌==◌, any, if◌then◌else◌,
}
use mcp_memory_rs.Common.Text.{strip_prefix, strip_suffix, starts_with}

pub record AclContext : Type 0 where
  pub device : String
  pub is_admin : Bool
  pub device_categories : List String

pub data AclDecision : Type 0 where
  allowed : String → AclDecision
  denied : String → AclDecision

abbrev pub base_categories : List String
base_categories =
    "base" ∷ "infrastructure" ∷ "projects" ∷ "workflow_global" ∷ "nodes" ∷ "ecosystem" ∷ []

abbrev pub reserved_categories : List String
reserved_categories = "meta" ∷ "usage_stats" ∷ []

-- `[T]::contains`
unfoldable pub member : List String → String → Bool
member names name = any (λ d. d == name) names

-- The part of the `acl` section of the configuration that the code reads.
pub record AclConfig : Type 0 where
  pub device_name : String
  pub admin_devices : List String
  pub device_categories : List String

unfoldable pub get_context : AclConfig → AclContext
get_context config = record {
  device = config.device_name;
  is_admin = any (λ d. d == config.device_name) config.admin_devices;
  device_categories = config.device_categories;
}

-- The branch of the agent-scoped categories, and the default.
unfoldable pub authorize_agent : String → AclContext → AclDecision
unfolding strip_suffix strip_prefix
authorize_agent category ctx = elim (strip_suffix ctx.device "-agent") [
  | none ↦ denied "not_authorized"
  | some agent_prefix ↦
      if starts_with category (agent_prefix <> "_")
      then allowed "agent_scoped"
      else denied "not_authorized"
]

unfoldable pub authorize_workflow : String → AclContext → AclDecision
authorize_workflow suffix ctx =
    if suffix == "global"
    then denied "workflow_global_requires_admin"
    else if member ctx.device_categories suffix
    then (if suffix == ctx.device
        then allowed "workflow_device_self"
        else denied "workflow_device_requires_self")
    else denied "workflow_project_requires_admin"

unfoldable pub authorize_write : String → AclContext → AclDecision
unfolding authorize_workflow authorize_agent strip_prefix member
authorize_write category ctx =
    if member reserved_categories category
    then denied "reserved_category"
    else if ctx.is_admin
    then allowed "admin"
    else if member base_categories category
    then denied "base_requires_admin"
    else if member ctx.device_categories category
    then (if category == ctx.device then allowed "device_self" else denied "device_requires_self")
    else elim (strip_prefix category "workflow_") [
      | some suffix ↦ authorize_workflow suffix ctx
      | none ↦ authorize_agent category ctx
    ]

unfoldable pub authorize_read : String → AclContext → AclDecision
authorize_read category ctx = allowed "read_all"
