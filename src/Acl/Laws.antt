-- ===== src/Acl/Laws.antt =====
-- What a write permission of src/acl.rs means.
use mcp_memory_rs.Common.{
  String, ◌<>◌, ◌≡◌, ◌≢◌, ◌↔◌, inl, inr, Bool, true, false, none, some, arith, eq_iff, Bool-cases,
  Option-cases,
}
use mcp_memory_rs.Common.Text.{
  strip_prefix, strip_suffix, strip_prefix-append, strip_prefix_sound, strip_suffix-append,
  strip_suffix_sound,
}
use mcp_memory_rs.Acl.{
  AclContext, AclDecision, allowed, denied, base_categories, reserved_categories, member,
  authorize_agent, authorize_workflow, authorize_write,
}

abbrev pub is_allowed : AclDecision → Bool
is_allowed (allowed _) = true
is_allowed (denied _) = false

-- The categories that a device which is no admin owns: its own, its workflow, or its agent's.
pub data Owns (category : String) (ctx : AclContext) : Type 0 where
  own_device :
      member ctx.device_categories category ≡ true → category ≡ ctx.device → Owns category ctx
  own_workflow :
      member ctx.device_categories category ≡ false
      → category ≡ "workflow_" <> ctx.device
      → ctx.device ≢ "global"
      → member ctx.device_categories ctx.device ≡ true
      → Owns category ctx
  own_agent :
      (agent rest : String)
      → member ctx.device_categories category ≡ false
      → strip_prefix category "workflow_" ≡ none
      → ctx.device ≡ agent <> "-agent"
      → category ≡ (agent <> "_") <> rest
      → Owns category ctx

-- The rule of src/acl.rs, stated without the order of its tests.
pub data MayWrite (category : String) (ctx : AclContext) : Type 0 where
  as_admin :
      member reserved_categories category ≡ false → ctx.is_admin ≡ true → MayWrite category ctx
  as_owner :
      member reserved_categories category ≡ false
      → member base_categories category ≡ false
      → Owns category ctx
      → MayWrite category ctx

module _ (category : String) (ctx : AclContext) where
  agent_sound :
      member ctx.device_categories category ≡ false
      → strip_prefix category "workflow_" ≡ none
      → is_allowed (authorize_agent category ctx) ≡ true
      → Owns category ctx
  unfolding authorize_agent
  agent_sound m w h = elim (Option-cases (strip_suffix ctx.device "-agent")) [
    | inl e ↦ ground arith
    | inr (a, e) ↦ elim (Option-cases (strip_prefix category (a <> "_"))) [
      | inl f ↦ ground arith
      | inr (r, f) ↦ own_agent a r m w (strip_suffix_sound _ _ a e) (strip_prefix_sound _ _ r f)
    ]
  ]

  workflow_sound :
      (suffix : String)
      → member ctx.device_categories category ≡ false
      → category ≡ "workflow_" <> suffix
      → is_allowed (authorize_workflow suffix ctx) ≡ true
      → Owns category ctx
  unfolding authorize_workflow
  workflow_sound suffix m e h =
      let d : suffix ≡ ctx.device = ground (arith, eq_iff suffix ctx.device) in
      own_workflow m (ground arith) (ground (arith, eq_iff suffix "global")) (ground arith)

  authorize_write_sound : is_allowed (authorize_write category ctx) ≡ true → MayWrite category ctx
  unfolding authorize_write
  authorize_write_sound h = elim (Bool-cases ctx.is_admin) [
    | inl a ↦ as_admin (ground arith) a
    | inr a ↦ elim (Bool-cases (member ctx.device_categories category)) [
      | inl m ↦
          as_owner (ground arith) (ground arith)
            (own_device m (ground (arith, eq_iff category ctx.device)))
      | inr m ↦ elim (Option-cases (strip_prefix category "workflow_")) [
        | inl w ↦ as_owner (ground arith) (ground arith) (agent_sound m w (ground arith))
        | inr (suffix, w) ↦
            as_owner (ground arith) (ground arith)
              (workflow_sound suffix m (strip_prefix_sound _ _ suffix w) (ground arith))
      ]
    ]
  ]

  owner_complete :
      member reserved_categories category ≡ false
      → member base_categories category ≡ false
      → Owns category ctx
      → is_allowed (authorize_write category ctx) ≡ true
  unfolding authorize_write authorize_workflow authorize_agent
  owner_complete nr nb (own_device m e) = ground (arith, eq_iff category ctx.device)
  owner_complete nr nb (own_workflow m e g d) =
      let w : strip_prefix category "workflow_" ≡ some ctx.device =
        rw e (strip_prefix-append "workflow_" ctx.device) in
      ground (arith, eq_iff ctx.device "global", eq_iff ctx.device ctx.device)
  owner_complete nr nb (own_agent agent rest m w d e) =
      let s : strip_suffix ctx.device "-agent" ≡ some agent =
        rw d (strip_suffix-append agent "-agent") in
      let p : strip_prefix category (agent <> "_") ≡ some rest =
        rw e (strip_prefix-append (agent <> "_") rest) in
      ground arith

  authorize_write_complete :
      MayWrite category ctx → is_allowed (authorize_write category ctx) ≡ true
  unfolding authorize_write
  authorize_write_complete (as_admin nr a) = ground arith
  authorize_write_complete (as_owner nr nb o) = owner_complete nr nb o

  -- A write is allowed exactly if the category is not reserved and the device is an admin, or the
  -- category is no base category and is the device's own: its name among the registered devices,
  -- the workflow of its name, or a name under its agent's prefix.
  pub authorize_write_iff :
      (is_allowed (authorize_write category ctx) ≡ true) ↔ MayWrite category ctx
  authorize_write_iff = (authorize_write_sound, authorize_write_complete)
