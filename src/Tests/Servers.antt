-- ===== src/Tests/Servers.antt =====
-- Calls of the MCP server by one device.
use mcp_memory_rs.Common.{◌≡◌, refl, true, none, some, [], ◌∷◌}
use mcp_memory_rs.Json.{Fields, text, object, field, end, lookup, insert}
use mcp_memory_rs.Json.Build.{filter_fields, select_fields}
use mcp_memory_rs.Common.Words.{split_commas, trim}
use mcp_memory_rs.World.{World, done, crashes}
use mcp_memory_rs.World.Ends.{Ends}
use mcp_memory_rs.Acl.{AclConfig, get_context, authorize_write}
use mcp_memory_rs.Acl.Laws.{MayWrite, authorize_write_iff}
use mcp_memory_rs.Server.{WriteParams, AppendParams, memory_write, memory_append, memory_delete}
use mcp_memory_rs.Server.Guarded.{Refused, mutations-Refused}
use mcp_memory_rs.Tests.Fixtures.{codec, times, days, world}

abbrev admin : AclConfig
admin = record { device_name = "tower"; admin_devices = "tower" ∷ []; device_categories = [] }

abbrev guest : AclConfig
guest = record { device_name = "phone"; admin_devices = []; device_categories = "phone" ∷ [] }

abbrev put_base : WriteParams
put_base = record {
  category = "base";
  payload = field "k" (text "v") end;
  reason = none;
  expected_hash = some "A";
  merge_patch = some true;
}

abbrev add_base : AppendParams
add_base = record { category = "base"; payload = end; max_entries = none; max_age_days = none }

phone_may_not : MayWrite "base" (get_context guest) → ⊥
unfolding get_context authorize_write
phone_may_not h = absurd (cc ((authorize_write_iff "base" (get_context guest)).1 h))

abbrev cut_short : World
cut_short = world (done ∷ done ∷ crashes none ∷ [])

mutations-Refused_example :
    Refused cut_short "base" "phone" (memory_write codec guest put_base times cut_short)
    × Refused cut_short "base" "phone" (memory_append codec days guest add_base times cut_short)
    × Refused cut_short "base" "phone" (memory_delete codec guest "base" times cut_short)
mutations-Refused_example =
    mutations-Refused guest "base" phone_may_not cut_short codec days put_base add_base times refl
      refl

split_ran : split_commas "a, b,," ≡ "a" ∷ " b" ∷ "" ∷ "" ∷ []
unfolding split_commas
split_ran = refl

trim_ran : trim " a b " ≡ "a b"
unfolding trim
trim_ran = refl

abbrev two_fields : Fields
two_fields = field "a" (text "1") (field "b" (text "2") end)

filter_ran : filter_fields (object two_fields) "a, c" ≡ object (field "a" (text "1") end)
unfolding filter_fields select_fields lookup split_commas trim insert
filter_ran = refl
