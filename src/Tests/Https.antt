-- ===== src/Tests/Https.antt =====
-- Requests to the HTTP server with and without the token.
use mcp_memory_rs.Common.{ℕ, ◌≡◌, refl, ◌↔◌, true, none, some, [], ◌∷◌}
use mcp_memory_rs.Json.{text}
use mcp_memory_rs.Codec.{Times}
use mcp_memory_rs.Sync.Envelope.{SyncTransferEnvelope}
use mcp_memory_rs.Acl.{AclConfig}
use mcp_memory_rs.Http.{
  check_auth, handle_read, handle_write, handle_delete, handle_history, handle_sync_export,
  handle_sync_import,
}
use mcp_memory_rs.World.Ends.{Ends}
use mcp_memory_rs.Http.Auth.{Sends, bearer, check_auth_iff, Rejected, requests-Rejected}
use mcp_memory_rs.Tests.Fixtures.{codec, times, world}

check_auth_iff_example :
    (check_auth "secret" (some "Bearer secret") ≡ true) ↔ Sends "secret" (some "Bearer secret")
check_auth_iff_example = check_auth_iff "secret" (some "Bearer secret")

bearer_ran : check_auth "secret" (some "Bearer secret") ≡ true
unfolding check_auth
bearer_ran = refl

-- An empty token lets in a request without a header.
empty_token_ran : check_auth "" none ≡ true
unfolding check_auth
empty_token_ran = refl

none_sent : Sends "secret" none → ⊥
unfolding check_auth
none_sent h = cc ((check_auth_iff "secret" none).1 h)

abbrev config : AclConfig
config = record { device_name = "tower"; admin_devices = []; device_categories = [] }

abbrev envelope : SyncTransferEnvelope
envelope = record {
  source_device = "laptop";
  exported_at = "now";
  categories = [];
  deleted = "base" ∷ [];
}

abbrev clock : ℕ → Times
clock _ = times

requests-Rejected_example :
    Rejected (world []) (handle_read codec "secret" none "base" none (world []))
    × Rejected
        (world [])
        (handle_write codec "secret" none config "base" (text "B") none none times (world []))
    × Rejected (world []) (handle_delete codec "secret" none "base" times (world []))
    × Rejected (world []) (handle_history codec "secret" none "base" none (world []))
    × Rejected (world []) (handle_sync_export codec "secret" none config [] "now" (world []))
    × Rejected
        (world [])
        (handle_sync_import codec "secret" none envelope none "local_wins" clock clock (world []))
requests-Rejected_example =
    requests-Rejected codec "secret" none none_sent (world []) config "base" none (text "B") none
      none none [] "now" envelope none "local_wins" times clock clock

abbrev sent : Sends "secret" (some "Bearer secret")
sent = bearer refl
