-- ===== src/Codec.antt =====
-- What the store takes from other crates, and the values that the clock gives to one call.
use mcp_memory_rs.Common.{ℕ, String, Option}
use mcp_memory_rs.Json.{Value, Number}

-- `sha2` and `serde_json`, with the setting of the store.
pub record Codec : Type 0 where
  -- SHA-256 in hexadecimal
  pub hash : String → String
  pub to_string_pretty : Value → String
  pub to_string : Value → String
  pub from_str : String → Option Value
  -- `Number::to_string`
  pub number_text : Number → String
  -- `storage.max_versions`
  pub max_versions : ℕ

-- `chrono::Utc::now()` at the places where one call asks for it, and the unique suffix.
pub record Times : Type 0 where
  pub now : String
  pub version_at : String
  pub marked_at : String
  pub state_at : String
  pub backup_at : String
  pub deleted_at : String
  pub settled_at : String
  pub suffix : String
