-- ===== src/Server.antt =====
-- src/server.rs: the tools of the MCP server on one category. A reply is the JSON content of the call, or the
-- error whose text the call returns.
pub mod Guarded
pub mod Writing
use mcp_memory_rs.Common.{
  zero, ℕ, String, ◌<>◌, Bool, true, false, ◌||◌, Option, none, some, List, [], ◌∷◌, ◌==◌, map,
  and_then, unwrap_or, is_some, length, if◌then◌else◌,
}
use mcp_memory_rs.Common.Instant.{Chrono}
use mcp_memory_rs.Json.{
  Value, null, boolean, text, array, object, Fields, get, as_array, from_elements,
}
use mcp_memory_rs.Json.Build.{json_object, with_fields, opt_text, nat_value, filtered}
use mcp_memory_rs.Error.{MemoryError, other}
use mcp_memory_rs.Db.{CategoryMeta, VersionEntry}
use mcp_memory_rs.World.{Exec, pure, ◌>>=◌, Attempt, got, threw, attempt}
use mcp_memory_rs.Acl.{
  AclConfig, AclContext, AclDecision, allowed, denied, get_context, authorize_write,
}
use mcp_memory_rs.Log.{Retention}
use mcp_memory_rs.Codec.{Codec, Times}
use mcp_memory_rs.Store.Read.{get_meta, history, read, read_with_meta}
use mcp_memory_rs.Store.Write.{WriteMode, replace, merge, write_with, append, delete}

pub data Reply : Type 0 where
  content : Value → Reply
  internal_error : MemoryError → Reply

pub record WriteParams : Type 0 where
  pub category : String
  pub payload : Fields
  pub reason : Option String
  pub expected_hash : Option String
  pub merge_patch : Option Bool

pub record AppendParams : Type 0 where
  pub category : String
  pub payload : Fields
  pub max_entries : Option ℕ
  pub max_age_days : Option ℕ

abbrev pub replied {ℓ} : {A : Type ℓ} → Attempt A → (A → Value) → Exec Reply
replied (got a) f = pure (content (f a))
replied (threw e) f = pure (internal_error e)

-- The reply to a write that the ACL denies; `what` is "write" or "delete".
unfoldable pub unauthorized : String → String → String → String → Value
unauthorized what category reason device = json_object (
    ("success", boolean false)
    ∷ ("error", text (((("Unauthorized " <> what) <> " for category '") <> category) <> "'"))
    ∷ ("reason", text reason)
    ∷ ("device", text device)
    ∷ [])

-- The check of the ACL before a mutation.
unfoldable pub guarded : AclDecision → String → String → String → Exec Reply → Exec Reply
guarded (allowed _) what category device body = body
guarded (denied reason) what category device body =
    pure (content (unauthorized what category reason device))

abbrev meta_object : CategoryMeta → Value
meta_object m = json_object (
    ("hash", text m.content_hash)
    ∷ ("updated_at", text m.updated_at)
    ∷ ("updated_by", text m.updated_by)
    ∷ ("size_bytes", nat_value m.size_bytes)
    ∷ [])

-- The fields of the category, and those that the reply adds to them.
unfoldable pub with_meta : Value → String → CategoryMeta → Value
with_meta (object m) category meta = object (
    with_fields
      (("success", boolean true) ∷ ("category", text category) ∷ ("_meta", meta_object meta) ∷ [])
      m)
with_meta v category meta = v

abbrev pub mode_of : Option Bool → Fields → WriteMode
mode_of (some true) payload = merge payload
mode_of _ payload = replace (object payload)

unfoldable pub retention_of : Option ℕ → Option ℕ → Option Retention
retention_of max_entries max_age_days =
    if is_some max_entries || is_some max_age_days
    then some (record { max_entries = max_entries; max_age_days = max_age_days })
    else none

abbrev is_zero : Option ℕ → Bool
is_zero (some zero) = true
is_zero _ = false

unfoldable pub version_object : VersionEntry → Value
version_object v = json_object (
    ("id", nat_value v.id)
    ∷ ("category_name", text v.category_name)
    ∷ ("content_hash", text v.content_hash)
    ∷ ("reason", opt_text v.reason)
    ∷ ("actor", text v.actor)
    ∷ ("timestamp", text v.timestamp)
    ∷ [])

module _ (c : Codec) where
  unfoldable pub memory_read : String → Option String → Exec Reply
  memory_read category fields = do
    r ← attempt (read_with_meta c category)
    replied r (λ x. with_meta (filtered fields x.0) category x.1)

  unfoldable pub write_reply : Option String → Option String × CategoryMeta → Value
  write_reply reason r = json_object (
      ("success", boolean true)
      ∷ ("category", text r.1.name)
      ∷ ("previous_hash", opt_text r.0)
      ∷ ("new_hash", text r.1.content_hash)
      ∷ ("reason", opt_text reason)
      ∷ ("timestamp", text r.1.updated_at)
      ∷ ("backup_created", boolean true)
      ∷ [])

  unfoldable pub memory_write : AclConfig → WriteParams → Times → Exec Reply
  memory_write config p t =
      guarded (authorize_write p.category (get_context config)) "write" p.category
        config.device_name
        (do
          r ← attempt (
              write_with c p.category (mode_of p.merge_patch p.payload) p.reason config.device_name
                p.expected_hash t)
          replied r (write_reply p.reason))

  -- `store.read(..).ok()` and the length of its entries.
  abbrev entries_count : Attempt Value → ℕ
  entries_count (threw _) = 0
  entries_count (got v) =
      unwrap_or (and_then (and_then (get v "entries") as_array) (λ a. some (length a))) 0

  abbrev append_reply : CategoryMeta → ℕ → Value
  append_reply m total = json_object (
      ("success", boolean true)
      ∷ ("category", text m.name)
      ∷ ("kind", text "log")
      ∷ ("new_hash", text m.content_hash)
      ∷ ("timestamp", text m.updated_at)
      ∷ ("total_entries", nat_value total)
      ∷ [])

  unfoldable pub appended_reply : Attempt CategoryMeta → String → Exec Reply
  appended_reply (threw e) category = pure (internal_error e)
  appended_reply (got m) category = do
    v ← attempt (read c category)
    pure (content (append_reply m (entries_count v)))

  abbrev append_body : Chrono → AclConfig → AppendParams → Times → Exec Reply
  append_body chrono config p t =
      if is_zero p.max_entries
      then pure
          (internal_error (other "max_entries must be >= 1 (0 would discard every appended entry)"))
      else (do
        r ← attempt (
            append c chrono p.category (object p.payload)
              (retention_of p.max_entries p.max_age_days) config.device_name t)
        appended_reply r p.category)

  unfoldable pub memory_append : Chrono → AclConfig → AppendParams → Times → Exec Reply
  memory_append chrono config p t =
      guarded (authorize_write p.category (get_context config)) "write" p.category
        config.device_name (append_body chrono config p t)

  unfoldable pub memory_delete : AclConfig → String → Times → Exec Reply
  memory_delete config category t =
      guarded (authorize_write category (get_context config)) "delete" category config.device_name
        (do
          r ← attempt (delete c category t)
          replied r (λ _. json_object (
              ("success", boolean true)
              ∷ ("deleted", text category)
              ∷ ("backup_created", boolean true)
              ∷ [])))

  unfoldable pub memory_history : String → Option ℕ → Exec Reply
  memory_history category limit = do
    r ← attempt (history category (unwrap_or limit 20))
    replied r (λ versions. json_object (
        ("success", boolean true)
        ∷ ("category", text category)
        ∷ ("versions", array (from_elements (map version_object versions)))
        ∷ []))

  abbrev changed : String → CategoryMeta → Value → Value
  changed category m v = json_object (
      ("success", boolean true)
      ∷ ("status", text "changed")
      ∷ ("category", text category)
      ∷ ("hash", text m.content_hash)
      ∷ ("updated_at", text m.updated_at)
      ∷ ("data", v)
      ∷ [])

  unfoldable pub delta_of : Attempt (Option CategoryMeta) → String → String → Exec Reply
  delta_of (threw e) category since_hash = pure (internal_error e)
  delta_of (got none) category since_hash = pure (
      content (
        json_object (
          ("success", boolean true)
          ∷ ("status", text "deleted")
          ∷ ("category", text category)
          ∷ [])))
  delta_of (got (some m)) category since_hash =
      if m.content_hash == since_hash
      then pure (
          content (
            json_object (
              ("success", boolean true)
              ∷ ("status", text "unchanged")
              ∷ ("category", text category)
              ∷ ("hash", text m.content_hash)
              ∷ [])))
      else (do r ← attempt (read c category); replied r (changed category m))

  unfoldable pub memory_delta : String → String → Exec Reply
  memory_delta category since_hash = do
    m ← attempt (get_meta category)
    delta_of m category since_hash
