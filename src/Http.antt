-- ===== src/Http.antt =====
-- src/http_server.rs: the token of a request, and the handlers of the calls on one category. `auth` is the value
-- of the header `Authorization`, if the request has one that is text.
pub mod Auth
pub mod Writing
use mcp_memory_rs.Common.{
  ℕ, String, ◌<>◌, Bool, true, false, Option, none, some, List, [], ◌∷◌, ◌==◌, map, unwrap_or,
  is_nil, if◌then◌else◌,
}
use mcp_memory_rs.Common.Text.{strip_prefix}
use mcp_memory_rs.Json.{Value, text, array, from_elements}
use mcp_memory_rs.Json.Build.{json_object, nat_value, filtered}
use mcp_memory_rs.Error.{MemoryError}
use mcp_memory_rs.Db.{CategoryMeta}
use mcp_memory_rs.World.{Exec, pure, ◌>>=◌, Attempt, got, threw, attempt}
use mcp_memory_rs.Acl.{AclConfig}
use mcp_memory_rs.Codec.{Codec, Times}
use mcp_memory_rs.Store.Read.{history, list, read_with_meta, is_log_category}
use mcp_memory_rs.Store.Write.{write, delete}
use mcp_memory_rs.Sync.Envelope.{
  SyncTransferEnvelope, SyncResult, export_sync_envelope, apply_sync_envelope,
}
use mcp_memory_rs.Server.{with_meta, version_object}

-- The error text of a response: that of an error, or one of the handler that may quote an error.
pub data ApiError : Type 0 where
  of_store : MemoryError → ApiError
  is_kind_log : String → ApiError
  kind_unknown : String → MemoryError → ApiError

-- `Ok(Json(ApiResponse))` with the data of a success or the error, or the status 401. `A` is the data
-- before it is printed.
pub data Response {ℓ} (A : Type ℓ) : Type ℓ where
  success : A → Response A
  failure : ApiError → Response A
  unauthorized : Response A

unfoldable pub check_auth : String → Option String → Bool
unfolding strip_prefix
check_auth auth_token none = "" == auth_token
check_auth auth_token (some v) = unwrap_or (strip_prefix v "Bearer ") v == auth_token

-- `state.check_auth(&headers)?`
unfoldable pub authorized {ℓ} : {A : Type ℓ} → Bool → Exec (Response A) → Exec (Response A)
authorized true body = body
authorized false body = pure unauthorized

abbrev pub responded {ℓ κ} : {A : Type ℓ} {B : Type κ} → Attempt A → (A → B) → Exec (Response B)
responded (got a) f = pure (success (f a))
responded (threw e) f = pure (failure (of_store e))

module _ (c : Codec) (auth_token : String) (auth : Option String) where
  unfoldable pub handle_read : String → Option String → Exec (Response Value)
  handle_read category fields = authorized (check_auth auth_token auth) (do
    r ← attempt (read_with_meta c category)
    responded r (λ x. with_meta (filtered fields x.0) category x.1))

  -- The write itself, after the check of the kind.
  unfoldable pub write_checked :
      Attempt Bool
      → AclConfig
      → String
      → Value
      → Option String
      → Option String
      → Times
      → Exec (Response Value)
  write_checked (got true) config category value reason expected_hash t =
      pure (failure (is_kind_log category))
  write_checked (threw e) config category value reason expected_hash t =
      pure (failure (kind_unknown category e))
  write_checked (got false) config category value reason expected_hash t = do
    r ← attempt (write c category value reason config.device_name expected_hash t)
    responded r (λ m. json_object (
        ("category", text m.name)
        ∷ ("hash", text m.content_hash)
        ∷ ("updated_at", text m.updated_at)
        ∷ ("size_bytes", nat_value m.size_bytes)
        ∷ []))

  unfoldable pub handle_write :
      AclConfig → String → Value → Option String → Option String → Times → Exec (Response Value)
  handle_write config category value reason expected_hash t =
      authorized (check_auth auth_token auth) (do
        kind ← attempt (is_log_category c category)
        write_checked kind config category value reason expected_hash t)

  unfoldable pub handle_delete : String → Times → Exec (Response Value)
  handle_delete category t = authorized (check_auth auth_token auth) (do
    r ← attempt (delete c category t)
    responded r (λ _. json_object (("deleted", text category) ∷ [])))

  unfoldable pub handle_history : String → Option ℕ → Exec (Response Value)
  handle_history category limit = authorized (check_auth auth_token auth) (do
    r ← attempt (history category (unwrap_or limit 20))
    responded r (λ versions. json_object (
        ("category", text category)
        ∷ ("versions", array (from_elements (map version_object versions)))
        ∷ [])))

  unfoldable pub export_named :
      Attempt (List String) → AclConfig → String → Exec (Response SyncTransferEnvelope)
  export_named (threw e) config now = pure (failure (of_store e))
  export_named (got names) config now = do
    r ← attempt (export_sync_envelope c names config.device_name now)
    responded r (λ e. e)

  -- No names stand for all of them.
  unfoldable pub names_or_all : List String → Exec (List String)
  names_or_all names =
      if is_nil names then (do cats ← list; pure (map (λ m. m.name) cats)) else pure names

  unfoldable pub handle_sync_export :
      AclConfig → List String → String → Exec (Response SyncTransferEnvelope)
  handle_sync_export config names now =
      authorized (check_auth auth_token auth)
        (do all ← attempt (names_or_all names); export_named all config now)

  unfoldable pub handle_sync_import :
      SyncTransferEnvelope
      → Option String
      → String
      → (ℕ → Times)
      → (ℕ → Times)
      → Exec (Response SyncResult)
  handle_sync_import envelope strategy default_strategy clock delete_clock =
      authorized (check_auth auth_token auth) (do
        r ← attempt (
            apply_sync_envelope c envelope (unwrap_or strategy default_strategy) clock delete_clock)
        responded r (λ x. x))
