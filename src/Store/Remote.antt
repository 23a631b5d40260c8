-- ===== src/Store/Remote.antt =====
-- The imports of src/store/mod.rs: from another installation, and from another device.
use Prim.Native.String.{len, slice}
use Prim.Native.Nat.{min}
use mcp_memory_rs.Common.{
  ℕ, nat_eq, String, ◌<>◌, Bool, true, false, ◌&&◌, Option, none, some, List, [], ◌∷◌, ◌==◌,
  and_then, is_text, if◌then◌else◌,
}
use mcp_memory_rs.Common.Map.{find}
use mcp_memory_rs.Json.{Value, text, object, end, field, get, as_str}
use mcp_memory_rs.Log.{is_log}
use mcp_memory_rs.Error.{kind_mismatch, json}
use mcp_memory_rs.Db.{CategoryMeta, set_state, delete_dirty}
use mcp_memory_rs.World.{Exec, pure, throw, panic, ◌>>=◌, ◌>>◌, execute, query, commit, transaction}
use mcp_memory_rs.AtomicJson.{validate_name, promote}
use mcp_memory_rs.Codec.{Codec, Times}
use mcp_memory_rs.Store.Read.{get_meta, settle_locked, is_log_category, or_throw}
use mcp_memory_rs.Store.Rows.{stage_rows}
use mcp_memory_rs.Store.Write.{remote_hash_key}

-- `&h[..8.min(h.len())]`: none is the panic, where the cut is inside a character.
abbrev cut_at : ℕ → String → Option String
cut_at k h = let head = slice h 0 k in if nat_eq (len head) k then some head else none

abbrev short_hash : String → Option String
short_hash h = cut_at (min 8 (len h)) h

abbrev noted_hash : String → Option String → Option String
noted_hash r none = none
noted_hash r (some short) = some ((r <> " (remote hash ") <> (short <> ")"))

unfoldable pub reason_text : Option String → String → String → Option String
reason_text none physical remote = some "Sync import"
reason_text (some r) physical remote =
    if physical == remote then some r else noted_hash r (short_hash remote)

-- The alias that is kept beside the row: which remote version the local bytes are.
unfoldable pub alias_value : String → String → String → Value
alias_value physical remote device = object (
    field "physical_hash" (text physical)
      (field "remote_hash" (text remote) (field "remote_updated_by" (text device) end)))

-- The comparison of `holds_remote_version` with a recorded alias.
unfoldable pub alias_matches : Value → String → String → String → Bool
alias_matches alias local_hash remote_hash remote_device =
    is_text (and_then (get alias "remote_hash") as_str) remote_hash
    && (is_text (and_then (get alias "physical_hash") as_str) local_hash
        && is_text (and_then (get alias "remote_updated_by") as_str) remote_device)

module _ (c : Codec) where
  abbrev pub decoded : Option String → Exec (Option Value)
  decoded none = pure none
  decoded (some raw) = do v ← or_throw (c.from_str raw) json; pure (some v)

  unfoldable pub get_sync_state : String → Exec (Option Value)
  get_sync_state key = do raw ← query (λ d. find key d.sync_state); decoded raw

  unfoldable pub set_sync_state : String → Value → Exec (Unit {0})
  set_sync_state key value = transaction (do execute (set_state key (c.to_string value)); commit)

  abbrev matches_alias : Option Value → String → String → String → Bool
  matches_alias none local_hash remote_hash remote_device = false
  matches_alias (some alias) local_hash remote_hash remote_device =
      alias_matches alias local_hash remote_hash remote_device

  unfoldable pub holds_remote_version : String → CategoryMeta → String → String → Exec Bool
  holds_remote_version name local remote_hash remote_device =
      if local.content_hash == remote_hash then pure true else (do
        alias ← get_sync_state (remote_hash_key name)
        pure (matches_alias alias local.content_hash remote_hash remote_device))

  -- `import_category` under the lock.
  unfoldable pub import_current :
      Option CategoryMeta → String → Value → String → Times → Exec CategoryMeta
  import_current meta name value actor t =
      let json_str = c.to_string_pretty value in
      let content_hash = c.hash json_str in
      let import_rows : Exec CategoryMeta = do
        r ← stage_rows c name value json_str content_hash t.now actor (some "Import from Node.js") t
        commit
        promote r.1
        pure r.0
      in elim meta [
        | none ↦ import_rows
        | some m ↦ if m.content_hash == content_hash then pure m else import_rows
      ]

  unfoldable pub refuse_log : Bool → String → Exec (Unit {0})
  refuse_log true name = throw (kind_mismatch name)
  refuse_log false name = pure tt

  -- The kind of the category is asked only for a value that is no log itself.
  unfoldable pub clobbers_log : Bool → String → Exec Bool
  clobbers_log true name = pure false
  clobbers_log false name = is_log_category c name

  unfoldable pub import_category : String → Value → String → Times → Exec CategoryMeta
  import_category name value actor t = do
    clobbers ← clobbers_log (is_log value) name
    refuse_log clobbers name
    transaction
        (do settle_locked c name t; meta ← get_meta name; import_current meta name value actor t)

  -- `upsert_synced_category` under the lock.
  unfoldable pub upsert_locked :
      String → Value → String → String → String → String → Times → Exec CategoryMeta
  upsert_locked name value remote_hash remote_at remote_by noted t = do
    let json_str = c.to_string_pretty value
    let physical_hash = c.hash json_str
    settle_locked c name t
    r ← stage_rows c name value json_str physical_hash remote_at remote_by (some noted) t
    execute (
        set_state (remote_hash_key name)
          (c.to_string (alias_value physical_hash remote_hash remote_by)))
    commit
    promote r.1
    pure r.0

  abbrev pub upsert_noted :
      String → Value → String → String → String → Option String → Times → Exec CategoryMeta
  upsert_noted name value remote_hash remote_at remote_by none t = panic
  upsert_noted name value remote_hash remote_at remote_by (some noted) t =
      transaction (upsert_locked name value remote_hash remote_at remote_by noted t)

  unfoldable pub upsert_synced_category :
      String → Value → String → String → String → Option String → Times → Exec CategoryMeta
  upsert_synced_category name value remote_hash remote_at remote_by reason t = do
    validate_name name
    upsert_noted name value remote_hash remote_at remote_by
        (reason_text reason (c.hash (c.to_string_pretty value)) remote_hash) t

  unfoldable pub clear_all : List String → Exec (Unit {0})
  clear_all [] = pure tt
  clear_all (name ∷ names) = do execute (delete_dirty name); clear_all names

  unfoldable pub clear_dirty : List String → Exec (Unit {0})
  clear_dirty names = transaction (do clear_all names; commit)
