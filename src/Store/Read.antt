-- ===== src/Store/Read.antt =====
-- The readers of src/store/mod.rs, and the settling of pending files under the write lock.
use mcp_memory_rs.Common.{
  ℕ, zero, suc, ◌-◌, String, Bool, true, false, Option, none, some, List, [], map, take, length,
  is_some,
}
use mcp_memory_rs.Common.Map.{find, values}
use mcp_memory_rs.Json.{Value}
use mcp_memory_rs.Log.{is_log}
use mcp_memory_rs.Error.{MemoryError, ok, io, missing, json, inconsistent, not_found}
use mcp_memory_rs.Db.{CategoryMeta, hash_of_row, VersionEntry, select_versions}
use mcp_memory_rs.World.{
  Disk, Exec, pure, throw, ◌>>=◌, ◌>>◌, Attempt, got, threw, attempt, query, read_to_string,
}
use mcp_memory_rs.AtomicJson.{
  Source, json_path, has_pending, settle_staged, settle_deleted, committed_content,
}
use mcp_memory_rs.Codec.{Codec, Times}

unfoldable pub get_meta : String → Exec (Option CategoryMeta)
get_meta name = query (λ t. find name t.category)

unfoldable pub list : Exec (List CategoryMeta)
list = query (λ t. values t.category)

unfoldable pub history : String → ℕ → Exec (List VersionEntry)
history name limit = query (select_versions name limit)

abbrev pub max_listed : ℕ
max_listed = 30

abbrev offered : String → Attempt (List CategoryMeta) → MemoryError
offered name (got cats) =
    not_found name (take max_listed (map (λ (c : CategoryMeta). c.name) cats))
      (length cats - max_listed)
offered name (threw _) = not_found name [] 0

-- `not_found`: the error that lists the names that exist.
unfoldable pub missing_category {ℓ} : {A : Type ℓ} → String → Exec A
missing_category name = do cats ← attempt list; throw (offered name cats)

-- `Ok(None) => NotFound, Ok(Some(a)) => a`
abbrev pub or_throw {ℓ} : {A : Type ℓ} → Option A → MemoryError → Exec A
or_throw none e = throw e
or_throw (some a) e = pure a

-- What other processes do to the disk in the round of a reader with `n` rounds after it: between the read
-- of the row and that of the files, and after that.
abbrev pub Others : Type 0
Others = ℕ → (Disk → Disk) × (Disk → Disk)

abbrev pub quiet : Others
quiet _ = (λ d. d, λ d. d)

abbrev pub interfere : (Disk → Disk) → Exec (Unit {0})
interfere f w = (ok tt, record w { disk = f w.disk })

module _ (c : Codec) where
  -- The rest of `settle_locked` after the check for pending files.
  unfoldable pub settle_pending : Bool → String → Times → Exec (Unit {0})
  settle_pending false name t = pure tt
  settle_pending true name t = do
    meta ← get_meta name
    settle_staged c.hash name (hash_of_row meta)
    settle_deleted name (is_some meta) t.settled_at
    pure tt

  unfoldable pub settle_locked : String → Times → Exec (Unit {0})
  settle_locked name t = do pending ← has_pending name; settle_pending pending name t

  -- A file that the database does not know is still served.
  unfoldable pub read_orphan : String → Attempt String → Exec (String × Option CategoryMeta)
  read_orphan name (got content) = pure (content, none)
  read_orphan name (threw (io missing)) = missing_category name
  read_orphan name (threw e) = throw e

  unfoldable pub serve :
      Option (String × Source)
      → CategoryMeta
      → Exec (String × Option CategoryMeta)
      → Exec (String × Option CategoryMeta)
  serve (some (content, source)) meta later = pure (content, some meta)
  serve none meta later = later

  -- One round of the loop of `read_consistent`.
  unfoldable pub read_round :
      Option CategoryMeta
      → String
      → Exec (String × Option CategoryMeta)
      → Exec (String × Option CategoryMeta)
  read_round none name later = do r ← attempt (read_to_string (json_path name)); read_orphan name r
  read_round (some meta) name later = do
    found ← committed_content c.hash name meta.content_hash
    serve found meta later

  -- The rounds that are left; the pauses between them take time only.
  unfoldable pub read_rounds : Others → ℕ → String → Exec (String × Option CategoryMeta)
  read_rounds others zero name = throw (inconsistent name)
  read_rounds others (suc n) name = do
    meta ← get_meta name
    interfere (others n).0
    read_round meta name (do interfere (others n).1; read_rounds others n name)

  unfoldable pub read_consistent_among : Others → String → Exec (String × Option CategoryMeta)
  read_consistent_among others name = read_rounds others 40 name

  -- With no other process that writes, as under the write lock.
  unfoldable pub read_consistent : String → Exec (String × Option CategoryMeta)
  read_consistent name = read_rounds quiet 40 name

  -- `serde_json::from_str(&content)?`
  unfoldable pub decode : String → Exec Value
  decode content = or_throw (c.from_str content) json

  unfoldable pub read : String → Exec Value
  read name = do found ← read_consistent name; decode (found.0)

  unfoldable pub known_meta : String → Option CategoryMeta → Exec CategoryMeta
  known_meta name none = missing_category name
  known_meta name (some m) = pure m

  unfoldable pub read_with_meta : String → Exec (Value × CategoryMeta)
  read_with_meta name = do
    found ← read_consistent name
    meta ← known_meta name found.1
    value ← decode found.0
    pure (value, meta)

  -- `match self.read(name) { Ok(v) => Some(v), Err(NotFound) => None, Err(e) => return Err(e) }`
  unfoldable pub present : Attempt Value → Exec (Option Value)
  present (got v) = pure (some v)
  present (threw (not_found _ _ _)) = pure none
  present (threw e) = throw e

  unfoldable pub current_value : String → Exec (Option Value)
  current_value name = do r ← attempt (read name); present r

  abbrev pub holds_log : Option Value → Bool
  holds_log none = false
  holds_log (some v) = is_log v

  unfoldable pub is_log_category : String → Exec Bool
  is_log_category name = do v ← current_value name; pure (holds_log v)
