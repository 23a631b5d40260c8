-- ===== src/Store/Report.antt =====
-- `verify_store` and `StoreReport::is_clean` of src/store/mod.rs: a report on a store that is not opened.
use mcp_memory_rs.Common.{
  ℕ, String, Bool, ◌&&◌, not, Option, none, some, List, [], ◌∷◌, ◌==◌, is_nil, is_some,
  if◌then◌else◌, length, keep, any,
}
use mcp_memory_rs.Common.Map.{Map}
use mcp_memory_rs.Error.{sqlite, not_found}
use mcp_memory_rs.Db.{CategoryMeta, Tables}
use mcp_memory_rs.World.{Exec, pure, throw, ◌>>=◌, ◌>>◌, access, reading}
use mcp_memory_rs.AtomicJson.{Source, committed_content}
use mcp_memory_rs.AtomicJson.Names.{pending_names, json_names}
use mcp_memory_rs.Codec.{Codec}

pub record StoreReport : Type 0 where
  pub integrity : String
  pub journal_mode : String
  pub categories : ℕ
  pub mismatches : List String
  pub orphan_files : List String
  pub pending : List String
  pub interrupted_restore : Option String

unfoldable pub is_clean : StoreReport → Bool
is_clean r =
    r.integrity == "ok"
    && is_nil r.mismatches
    && is_nil r.orphan_files
    && is_nil r.pending
    && not (is_some r.interrupted_restore)

-- What the report takes from outside of the directory of the categories: whether the database file is
-- there, the answers of two PRAGMAs, and the marker of a restore.
pub record Probe : Type 0 where
  pub db_path : String
  pub db_exists : Bool
  pub integrity_check : String
  pub journal_mode : String
  pub restore_marker : Option String

-- A SELECT on a connection of its own, which sees what was committed.
unfoldable pub select {ℓ} : {A : Type ℓ} → (Tables → A) → Exec A
select f = reading sqlite (λ d. f d.saved)

-- SELECT name, content_hash FROM category ORDER BY name
abbrev pub hashes : Map CategoryMeta → List (String × String)
hashes [] = []
hashes ((name, m) ∷ rows) = (name, m.content_hash) ∷ hashes rows

abbrev pub with_mismatch : Option (String × Source) → String → List String → List String
with_mismatch (some _) name names = names
with_mismatch none name names = name ∷ names

abbrev pub unknown : List (String × String) → List String → List String
unknown rows files = keep (λ f. not (any (λ (r : String × String). r.0 == f) rows)) files

module _ (c : Codec) where
  -- The loop over the rows.
  unfoldable pub mismatched : List (String × String) → Exec (List String)
  mismatched [] = pure []
  mismatched ((name, hash) ∷ rows) = do
    found ← committed_content c.hash name hash
    names ← mismatched rows
    pure (with_mismatch found name names)

  unfoldable pub report_of : Probe → Exec StoreReport
  report_of probe = do
    access sqlite (λ d. d)
    access sqlite (λ d. d)
    integrity ← select (λ _. probe.integrity_check)
    journal ← select (λ _. probe.journal_mode)
    pending ← pending_names
    rows ← select (λ t. hashes t.category)
    mismatches ← mismatched rows
    files ← json_names
    pure (record {
      integrity = integrity;
      journal_mode = journal;
      categories = length rows;
      mismatches = mismatches;
      orphan_files = unknown rows files;
      pending = pending;
      interrupted_restore = probe.restore_marker;
    })

  unfoldable pub verify_store : Probe → Exec StoreReport
  verify_store probe =
      if probe.db_exists then report_of probe else throw (not_found probe.db_path [] 0)
