-- ===== src/Db.antt =====
-- The tables of memory.db (`init_schema_in` of src/store/mod.rs) and the SQL statements of the code on
-- them. A table with a text key is a map, which also gives `ORDER BY name`.
use mcp_memory_rs.Common.{
  ℕ, String, not, ◌||◌, Option, none, some, List, [], ◌∷◌, ◌++◌, ◌==◌, keep, take, map, nat_eq, any,
  ◌+◌,
}
use mcp_memory_rs.Common.Map.{Map, find, put, erase}

-- A row of `category`.
pub record CategoryMeta : Type 0 where
  pub name : String
  pub namespace : String
  pub content_hash : String
  pub updated_at : String
  pub updated_by : String
  pub write_policy : String
  pub size_bytes : ℕ

abbrev pub hash_of_row : Option CategoryMeta → Option String
hash_of_row none = none
hash_of_row (some m) = some m.content_hash

-- A row of `category_version`.
pub record VersionEntry : Type 0 where
  pub id : ℕ
  pub category_name : String
  pub content_hash : String
  pub reason : Option String
  pub actor : String
  pub timestamp : String

-- A row of `search_index`.
pub record IndexRow : Type 0 where
  pub category_name : String
  pub key_path : String
  pub value_text : String

-- A row of `sync_dirty`.
pub record DirtyEntry : Type 0 where
  pub category_name : String
  pub operation : String
  pub content_hash : Option String
  pub marked_at : String

-- `last_version` is the counter behind `AUTOINCREMENT`. The newest version stands first, so that
-- `ORDER BY id DESC` is the order of the list.
pub record Tables : Type 0 where
  pub category : Map CategoryMeta
  pub category_version : List VersionEntry
  pub last_version : ℕ
  pub search_index : List IndexRow
  pub sync_state : Map String
  pub sync_dirty : Map DirtyEntry

-- INSERT INTO category
unfoldable pub insert_category : CategoryMeta → Tables → Tables
insert_category m t = record t { category = put m.name m t.category }

-- UPDATE category SET content_hash, updated_at, updated_by, size_bytes WHERE name
unfoldable pub update_category : String → String → String → String → ℕ → Tables → Tables
update_category name hash at by size t = elim (find name t.category) [
  | none ↦ t
  | some row ↦ record t {
    category =
        put name
          (record row { content_hash = hash; updated_at = at; updated_by = by; size_bytes = size })
          t.category;
  }
]

-- DELETE FROM category WHERE name
unfoldable pub delete_category : String → Tables → Tables
delete_category name t = record t { category = erase name t.category }

-- INSERT INTO category_version
unfoldable pub insert_version : String → String → Option String → String → String → Tables → Tables
insert_version name hash reason actor at t = record t {
  category_version =
      record {
        id = t.last_version + 1;
        category_name = name;
        content_hash = hash;
        reason = reason;
        actor = actor;
        timestamp = at;
      }
      ∷ t.category_version;
  last_version = t.last_version + 1;
}

-- DELETE FROM category_version WHERE category_name
unfoldable pub delete_versions : String → Tables → Tables
delete_versions name t = record t {
  category_version = keep (λ v. not (v.category_name == name)) t.category_version;
}

-- SELECT ... FROM category_version WHERE category_name ORDER BY id DESC LIMIT
unfoldable pub select_versions : String → ℕ → Tables → List VersionEntry
select_versions name limit t = take limit (keep (λ v. v.category_name == name) t.category_version)

-- DELETE FROM search_index WHERE category_name
unfoldable pub delete_index : String → Tables → Tables
delete_index name t = record t {
  search_index = keep (λ r. not (r.category_name == name)) t.search_index;
}

-- INSERT INTO search_index
unfoldable pub insert_index : IndexRow → Tables → Tables
insert_index r t = record t { search_index = t.search_index ++ r ∷ [] }

-- INSERT OR REPLACE INTO sync_state, DELETE FROM sync_state WHERE key
unfoldable pub set_state : String → String → Tables → Tables
set_state key value t = record t { sync_state = put key value t.sync_state }

unfoldable pub delete_state : String → Tables → Tables
delete_state key t = record t { sync_state = erase key t.sync_state }

-- INSERT OR REPLACE INTO sync_dirty, DELETE FROM sync_dirty WHERE category_name
unfoldable pub set_dirty : DirtyEntry → Tables → Tables
set_dirty d t = record t { sync_dirty = put d.category_name d t.sync_dirty }

unfoldable pub delete_dirty : String → Tables → Tables
delete_dirty name t = record t { sync_dirty = erase name t.sync_dirty }

-- DELETE FROM category_version WHERE category_name AND id NOT IN (SELECT ... LIMIT max)
unfoldable pub prune_versions_table : String → ℕ → Tables → Tables
prune_versions_table name limit t =
    let ids =
      map (λ (v : VersionEntry). v.id)
        (take limit (keep (λ (v : VersionEntry). v.category_name == name) t.category_version)) in
    record t {
      category_version =
          keep (λ v. not (v.category_name == name) || any (λ i. nat_eq i v.id) ids)
            t.category_version;
    }
