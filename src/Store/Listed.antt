-- ===== src/Store/Listed.antt =====
-- The rows of the database with their hashes, as `verify_store` of src/store/mod.rs goes through them.
use mcp_memory_rs.Common.{
  String, ◌≡◌, refl, ap, sym, ◌⊎◌, inl, inr, true, some, List, [], ◌∷◌, ◌==◌, eq_iff, is_nil, any,
  arith, Bool-cases,
}
use mathlib.Core.Option.{some-injective}
use mcp_memory_rs.Common.Map.{Map, find}
use mcp_memory_rs.Db.{CategoryMeta}
use mcp_memory_rs.Store.Report.{StoreReport, is_clean, hashes}

-- The database has a row of the category with the hash.
abbrev pub HasRow : String → String → List (String × String) → Type 0
HasRow n h [] = ⊥
HasRow n h ((m, g) ∷ rows) = ((n ≡ m) × (h ≡ g)) ⊎ HasRow n h rows

pub HasRow-find :
    (n : String) (row : CategoryMeta) (m : Map CategoryMeta)
    → find n m ≡ some row
    → HasRow n row.content_hash (hashes m)
unfolding find
HasRow-find n row [] e = cc
HasRow-find n row ((k, r) ∷ m) e = elim (Bool-cases (k == n)) [
  | inl q ↦ inl (
    sym ((eq_iff k n).0 q),
    ap (λ (x : CategoryMeta). x.content_hash) (sym (some-injective r row (rw q at e))),
  )
  | inr q ↦ inr (HasRow-find n row m (rw q at e))
]

pub clean_parts :
    (r : StoreReport)
    → is_clean r ≡ true
    → (is_nil r.mismatches ≡ true) × (is_nil r.orphan_files ≡ true) × (is_nil r.pending ≡ true)
unfolding is_clean
clean_parts r e = (ground arith, ground arith, ground arith)

pub HasRow-any :
    (n : String) (rows : List (String × String))
    → any (λ (r : String × String). r.0 == n) rows ≡ true
    → (h : String) × HasRow n h rows
HasRow-any n [] e = cc
HasRow-any n ((m, g) ∷ rows) e = elim (Bool-cases (m == n)) [
  | inl q ↦ (g, inl (sym ((eq_iff m n).0 q), refl))
  | inr q ↦ let (h, has) = HasRow-any n rows (rw q at e) in (h, inr has)
]
