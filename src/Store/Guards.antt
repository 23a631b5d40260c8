-- ===== src/Store/Guards.antt =====
-- The checks of the mutations of src/store/mod.rs: the name, the kind and the expected hash.
use mcp_memory_rs.Common.{
  String, ◌≡◌, false, ◌||◌, Option, none, some, inl, inr, ◌==◌, eq_iff, Bool-cases, arith,
}
use mcp_memory_rs.Common.Text.{contains}
use mcp_memory_rs.Json.{Value}
use mcp_memory_rs.Log.{is_log}
use mcp_memory_rs.Error.{kind_mismatch, concurrency_conflict, invalid_name}
use mcp_memory_rs.Db.{CategoryMeta}
use mcp_memory_rs.World.{Disk, World, Exec, ◌>>◌}
use mcp_memory_rs.World.Ends.{Fault, by_error, Ends, Ends-pure, Ends-throw}
use mcp_memory_rs.AtomicJson.{validate_name}
use mcp_memory_rs.Store.Write.{guard_kind, guard_hash}

-- The compare-and-swap holds: where a hash is expected and there is a row, it is the hash of the row.
abbrev pub Expected : Option String → Option CategoryMeta → Type 0
Expected expected row =
    (h : String) (m : CategoryMeta) → expected ≡ some h → row ≡ some m → m.content_hash ≡ h

abbrev pub NoLog : Option Value → Type 0
NoLog o = (v : Value) → o ≡ some v → is_log v ≡ false

module _ {P R : Disk → Type 0} where
  pub Ends-guard_kind :
      (o : Option Value) (n : String) (w : World)
      → P w.disk
      → ((d : Disk) → P d → R d)
      → Ends (λ _ d. P d × NoLog o) (λ _ d. R d) (guard_kind o n w)
  unfolding guard_kind
  Ends-guard_kind none n w p k = Ends-pure tt w (p, λ v e. cc)
  Ends-guard_kind (some v) n w p k = elim (Bool-cases (is_log v)) [
    | inl q ↦ rw q (Ends-throw (kind_mismatch n) w (k w.disk p))
    | inr q ↦ rw q (Ends-pure tt w (p, λ u e. ground arith))
  ]

  pub Ends-guard_hash :
      (expected : Option String) (row : Option CategoryMeta) (w : World)
      → P w.disk
      → ((d : Disk) → P d → R d)
      → Ends (λ _ d. P d × Expected expected row) (λ _ d. R d) (guard_hash expected row w)
  unfolding guard_hash
  Ends-guard_hash none row w p k = Ends-pure tt w (p, λ h m e f. cc)
  Ends-guard_hash (some h) none w p k = Ends-pure tt w (p, λ h m e f. cc)
  Ends-guard_hash (some h) (some m) w p k = elim (Bool-cases (m.content_hash == h)) [
    | inl q ↦ rw q (Ends-pure tt w (p, λ g r e f. ground (arith, eq_iff m.content_hash h)))
    | inr q ↦ rw q (Ends-throw (concurrency_conflict h m.content_hash) w (k w.disk p))
  ]

-- A name is checked before the lock is taken.
pub Ends-validated :
    {A : Type 0} {Q : A → Disk → Type 0} {R : Fault → Disk → Type 0} (n : String) (m : Exec A)
    (w : World)
    → ((f : Fault) → R f w.disk)
    → Ends Q R (m w)
    → Ends Q R ((do validate_name n; m) w)
unfolding validate_name
Ends-validated n m w r h =
    elim (Bool-cases (n == "" || contains n "/" || contains n "\\" || contains n "..")) [
      | inl q ↦ rw q (Ends-throw (invalid_name n) w (r (by_error (invalid_name n))))
      | inr q ↦ rw q h
    ]
