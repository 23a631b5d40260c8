-- ===== src/AtomicJson/Settling.antt =====
-- Settling the pending files of a category under the write lock: the state inside the transaction,
-- what a change to the files of one category must keep, and the rule of a tolerated missing file.
-- `Staged` is about the staged writes, `Parked` about the parked deletes, and `Pending` about the test
-- whether there are any.
pub mod Listing
pub mod Staged
pub mod Finishing
pub mod Parked
pub mod Pending
use mcp_memory_rs.Common.{
  String, ◌≡◌, refl, ◌≢◌, ◌∙◌, ap, sym, subst, true, Option, none, some, arith, eq_iff,
}
use mcp_memory_rs.Common.Map.{find, find-erase, find-erase_ne}
use mcp_memory_rs.Common.Text.{dot_free}
use mcp_memory_rs.Error.{Result, ok, err, crashed, io, missing, other_io}
use mcp_memory_rs.Db.{CategoryMeta, Tables, hash_of_row}
use mcp_memory_rs.World.{continue, attempted, Disk, World, Exec, ◌>>=◌, attempt, moved, removed}
use mcp_memory_rs.World.Ends.{Fault, EndsBy, by_error, Ends, Ends-pure, Ends-throw}
use mcp_memory_rs.AtomicJson.{json_path, or_missing}
use mcp_memory_rs.AtomicJson.Paths.{IsStaged, IsParked, Candidate, is_final}
use mcp_memory_rs.AtomicJson.Recoverable.{
  Healthy, Recoverable, Recoverable-touch, find-moved, final_ne_staged, final_ne_parked,
}

-- The rule of `or_missing`: a file that is missing is as good as one that was handled.
module _ {A : Type 0} (P : Disk → Type 0) (E : Fault → Disk → Type 0) (a b : A) where
  abbrev or_missing_by :
      (r : Result (Unit {0}) × World)
      → EndsBy (λ _ d. P d) (λ f d. E f d × (f ≡ by_error (io missing) → P d)) r
      → Ends (λ _ d. P d) E (continue (attempted r) (λ x. or_missing x a b))
  unfolding or_missing
  or_missing_by (ok u, w) h = Ends-pure a w h
  or_missing_by (err (io missing), w) h = Ends-pure b w (h.1 refl)
  or_missing_by (err (io other_io), w) h = Ends-throw _ w h.0
  or_missing_by (err x, w) h = Ends-throw _ w h.0
  or_missing_by (crashed, w) h = record { holds = h.0 }

  pub Ends-or_missing :
      (m : Exec (Unit {0})) (w : World)
      → Ends (λ _ d. P d) (λ f d. E f d × (f ≡ by_error (io missing) → P d)) (m w)
      → Ends (λ _ d. P d) E ((attempt m >>= λ r. or_missing r a b) w)
  Ends-or_missing m w h = or_missing_by (m w) h.holds

-- The state inside a transaction that has not changed a row yet.
pub record Settling (hash : String → String) (s0 : Tables) (d : Disk) : Type 0 where
  pub recoverable : Recoverable hash d
  pub db_is : d.db ≡ s0
  pub saved_is : d.saved ≡ s0

abbrev pub NoStaged : String → Disk → Type 0
NoStaged n d = (p : String) → IsStaged n p → find p d.files ≡ none

abbrev pub NoParked : String → Disk → Type 0
NoParked n d = (p : String) → IsParked n p → find p d.files ≡ none

-- The hash that is committed for a category.
abbrev pub committed : String → Tables → Option String
committed n t = hash_of_row (find n t.category)

-- Everything but the files and the backups is as before.
pub record SameRows (d d' : Disk) : Type 0 where
  pub db : d'.db ≡ d.db
  pub saved : d'.saved ≡ d.saved
  pub unlisted : d'.unlisted ≡ d.unlisted

module _ (hash : String → String) (n : String) (dn : dot_free n ≡ true) (s0 : Tables) where
  pub Settling-touch :
      (d d' : Disk)
      → SameRows d d'
      → ((p : String) → (Candidate n p → ⊥) → find p d'.files ≡ find p d.files)
      → ((h : String)
          → committed n s0 ≡ some h
          → Healthy hash n h d.files
          → Healthy hash n h d'.files)
      → Settling hash s0 d
      → Settling hash s0 d'
  Settling-touch d d' rows same own s = record {
    recoverable =
        Recoverable-touch hash n d d' dn rows.saved rows.unlisted same
          (λ row e.
            let e' : find n s0.category ≡ some row =
              ap (λ t. find n t.category) (sym s.saved_is) ∙ e in
            own row.content_hash (ap hash_of_row e') (s.recoverable.healthy n row dn e))
          s.recoverable;
    db_is = rows.db ∙ s.db_is;
    saved_is = rows.saved ∙ s.saved_is;
  }

module _ (n : String) where
  -- A file of the category that is renamed over the final file.
  pub promoted_same :
      (p c : String) (d : Disk)
      → Candidate n p
      → (q : String) → (Candidate n q → ⊥)
      → find q (moved p (json_path n) c d).files ≡ find q d.files
  promoted_same p c d k q nq =
      let a : json_path n ≢ q = λ e. nq (is_final (sym e)) in
      let b : p ≢ q = λ e. nq (subst (Candidate n) e k) in
      ground (arith, find-moved p (json_path n) c q d.files, eq_iff (json_path n) q, eq_iff p q)

  pub promoted_gone :
      (p c : String) (d : Disk) → json_path n ≢ p → find p (moved p (json_path n) c d).files ≡ none
  promoted_gone p c d ne =
      ground (arith, find-moved p (json_path n) c p d.files, eq_iff (json_path n) p, eq_iff p p)

  pub promoted_keeps_none :
      (p c : String) (d : Disk) (q : String)
      → json_path n ≢ q
      → find q d.files ≡ none
      → find q (moved p (json_path n) c d).files ≡ none
  promoted_keeps_none p c d q ne e =
      ground (arith, find-moved p (json_path n) c q d.files, eq_iff (json_path n) q)

  -- So no other staged or parked file comes up.
  pub NoStaged-promoted :
      (p c : String) (d : Disk) → NoStaged n d → NoStaged n (moved p (json_path n) c d)
  NoStaged-promoted p c d h q s = promoted_keeps_none p c d q (final_ne_staged n q s) (h q s)

  pub NoParked-promoted :
      (p c : String) (d : Disk) → NoParked n d → NoParked n (moved p (json_path n) c d)
  NoParked-promoted p c d h q k = promoted_keeps_none p c d q (final_ne_parked n q k) (h q k)

-- A file of the category that is removed.
pub removed_same :
    (n p : String) (d : Disk)
    → Candidate n p
    → (q : String) → (Candidate n q → ⊥)
    → find q (removed p d).files ≡ find q d.files
removed_same n p d k q nq = find-erase_ne q p d.files (λ e. nq (subst (Candidate n) (sym e) k))

pub removed_keeps_none :
    (p : String) (d : Disk) (q : String) → find q d.files ≡ none → find q (removed p d).files ≡ none
removed_keeps_none p d q e = ground (arith, find-erase q p d.files)
