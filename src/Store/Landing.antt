-- ===== src/Store/Landing.antt =====
-- The end of an upsert: COMMIT, and the staged file renamed over the final file.
use mcp_memory_rs.Common.{
  String, ◌≡◌, ◌≢◌, refl, ◌∙◌, ap, sym, subst, ◌⊎◌, inl, inr, true, some, eq_iff, ◌==◌, Bool-cases,
  arith,
}
use mathlib.Core.Option.{some-injective}
use mcp_memory_rs.Common.Map.{find, find-put_self}
use mcp_memory_rs.Common.Text.{dot_free}
use mcp_memory_rs.Db.{CategoryMeta, Tables}
use mcp_memory_rs.World.{Disk, World, pure, ◌>>◌, commit, rename, moved}
use mcp_memory_rs.World.Ends.{Ends, Ends-mono, Ends-bind, Ends-pure}
use mcp_memory_rs.World.Accesses.{Ends-commit, Ends-rename, Back}
use mcp_memory_rs.AtomicJson.{json_path, promote}
use mcp_memory_rs.AtomicJson.Paths.{Candidate, is_staged}
use mcp_memory_rs.AtomicJson.Recoverable.{Healthy, Recoverable, Recoverable-touch, Healthy-promoted}
use mcp_memory_rs.AtomicJson.Settling.{Ends-or_missing, promoted_same}
use mcp_memory_rs.Store.Tables.{RowSet}
use mcp_memory_rs.Store.Staging.{Before, Staging}

-- All or nothing: the committed tables are the old ones or wanted ones, no change is left open, and
-- the store is recoverable.
pub record Atomic (hash : String → String) (s0 : Tables) (New : Tables → Type 0) (d : Disk)
    : Type 0 where
  pub recoverable : Recoverable hash d
  pub at_rest : d.db ≡ d.saved
  pub either : (d.saved ≡ s0) ⊎ New d.saved

-- The change is committed and its file is in place.
pub record Landed (hash : String → String) (n content : String) (s1 : Tables) (d : Disk)
    : Type 0 where
  pub recoverable : Recoverable hash d
  pub at_rest : d.db ≡ d.saved
  pub saved_is : d.saved ≡ s1
  pub final_file : find (json_path n) d.files ≡ some content

pub Recoverable-Back :
    (hash : String → String) (d : Disk) → Recoverable hash d → Recoverable hash (Back d)
Recoverable-Back hash d r = record { is_listed = r.is_listed; healthy = r.healthy }

pub Atomic-Before :
    (hash : String → String) (s0 : Tables) (New : Tables → Type 0) (d : Disk)
    → Before hash s0 d
    → Atomic hash s0 New (Back d)
Atomic-Before hash s0 New d b = record {
  recoverable = Recoverable-Back hash d b.recoverable;
  at_rest = refl;
  either = inl b.saved_is;
}

module _ (hash : String → String) (n : String) (dn : dot_free n ≡ true) (s0 s1 : Tables)
    (path content : String) (set : RowSet n (hash content) s0 s1) (New : Tables → Type 0)
    (new : New s1) where
  -- After the COMMIT, before the file is in place.
  record Committed (d : Disk) : Type 0 where
    recoverable : Recoverable hash d
    saved_is : d.saved ≡ s1
    is_candidate : Candidate n path
    found : find path d.files ≡ some content

  -- The staged file carries the new content of its category; the others are as they were.
  Healthy-committed :
      (d : Disk)
      → Staging hash n s0 path content s1 d
      → (m : String) (row : CategoryMeta) → dot_free m ≡ true
      → find m s1.category ≡ some row
      → Healthy hash m row.content_hash d.files
  Healthy-committed d g m row dm e = elim (Bool-cases (m == n)) [
    | inl q ↦
        let mn : m ≡ n = (eq_iff m n).0 q in
        let rows : row ≡ set.row =
          some-injective _ _ (sym e ∙ ap (λ x. find x s1.category) mn ∙ set.found) in
        subst (λ x. Healthy hash x row.content_hash d.files) (sym mn)
          (record {
            parked_agree = λ p b k f. cc (g.unparked p k, f);
            carrier = path;
            is_candidate = is_staged g.is_staged_path;
            content = content;
            found = g.found;
            agrees = sym (ap (λ r. r.content_hash) rows ∙ set.has_hash);
          })
    | inr q ↦
        let ne : m ≢ n = λ mn. ground (arith, eq_iff m n) in
        g.before.recoverable.healthy m row dm
          (ap (λ t. find m t.category) g.before.saved_is ∙ (sym (set.others m ne) ∙ e))
  ]

  Committed-Staging :
      (d : Disk) → Staging hash n s0 path content s1 d → Committed (record d { saved = d.db })
  Committed-Staging d g = record {
    recoverable = record {
      is_listed = g.before.recoverable.is_listed;
      healthy = λ m row dm e.
          Healthy-committed d g m row dm (sym (ap (λ t. find m t.category) g.db_is) ∙ e);
    };
    saved_is = g.db_is;
    is_candidate = is_staged g.is_staged_path;
    found = g.found;
  }

  -- With `saved` for `db`, as the end of the transaction leaves them.
  Landed-moved :
      (b : String) (d : Disk)
      → Committed d
      → find path d.files ≡ some b
      → Landed hash n content s1 (Back (moved path (json_path n) b d))
  Landed-moved b d k f =
      let bc : b ≡ content = some-injective _ _ (sym f ∙ k.found) in
      record {
        recoverable = Recoverable-Back hash (moved path (json_path n) b d) (
            Recoverable-touch hash n d (moved path (json_path n) b d) dn refl refl
              (promoted_same n path b d k.is_candidate)
              (λ row e.
                let row_is : row ≡ set.row =
                  some-injective _ _
                    (sym e ∙ (ap (λ t. find n t.category) k.saved_is ∙ set.found)) in
                Healthy-promoted hash n row.content_hash d.files path b k.is_candidate
                  (ap hash bc ∙ sym (ap (λ r. r.content_hash) row_is ∙ set.has_hash))
                  (k.recoverable.healthy n row dn e))
              k.recoverable);
        at_rest = refl;
        saved_is = k.saved_is;
        final_file = find-put_self (json_path n) b _ ∙ ap (λ x. some x) bc;
      }

  Atomic-Committed : (d : Disk) → Committed d → Atomic hash s0 New (Back d)
  Atomic-Committed d k = record {
    recoverable = Recoverable-Back hash d k.recoverable;
    at_rest = refl;
    either = inr (subst New (sym k.saved_is) new);
  }

  Ends-promote :
      (w : World)
      → Committed w.disk
      → Ends
          (λ _ d. Landed hash n content s1 (Back d))
          (λ _ d. Atomic hash s0 New (Back d))
          (promote (record { staged = path; final_path = json_path n }) w)
  unfolding promote
  Ends-promote w k =
      Ends-or_missing (λ d. Landed hash n content s1 (Back d)) (λ _ d. Atomic hash s0 New (Back d))
        tt tt (rename path (json_path n)) w
        (Ends-mono
          (λ _ d (b, f, e).
            subst (λ x. Landed hash n content s1 (Back x)) (sym e) (Landed-moved b w.disk k f))
          (λ f d (e, miss). (
            subst (λ x. Atomic hash s0 New (Back x)) (sym e) (Atomic-Committed w.disk k),
            λ q. absurd (cc (miss q, k.found)),
          ))
          (Ends-rename path (json_path n) w))

  -- What is returned after the promotion.
  pub Ends-land :
      {A : Type 0} (a : A) (w : World)
      → Staging hash n s0 path content s1 w.disk
      → Ends
          (λ x d. (x ≡ a) × Landed hash n content s1 (Back d))
          (λ _ d. Atomic hash s0 New (Back d))
          ((do commit; promote (record { staged = path; final_path = json_path n }); pure a) w)
  Ends-land a w g =
      Ends-bind commit _ w
        (Ends-mono (λ _ d e. subst Committed (sym e) (Committed-Staging w.disk g))
          (λ _ d e.
            subst (λ x. Atomic hash s0 New (Back x)) (sym e)
              (Atomic-Before hash s0 New w.disk g.before))
          (Ends-commit w))
        (λ _ u k.
          Ends-bind (promote (record { staged = path; final_path = json_path n })) _ u
            (Ends-promote u k) (λ _ v l. Ends-pure a v (refl, l)))
