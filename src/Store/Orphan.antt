-- ===== src/Store/Orphan.antt =====
-- The final file of a category without a row, when `settle_locked` of src/store/mod.rs settles the category.
use mcp_memory_rs.Common.{
  String, ◌≡◌, refl, ◌∙◌, ap, sym, subst, Bool, true, false, Option, none, List, [], ◌∷◌, All,
  is_some, Option-cases, inl, inr,
}
use mcp_memory_rs.Common.Map.{find, find-erase_ne}
use mcp_memory_rs.Error.{io, missing, other_io}
use mcp_memory_rs.Db.{hash_of_row}
use mcp_memory_rs.World.{
  Disk, World, Exec, Attempt, got, threw, attempt, ◌>>=◌, ◌>>◌, pure, files_with_prefix,
  remove_file, read_to_string,
}
use mcp_memory_rs.World.Ends.{
  Ends, Ends-mono, Ends-bind, Ends-pure, Ends-throw, Ends-always, Ends-attempt_any,
}
use mcp_memory_rs.World.Accesses.{Ends-query, Ends-read_to_string, Ends-remove_file}
use mcp_memory_rs.AtomicJson.{
  Settled, json_path, staged_prefix, deleted_prefix, or_missing, settle_read, settle_staged_files,
  settle_staged, settle_deleted_files, settle_deleted, nothing_settled, finish_delete, staged_files,
  deleted_files,
}
use mcp_memory_rs.AtomicJson.Paths.{IsStaged, IsParked}
use mcp_memory_rs.AtomicJson.Recoverable.{final_ne_staged, final_ne_parked}
use mcp_memory_rs.AtomicJson.Settling.Listing.{Ends-listed}
use mcp_memory_rs.AtomicJson.Settling.Finishing.{Ends-finish_delete}
use mcp_memory_rs.AtomicJson.Settling.Pending.{pending, has_pending_lem}
use mcp_memory_rs.Codec.{Codec, Times}
use mcp_memory_rs.Store.Read.{get_meta, settle_pending, settle_locked}

module _ (n : String) (o : Option String) where
  -- The final file, or that there is none.
  abbrev Final : Disk → Type 0
  Final d = find (json_path n) d.files ≡ o

  abbrev Keeps : {A : Type 0} → Exec A → Type 0
  Keeps m = (w : World) → Final w.disk → Ends (λ _ d. Final d) (λ _ d. Final d) (m w)

  Keeps-attempt : {A : Type 0} (m : Exec A) → Keeps m → Keeps (attempt m)
  Keeps-attempt m k w g = Ends-attempt_any m w (k w g) (λ d h. h)

  Keeps-bind :
      {A B : Type 0} (m : Exec A) (f : A → Exec B)
      → Keeps m
      → ((a : A) → Keeps (f a))
      → Keeps (m >>= f)
  Keeps-bind m f k l w g = Ends-bind m f w (k w g) (λ a u h. l a u h)

  Keeps-or_missing : (r : Attempt (Unit {0})) (a b : Settled) → Keeps (or_missing r a b)
  unfolding or_missing
  Keeps-or_missing (got _) a b w g = Ends-pure a w g
  Keeps-or_missing (threw (io missing)) a b w g = Ends-pure b w g
  Keeps-or_missing (threw (io other_io)) a b w g = Ends-throw _ w g
  Keeps-or_missing (threw x) a b w g = Ends-throw _ w g

  Keeps-remove_file : (p : String) → IsStaged n p → Keeps (remove_file p)
  Keeps-remove_file p s w g =
      Ends-mono
        (λ _ d e.
          subst Final (sym e) (find-erase_ne (json_path n) p w.files (final_ne_staged n p s) ∙ g))
        (λ _ d e. subst Final (sym e.0) g) (Ends-remove_file p w)

  Keeps-read_to_string : (p : String) → Keeps (read_to_string p)
  Keeps-read_to_string p w g =
      Ends-mono (λ _ d e. subst Final (sym e.0) g) (λ _ d e. subst Final (sym e.0) g)
        (Ends-read_to_string p w)

  Keeps-finish_delete : (p time : String) → IsParked n p → Keeps (finish_delete p n time)
  Keeps-finish_delete p time k w g =
      Ends-mono
        (λ _ d s.
          ap (find (json_path n)) s.files_are
          ∙ (find-erase_ne (json_path n) p w.files (final_ne_parked n p k) ∙ g))
        (λ _ d s. ap (find (json_path n)) s.0.files_are ∙ g)
        (Ends-finish_delete p w.disk n time w
          (record { files_are = refl; rows = record { db = refl; saved = refl; unlisted = refl } }))

  module _ (hash : String → String) where
    Keeps-settle_read :
        (r : Attempt String) (p : String) (out : Settled)
        → IsStaged n p
        → Keeps (settle_read hash r p n none out)
    unfolding settle_read
    Keeps-settle_read (got content) p out s =
        Keeps-bind (attempt (remove_file p)) _
          (Keeps-attempt (remove_file p) (Keeps-remove_file p s)) (λ r. Keeps-or_missing r _ _)
    Keeps-settle_read (threw (io missing)) p out s = λ w g. Ends-pure out w g
    Keeps-settle_read (threw (io other_io)) p out s = λ w g. Ends-throw _ w g
    Keeps-settle_read (threw x) p out s = λ w g. Ends-throw _ w g

    Keeps-settle_staged_files :
        (paths : List String) (out : Settled)
        → All (λ p. IsStaged n p) paths
        → Keeps (settle_staged_files hash paths n none out)
    unfolding settle_staged_files
    Keeps-settle_staged_files [] out a = λ w g. Ends-pure out w g
    Keeps-settle_staged_files (p ∷ paths) out (s, a) =
        Keeps-bind (attempt (read_to_string p)) _
          (Keeps-attempt (read_to_string p) (Keeps-read_to_string p))
          (λ r.
            Keeps-bind (settle_read hash r p n none out) _ (Keeps-settle_read r p out s)
              (λ next. Keeps-settle_staged_files paths next a))

    Keeps-settle_staged : Keeps (settle_staged hash n none)
    unfolding settle_staged staged_files
    Keeps-settle_staged w g =
        Ends-bind (files_with_prefix (staged_prefix n)) _ w
          (Ends-listed (staged_prefix n) Final w g)
          (λ paths u h. Keeps-settle_staged_files paths nothing_settled h.0 u h.1.0)

  Keeps-settle_deleted_files :
      (paths : List String) (time : String) (out : Settled)
      → All (λ p. IsParked n p) paths
      → Keeps (settle_deleted_files paths n false time out)
  unfolding settle_deleted_files
  Keeps-settle_deleted_files [] time out a = λ w g. Ends-pure out w g
  Keeps-settle_deleted_files (p ∷ paths) time out (k, a) =
      Keeps-bind (attempt (finish_delete p n time)) _
        (Keeps-attempt (finish_delete p n time) (Keeps-finish_delete p time k))
        (λ r.
          Keeps-bind (or_missing r _ out) _ (Keeps-or_missing r _ out)
            (λ next. Keeps-settle_deleted_files paths time next a))

  Keeps-settle_deleted : (time : String) → Keeps (settle_deleted n false time)
  unfolding settle_deleted deleted_files
  Keeps-settle_deleted time w g =
      Ends-bind (files_with_prefix (deleted_prefix n)) _ w
        (Ends-listed (deleted_prefix n) Final w g)
        (λ paths u h. Keeps-settle_deleted_files paths time nothing_settled h.0 u h.1.0)

  Keeps-settle_pending :
      (c : Codec) (b : Bool) (t : Times) (w : World)
      → find n w.db.category ≡ none
      → Final w.disk
      → Ends (λ _ d. Final d) (λ _ d. Final d) (settle_pending c b n t w)
  unfolding settle_pending get_meta
  Keeps-settle_pending c false t w e g = Ends-pure tt w g
  Keeps-settle_pending c true t w e g =
      Ends-bind {Q = λ row d. Final d × (row ≡ none)} (get_meta n) _ w
        (Ends-mono (λ row d k. (subst Final (sym k.0) g, k.1 ∙ e)) (λ _ d k. subst Final (sym k) g)
          (Ends-query (λ t. find n t.category) w))
        (λ row u k.
          subst
            (λ row.
              Ends (λ _ d. Final d) (λ _ d. Final d)
                ((do
                  settle_staged c.hash n (hash_of_row row)
                  settle_deleted n (is_some row) t.settled_at
                  pure tt)
                  u))
            (sym k.1)
            (Ends-bind (settle_staged c.hash n none) _ u (Keeps-settle_staged c.hash u k.0)
              (λ _ v g'.
                Ends-bind (settle_deleted n false t.settled_at) _ v
                  (Keeps-settle_deleted t.settled_at v g') (λ _ x h. Ends-pure tt x h))))

-- Without a row, settling leaves the final file as it is.
pub Ends-settled_orphan :
    (c : Codec) (n : String) (t : Times) (w : World)
    → w.unlisted ≡ false
    → Ends
        (λ _ d.
          find n w.db.category ≡ none → find (json_path n) d.files ≡ find (json_path n) w.files)
        (λ _ _. Unit {0})
        (settle_locked c n t w)
unfolding settle_locked
Ends-settled_orphan c n t w e = elim (Option-cases (find n w.db.category)) [
  | inl q ↦
      Ends-mono {R = λ _ d. find (json_path n) d.files ≡ find (json_path n) w.files} (λ _ d h f. h)
        (λ _ d h. tt)
        (rw (has_pending_lem n w e)
          (Keeps-settle_pending n (find (json_path n) w.files) c (pending n w) t w q refl))
  | inr (row, q) ↦ Ends-always (λ _ d f. absurd (cc (q, f))) (λ _ d. tt) _
]
