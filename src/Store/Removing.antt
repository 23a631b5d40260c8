-- ===== src/Store/Removing.antt =====
-- The second half of `delete` of src/store/mod.rs: the rows in the open transaction, and what the COMMIT
-- and the removal of the parked file leave.
use mcp_memory_rs.Common.{
  String, ◌≡◌, refl, ◌∙◌, ap, sym, subst, inl, inr, true, Option, none, some, Bool-cases, eq_iff,
  ◌==◌, arith,
}
use mathlib.Core.Option.{some-injective}
use mcp_memory_rs.Common.Map.{Map, find, erase, find-erase, find-erase_self, find-erase_ne}
use mcp_memory_rs.Common.Text.{dot_free}
use mcp_memory_rs.Db.{
  CategoryMeta, Tables, DirtyEntry, delete_index, delete_versions, delete_category, delete_state,
  set_dirty,
}
use mcp_memory_rs.World.{Disk, World, execute}
use mcp_memory_rs.World.Ends.{Ends, Ends-mono, Ends-bind}
use mcp_memory_rs.World.Accesses.{Ends-execute, Back}
use mcp_memory_rs.AtomicJson.{finish_delete, promote_delete}
use mcp_memory_rs.AtomicJson.Paths.{IsParked, Candidate, is_parked}
use mcp_memory_rs.AtomicJson.Recoverable.{Recoverable, Recoverable-touch}
use mcp_memory_rs.AtomicJson.Settling.{Ends-or_missing, removed_same, removed_keeps_none}
use mcp_memory_rs.AtomicJson.Settling.Finishing.{SameFiles, SameFiles-self, Ends-finish_delete}
use mcp_memory_rs.Codec.{Codec, Times}
use mcp_memory_rs.Store.Rows.{mark_dirty}
use mcp_memory_rs.Store.Write.{remote_hash_key, delete_rows}
use mcp_memory_rs.Store.Staging.{Before}
use mcp_memory_rs.Store.Landing.{Atomic, Recoverable-Back}
use mcp_memory_rs.Store.Parking.{OnlyFile, Parking}

module _ (c : Codec) (n : String) (dn : dot_free n ≡ true) (t : Times) where
  abbrev marked : DirtyEntry
  marked = record {
    category_name = n;
    operation = "delete";
    content_hash = none;
    marked_at = t.marked_at;
  }

  -- The tables that a delete commits.
  abbrev pub tables_of : Tables → Tables
  tables_of s0 =
      set_dirty marked (
        delete_state (remote_hash_key n)
          (delete_category n (delete_versions n (delete_index n s0))))

  -- The row is gone, and every other category is as before.
  found-tables_of :
      (s0 : Tables) (m : String) → find m (tables_of s0).category ≡ find m (erase n s0.category)
  unfolding set_dirty delete_state delete_category delete_versions delete_index
  found-tables_of s0 m = refl

  -- What a delete leaves: its tables are committed, no file of the category is there, and the content
  -- of every other category can be read.
  pub record Deleted (s1 : Tables) (d : Disk) : Type 0 where
    pub recoverable : Recoverable c.hash d
    pub at_rest : d.db ≡ d.saved
    pub saved_is : d.saved ≡ s1
    pub no_file_left : (p : String) → Candidate n p → find p d.files ≡ none

  module _ (s0 : Tables) where
    abbrev pub Wanted : Tables → Type 0
    Wanted s = s ≡ tables_of s0

    module _ (parked : Option String) where
      Ends-execute-Parking :
          (f : Tables → Tables) (s : Tables) (w : World)
          → Parking c.hash n s0 parked s w.disk
          → Ends
              (λ _ d. Parking c.hash n s0 parked (f s) d)
              (λ _ d. Before c.hash s0 d)
              (execute f w)
      Ends-execute-Parking f s w g =
          Ends-mono
            (λ _ d e. subst (Parking c.hash n s0 parked (f s)) (sym e) (record {
              before = record {
                recoverable = record {
                  is_listed = g.before.recoverable.is_listed;
                  healthy = g.before.recoverable.healthy;
                };
                saved_is = g.before.saved_is;
              };
              only = g.only;
              db_is = ap f g.db_is;
            }))
            (λ _ d e. subst (Before c.hash s0) (sym e) g.before) (Ends-execute f w)

      pub Ends-delete_rows :
          (w : World)
          → Parking c.hash n s0 parked s0 w.disk
          → Ends
              (λ _ d. Parking c.hash n s0 parked (tables_of s0) d)
              (λ _ d. Before c.hash s0 d)
              (delete_rows c n t w)
      unfolding delete_rows mark_dirty
      Ends-delete_rows w g =
          Ends-bind (execute (delete_index n)) _ w (Ends-execute-Parking (delete_index n) s0 w g)
            (λ _ w1 g1.
              Ends-bind (execute (delete_versions n)) _ w1
                (Ends-execute-Parking (delete_versions n) _ w1 g1)
                (λ _ w2 g2.
                  Ends-bind (execute (delete_category n)) _ w2
                    (Ends-execute-Parking (delete_category n) _ w2 g2)
                    (λ _ w3 g3.
                      Ends-bind (execute (delete_state (remote_hash_key n))) _ w3
                        (Ends-execute-Parking (delete_state (remote_hash_key n)) _ w3 g3)
                        (λ _ w4 g4. Ends-execute-Parking (set_dirty marked) _ w4 g4))))

      -- After the COMMIT.
      pub record Committed (d : Disk) : Type 0 where
        pub recoverable : Recoverable c.hash d
        pub saved_is : d.saved ≡ tables_of s0
        pub only : OnlyFile n parked d

      pub Committed-Parking :
          (d : Disk)
          → Parking c.hash n s0 parked (tables_of s0) d
          → Committed (record d { saved = d.db })
      Committed-Parking d g = record {
        recoverable = record {
          is_listed = g.before.recoverable.is_listed;
          healthy = λ m row dm e.
              let f : find m (erase n s0.category) ≡ some row =
                sym (found-tables_of s0 m) ∙ (sym (ap (λ s. find m s.category) g.db_is) ∙ e) in
              elim (Bool-cases (m == n)) [
                | inl q ↦
                    absurd (ground (arith, eq_iff m n, eq_iff n m, find-erase m n s0.category))
                | inr q ↦ g.before.recoverable.healthy m row dm (
                    ap (λ s. find m s.category) g.before.saved_is
                    ∙ (sym (find-erase_ne m n s0.category (λ mn. ground (arith, eq_iff m n))) ∙ f))
              ];
        };
        saved_is = g.db_is;
        only = g.only;
      }

      Atomic-Committed : (d : Disk) → Committed d → Atomic c.hash s0 Wanted (Back d)
      Atomic-Committed d k = record {
        recoverable = Recoverable-Back c.hash d k.recoverable;
        at_rest = refl;
        either = inr k.saved_is;
      }

      row_gone :
          (d : Disk) (row : CategoryMeta) → Committed d → find n d.saved.category ≡ some row → ⊥
      row_gone d row k e = cc (
        sym (found-tables_of s0 n) ∙ (sym (ap (λ s. find n s.category) k.saved_is) ∙ e),
        find-erase_self n s0.category,
      )

      -- Only files of the category change.
      Committed-SameFiles :
          (files : Map String) (d d' : Disk)
          → SameFiles files d d'
          → ((p : String) → (Candidate n p → ⊥) → find p files ≡ find p d.files)
          → ((p : String) → find p d.files ≡ none → find p files ≡ none)
          → Committed d
          → Committed d'
      Committed-SameFiles files d d' same apart fewer k = record {
        recoverable =
            Recoverable-touch c.hash n d d' dn same.rows.saved same.rows.unlisted
              (λ p np. ap (find p) same.files_are ∙ apart p np)
              (λ row e. absurd (row_gone d row k e)) k.recoverable;
        saved_is = same.rows.saved ∙ k.saved_is;
        only = λ p is_c. elim (k.only p is_c) [
          | inl e ↦ inl (ap (find p) same.files_are ∙ fewer p e)
          | inr q ↦ inr q
        ];
      }

      pub Deleted-Committed :
          (d : Disk)
          → Committed d
          → ((p : String) → some p ≡ parked → find p d.files ≡ none)
          → Deleted (tables_of s0) (Back d)
      Deleted-Committed d k gone = record {
        recoverable = Recoverable-Back c.hash d k.recoverable;
        at_rest = refl;
        saved_is = k.saved_is;
        no_file_left = λ p is_c. elim (k.only p is_c) [ inl e ↦ e | inr q ↦ gone p q ];
      }

    module _ (p : String) (k : IsParked n p) where
      pub Ends-finished :
          (time : String) (w : World)
          → Committed (some p) w.disk
          → Ends
              (λ _ d. Deleted (tables_of s0) (Back d))
              (λ _ d. Atomic c.hash s0 Wanted (Back d))
              (promote_delete (record { parked = p; name = n }) time w)
      unfolding promote_delete
      Ends-finished time w g =
          let kept : (d : Disk) → SameFiles w.files w.disk d → Committed (some p) d = λ d same.
            Committed-SameFiles (some p) w.files w.disk d same (λ _ _. refl) (λ _ e. e) g in
          Ends-or_missing (λ d. Deleted (tables_of s0) (Back d))
            (λ _ d. Atomic c.hash s0 Wanted (Back d)) tt tt (finish_delete p n time) w
            (Ends-mono
              (λ _ d same.
                Deleted-Committed (some p) d
                  (Committed-SameFiles (some p) (erase p w.files) w.disk d same
                    (λ q nq. removed_same n p w.disk (is_parked k) q nq)
                    (λ q e. removed_keeps_none p w.disk q e) g)
                  (λ q e.
                    ap (λ x. find x d.files) (some-injective _ _ e)
                    ∙ (ap (find p) same.files_are ∙ find-erase_self p w.files)))
              (λ f d (same, miss). (
                Atomic-Committed (some p) d (kept d same),
                λ m. Deleted-Committed (some p) d (kept d same) (λ q e.
                    ap (λ x. find x d.files) (some-injective _ _ e)
                    ∙ (ap (find p) same.files_are ∙ miss m)),
              ))
              (Ends-finish_delete p w.disk n time w (SameFiles-self w.disk w.disk refl)))
