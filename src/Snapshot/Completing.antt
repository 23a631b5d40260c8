-- ===== src/Snapshot/Completing.antt =====
-- That `restore` of src/store/snapshot.rs comes to its end when it is not stopped.
use mcp_memory_rs.Common.{
  ℕ, zero, suc, String, ◌≡◌, refl, ◌∙◌, ap, sym, subst, true, false, Option, none, some, List, [],
  ◌∷◌, ◌++◌, length, length-append, ◌≤◌, ◌+◌, arith,
}
use mathlib.Core.Option.{some-injective}
use mcp_memory_rs.Common.Map.{Map}
use mcp_memory_rs.Db.{Tables}
use mcp_memory_rs.Error.{MemoryError, Result, ok, err, crashed}
use mcp_memory_rs.Snapshot.Verify.{
  Manifest, Node, Database, Dir, read_manifest, coverage_problems, problems, verify_files,
  verify_database, verify_manifest, verify,
}
use mcp_memory_rs.Snapshot.Backups.{BackedUp}
use mcp_memory_rs.Snapshot.Verifying.{IsSound, verify_database_lem}
use mcp_memory_rs.Snapshot.Restore.{
  Site, empty_dir, copy_categories, copy_backups, staged_dir, staged_copy, checked_copy, stage_all,
  Step, swap_steps, finished, stopped, run, restore_steps, swap, restore, remove_marker, sync_dir,
}
use mcp_memory_rs.Snapshot.Restoring.{all_of, unmarked, Swaps-staged}
use mcp_memory_rs.Snapshot.Staged.{copy_categories_lem}
use mcp_memory_rs.Snapshot.Endings.{Replaced, Ready, Ready-stage_all, Replaced-Swapped}

run_step :
    (o : Option Site) (steps : List Step) (n : ℕ) (s t : Site)
    → elim o [ none ↦ none | some s ↦ all_of steps s ] ≡ some t
    → ((s : Site)
        → all_of steps s ≡ some t
        → run (steps ++ remove_marker ∷ sync_dir ∷ []) n s ≡ finished (unmarked t))
    → elim o [ none ↦ stopped s | some s ↦ run (steps ++ remove_marker ∷ sync_dir ∷ []) n s ]
      ≡ finished (unmarked t)
run_step none steps n s t e h = cc
run_step (some k) steps n s t e h = h k e

-- With an access for each step and two for the end, a run comes to its end.
run_enough :
    (steps : List Step) (n : ℕ) (s t : Site)
    → all_of steps s ≡ some t
    → length steps + 2 ≤ n
    → run (steps ++ remove_marker ∷ sync_dir ∷ []) n s ≡ finished (unmarked t)
unfolding all_of run
run_enough [] zero s t e b = absurd (omega arith)
run_enough [] (suc zero) s t e b = absurd (omega arith)
run_enough [] (suc (suc n)) s t e b = ap (λ s. finished (unmarked s)) (some-injective _ _ e)
run_enough (step ∷ steps) zero s t e b = absurd (omega arith)
run_enough (step ∷ steps) (suc n) s t e b =
    run_step (step s) steps n s t e (λ k q. run_enough steps n k t q (omega arith))

module _ (hash : String → String) where
  coverage_lean :
      (m : Manifest) (backups : Option (Map Node))
      → m.includes_backups ≡ false
      → coverage_problems hash m backups ≡ coverage_problems hash m none
  unfolding coverage_problems
  coverage_lean m backups i = rw i refl

  verify_files_lean :
      (m : Manifest) (t : Tables) (o backups : Option (Map Node))
      → m.includes_backups ≡ false
      → verify_files hash m t o backups ≡ verify_files hash m t o none
  unfolding verify_files problems
  verify_files_lean m t none backups i = refl
  verify_files_lean m t (some files) backups i = rw (coverage_lean m backups i) refl

  verify_database_lean :
      (m : Manifest) (o : Option Database) (files backups : Option (Map Node))
      → m.includes_backups ≡ false
      → verify_database hash m o files backups ≡ verify_database hash m o files none
  unfolding verify_database
  verify_database_lean m none files backups i = refl
  verify_database_lean m (some db) files backups i =
      rw (verify_files_lean m db.tables files backups i) refl

  verify_manifest_lem :
      (r : Result Manifest) (m : Manifest) (d : Dir)
      → verify_manifest hash r d ≡ ok m
      → (r ≡ ok m) × (verify_database hash m d.database d.categories d.backups ≡ ok m)
  verify_manifest_lem (ok k) m d e =
      let (same, _) = verify_database_lem hash k m d.database d refl e in
      (
        ap (λ k. ok k) same,
        subst (λ k. verify_database hash k d.database d.categories d.backups ≡ ok m) same e,
      )
  verify_manifest_lem (err x) m d e = cc
  verify_manifest_lem crashed m d e = cc

  -- The copy of a verified snapshot without backups is verified too.
  verify-staged :
      (src : Dir) (m : Manifest) (files : Map Node)
      → verify hash src ≡ ok m
      → m.includes_backups ≡ false
      → src.categories ≡ some files
      → verify hash (staged_dir src (some files) none) ≡ ok m
  unfolding verify read_manifest
  verify-staged src m files v i f =
      let (r, e) = verify_manifest_lem (read_manifest src) m src v in
      subst (λ r. verify_manifest hash r (staged_dir src (some files) none) ≡ ok m) (sym r)
        (subst (λ o. verify_database hash m src.database o none ≡ ok m) f
          (sym (verify_database_lean m src.database src.categories src.backups i) ∙ e))

  stage_all-lean :
      (src : Dir) (m : Manifest) (files : Map Node)
      → verify hash src ≡ ok m
      → m.includes_backups ≡ false
      → copy_categories src.categories ≡ some files
      → stage_all hash m src ≡ ok (staged_dir src (some files) none)
  unfolding stage_all staged_copy copy_backups
  stage_all-lean src m files v i f =
      rw (f, stage_all, staged_copy)
        (rw (i, copy_backups)
          (subst
            (λ r.
              checked_copy hash r (staged_dir src (some files) none)
              ≡ ok (staged_dir src (some files) none))
            (sym (verify-staged src m files v i (copy_categories_lem src.categories files f)))
            refl))

  swap-finished :
      (src : Dir) (m : Manifest) (staged : Dir) (n : ℕ) (stop : Option MemoryError) (s : Site)
      → Ready hash src m staged
      → length (restore_steps m) ≤ n
      → ((swap hash m (ok staged) n stop s).result ≡ ok m)
        × Replaced hash src s m (swap hash m (ok staged) n stop s).site
  unfolding run restore_steps
  swap-finished src m staged zero stop s h b = absurd (omega arith)
  swap-finished src m staged (suc n) stop s h b =
      let s1 : Site = record s { staging = staged; parked = empty_dir; marker = true } in
      let sound : IsSound hash m staged = h.staged_sound in
      let (t, all, w) =
        Swaps-staged m.includes_backups staged s1 sound.database sound.files sound.database_is
          sound.files_are
          (λ i.
            let backed : BackedUp hash m staged = sound.backed_up i in
            (backed.copies, backed.copies_are)) in
      let ran =
        run_enough (swap_steps m) n s1 t all
          (omega (arith, length-append (swap_steps m) (remove_marker ∷ sync_dir ∷ []))) in
      rw ran (refl, Replaced-Swapped hash src m staged s t h w)

  -- A verified snapshot without backups, whose categories are regular files, is restored if no step of the
  -- swap fails: the manifest is returned and the live store is that of the snapshot, with the old one parked.
  pub restore-Replaced :
      (src : Dir) (m : Manifest) (files : Map Node) (n : ℕ) (stop : Option MemoryError) (s : Site)
      → verify hash src ≡ ok m
      → m.includes_backups ≡ false
      → copy_categories src.categories ≡ some files
      → length (restore_steps m) ≤ n
      → ((restore hash src n stop s).result ≡ ok m)
        × Replaced hash src s m (restore hash src n stop s).site
  unfolding restore
  restore-Replaced src m files n stop s v i f b =
      let staged = stage_all-lean src m files v i f in
      rw (v, staged)
        (swap-finished src m (staged_dir src (some files) none) n stop s
          (Ready-stage_all hash src m (staged_dir src (some files) none) v staged) b)
