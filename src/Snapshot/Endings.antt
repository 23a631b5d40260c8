-- ===== src/Snapshot/Endings.antt =====
-- How `restore` of src/store/snapshot.rs ends, wherever it is stopped.
use mcp_memory_rs.Common.{
  ℕ, zero, suc, String, ◌≡◌, ◌≢◌, refl, ◌∙◌, sym, subst, inl, inr, true, false, Option,
  Option-cases, none, some,
}
use mathlib.Core.Option.{some-injective}
use mcp_memory_rs.Error.{MemoryError, Result, ok, err, crashed}
use mcp_memory_rs.Snapshot.Verify.{Manifest, Dir, holds, verify}
use mcp_memory_rs.Snapshot.Backups.{BackedUp}
use mcp_memory_rs.Snapshot.Verifying.{IsSound, verify-IsSound}
use mcp_memory_rs.Snapshot.Restore.{
  Site, empty_dir, staged_copy, checked_copy, stage_all, swap_steps, Run, run, restore_steps,
  Restored, failure, swapped, swap, restore_verified, restore,
}
use mcp_memory_rs.Snapshot.Restoring.{
  all_of, unmarked, Course, Course-run, Swapped, Swaps-staged, All-swap_with,
}
use mcp_memory_rs.Snapshot.Staged.{IsCopy, IsCopy-staged_copy}

module _ (hash : String → String) where
  -- A store replaced by a verified snapshot.
  pub record Replaced (src : Dir) (s : Site) (m : Manifest) (t : Site) : Type 0 where
    pub unmarked_is : t.marker ≡ false
    pub snapshot_is : src.manifest ≡ holds m
    pub live_database : t.live.database ≡ src.database
    pub live_categories : t.live.categories ≡ src.categories
    pub sound : IsSound hash m t.live
    pub old_database : t.parked.database ≡ s.live.database
    pub old_categories : t.parked.categories ≡ s.live.categories
    pub old_backups : m.includes_backups ≡ true → t.parked.backups ≡ s.live.backups
    pub backups_kept : m.includes_backups ≡ false → t.live.backups ≡ s.live.backups

  pub data Ending (src : Dir) (s : Site) (r : Restored) : Type 0 where
    untouched :
        ((m : Manifest) → r.result ≢ ok m)
        → r.site.live ≡ s.live
        → r.site.marker ≡ s.marker
        → Ending src s r
    closed : ((m : Manifest) → r.result ≢ ok m) → r.site.marker ≡ true → Ending src s r
    replaced :
        (m : Manifest)
        → ((k : Manifest) → r.result ≡ ok k → k ≡ m)
        → Replaced src s m r.site
        → Ending src s r

  failure_lem : (stop : Option MemoryError) (m : Manifest) → failure stop ≢ ok m
  failure_lem none m = λ e. cc
  failure_lem (some x) m = λ e. cc

  IsSound-live :
      (m : Manifest) (d live : Dir)
      → live.database ≡ d.database
      → live.categories ≡ d.categories
      → (m.includes_backups ≡ true → live.backups ≡ d.backups)
      → IsSound hash m d
      → IsSound hash m live
  IsSound-live m d live a b k h = record {
    database = h.database;
    files = h.files;
    database_is = a ∙ h.database_is;
    files_are = b ∙ h.files_are;
    integral = h.integral;
    in_place = h.in_place;
    known = h.known;
    counted = h.counted;
    backed_up = λ i.
        let backed : BackedUp hash m d = h.backed_up i in
        record {
          copies = backed.copies;
          copies_are = k i ∙ backed.copies_are;
          listed = backed.listed;
          only = backed.only;
          backups_counted = backed.backups_counted;
        };
  }

  -- What the swap starts from.
  pub record Ready (src : Dir) (m : Manifest) (staged : Dir) : Type 0 where
    pub is_copy : IsCopy m src staged
    pub held : src.manifest ≡ holds m
    pub staged_sound : IsSound hash m staged

  checked_copy_lem :
      (r : Result Manifest) (copy staged : Dir)
      → checked_copy hash r copy ≡ ok staged
      → (k : Manifest) × (r ≡ ok k) × (copy ≡ staged)
  checked_copy_lem (ok k) copy staged e = (k, refl, cc)
  checked_copy_lem (err x) copy staged e = cc
  checked_copy_lem crashed copy staged e = cc

  pub Ready-stage_all :
      (src : Dir) (m : Manifest) (staged : Dir)
      → verify hash src ≡ ok m
      → stage_all hash m src ≡ ok staged
      → Ready src m staged
  unfolding stage_all
  Ready-stage_all src m staged v e = elim (Option-cases (staged_copy m src)) [
    | inl q ↦ cc (rw (q, stage_all) at e)
    | inr (copy, q) ↦
        let (k, verified, same) =
          checked_copy_lem (verify hash copy) copy staged (rw (q, stage_all) at e) in
        let copied : IsCopy m src copy = IsCopy-staged_copy m src copy q in
        let (held, _, _) = verify-IsSound hash src m v in
        let (held_copy, _, sound) = verify-IsSound hash copy k verified in
        let one : k ≡ m = cc (sym held_copy ∙ copied.same_manifest ∙ held) in
        subst (λ d. Ready src m d) same
          (record {
            is_copy = copied;
            held = held;
            staged_sound = subst (λ k. IsSound hash k copy) one sound;
          })
  ]

  pub Replaced-Swapped :
      (src : Dir) (m : Manifest) (staged : Dir) (s t : Site)
      → Ready src m staged
      → Swapped m.includes_backups staged s.live t
      → Replaced src s m (unmarked t)
  Replaced-Swapped src m staged s t h w = record {
    unmarked_is = refl;
    snapshot_is = h.held;
    live_database = w.database_is ∙ h.is_copy.same_database;
    live_categories = w.categories_are ∙ h.is_copy.same_categories;
    sound =
        IsSound-live m staged t.live w.database_is w.categories_are (λ i. (w.backups_swapped i).0)
          h.staged_sound;
    old_database = w.old_database;
    old_categories = w.old_categories;
    old_backups = λ i. (w.backups_swapped i).1;
    backups_kept = w.backups_kept;
  }

  Ending-run :
      (src : Dir) (m : Manifest) (staged : Dir) (stop : Option MemoryError) (s s1 t : Site)
      (r : Run)
      → Ready src m staged
      → all_of (swap_steps m) s1 ≡ some t
      → Swapped m.includes_backups staged s.live t
      → Course (swap_steps m) s1 r
      → Ending src s (swapped m stop r)
  Ending-run src m staged stop s s1 t r h all w (inl (k, q, e)) =
      subst (λ r. Ending src s (swapped m stop r)) (sym q) (closed (failure_lem stop) e)
  Ending-run src m staged stop s s1 t r h all w (inr (k, q, e)) =
      let done : Replaced src s m (unmarked k) =
        subst (λ t. Replaced src s m (unmarked t)) (some-injective _ _ (sym all ∙ q))
          (Replaced-Swapped src m staged s t h w) in
      elim e [
        | inl e ↦ subst (λ r. Ending src s (swapped m stop r)) (sym e) (replaced m (λ k q. cc) done)
        | inr e ↦
            subst (λ r. Ending src s (swapped m stop r)) (sym e)
              (replaced m (λ k q. absurd (failure_lem stop k q)) done)
      ]

  Ending-swap :
      (src : Dir) (m : Manifest) (staged : Dir) (n : ℕ) (stop : Option MemoryError) (s : Site)
      → Ready src m staged
      → Ending src s (swap hash m (ok staged) n stop s)
  unfolding run restore_steps
  Ending-swap src m staged zero stop s h = untouched (failure_lem stop) refl refl
  Ending-swap src m staged (suc n) stop s h =
      let s1 : Site = record s { staging = staged; parked = empty_dir; marker = true } in
      let sound : IsSound hash m staged = h.staged_sound in
      let (t, all, w) =
        Swaps-staged m.includes_backups staged s1 sound.database sound.files sound.database_is
          sound.files_are
          (λ i.
            let backed : BackedUp hash m staged = sound.backed_up i in
            (backed.copies, backed.copies_are)) in
      Ending-run src m staged stop s s1 t _ h all w
        (Course-run (swap_steps m) n s1 (All-swap_with m.includes_backups) refl)

  Ending-verified :
      (r : Result Manifest) (src : Dir) (n : ℕ) (stop : Option MemoryError) (s : Site)
      → verify hash src ≡ r
      → Ending src s (restore_verified hash r src n stop s)
  Ending-verified (err e) src n stop s v = untouched (λ m. cc) refl refl
  Ending-verified crashed src n stop s v = untouched (λ m. cc) refl refl
  Ending-verified (ok m) src n stop s v = staged_by (stage_all hash m src) refl
    where
      staged_by :
          (k : Result Dir) → stage_all hash m src ≡ k → Ending src s (swap hash m k n stop s)
      staged_by (ok staged) e = Ending-swap src m staged n stop s (Ready-stage_all src m staged v e)
      staged_by (err x) e = untouched (λ m. cc) refl refl
      staged_by crashed e = untouched (λ m. cc) refl refl

  -- Wherever a restore ends, by success or by an error or a crash at any step of the swap, either the live
  -- store and the marker are untouched and no manifest is returned, or the marker is set and no manifest is
  -- returned, or the marker is removed, the live database and categories are those of the snapshot and
  -- pass its checks, the previous ones are parked, and a manifest that is returned is the snapshot's.
  pub restore-Ending :
      (src : Dir) (n : ℕ) (stop : Option MemoryError) (s : Site)
      → Ending src s (restore hash src n stop s)
  unfolding restore
  restore-Ending src n stop s = Ending-verified (verify hash src) src n stop s refl
