-- ===== src/Snapshot/Restoring.antt =====
-- The steps of the swap of `restore` in src/store/snapshot.rs: what all of them do, and the marker.
use mcp_memory_rs.Common.{
  ℕ, zero, suc, ◌≡◌, refl, sym, subst, ◌⊎◌, inl, inr, Bool, true, false, Option, none, some, List,
  [], ◌∷◌, ◌++◌, All,
}
use mathlib.Core.Option.{some-injective}
use mcp_memory_rs.Common.Map.{Map}
use mcp_memory_rs.Snapshot.Verify.{Node, Database, Dir}
use mcp_memory_rs.Snapshot.Restore.{
  Site, Step, swap_with, backup_steps, keep_manifest, Run, finished, stopped, run, remove_marker,
  sync_dir, placed_database, placed_categories, placed_backups,
}

-- All the steps, one after the other.
unfoldable pub all_of : List Step → Site → Option Site
all_of [] s = some s
all_of (step ∷ steps) s = elim (step s) [ none ↦ none | some t ↦ all_of steps t ]

abbrev pub unmarked : Site → Site
unmarked s = record s { marker = false }

-- A step that leaves the marker.
abbrev pub KeepsMarker : Step → Type 0
KeepsMarker step = (s t : Site) → step s ≡ some t → s.marker ≡ true → t.marker ≡ true

-- Stopped with the marker, or all steps done and then the marker removed.
abbrev pub Unmarked : Site → Run → Type 0
Unmarked t r = (r ≡ finished (unmarked t)) ⊎ (r ≡ stopped (unmarked t))

abbrev pub Course : List Step → Site → Run → Type 0
Course steps s r =
    ((t : Site) × (r ≡ stopped t) × (t.marker ≡ true))
    ⊎ ((t : Site) × (all_of steps s ≡ some t) × Unmarked t r)

Course-step :
    (o : Option Site) (steps : List Step) (n : ℕ) (s : Site)
    → s.marker ≡ true
    → ((t : Site) → o ≡ some t → Course steps t (run (steps ++ remove_marker ∷ sync_dir ∷ []) n t))
    → ((t : Site) × (elim o [
      | none ↦ stopped s
      | some t ↦ run (steps ++ remove_marker ∷ sync_dir ∷ []) n t
    ]
          ≡ stopped t)
        × (t.marker ≡ true))
      ⊎ ((t : Site) × (elim o [ none ↦ none | some t ↦ all_of steps t ] ≡ some t)
          × Unmarked t (elim o [
            | none ↦ stopped s
            | some t ↦ run (steps ++ remove_marker ∷ sync_dir ∷ []) n t
          ]))
Course-step none steps n s e h = inl (s, refl, e)
Course-step (some t) steps n s e h = h t refl

pub Course-run :
    (steps : List Step) (n : ℕ) (s : Site)
    → All KeepsMarker steps
    → s.marker ≡ true
    → Course steps s (run (steps ++ remove_marker ∷ sync_dir ∷ []) n s)
unfolding run all_of
Course-run [] zero s a e = inl (s, refl, e)
Course-run [] (suc zero) s a e = inr (s, refl, inr refl)
Course-run [] (suc (suc n)) s a e = inr (s, refl, inl refl)
Course-run (step ∷ steps) zero s a e = inl (s, refl, e)
Course-run (step ∷ steps) (suc n) s (here, a) e =
    Course-step (step s) steps n s e (λ t q. Course-run steps n t a (here s t q e))

-- What the swap leaves when all its steps are done.
pub record Swapped (b : Bool) (staged : Dir) (old : Dir) (t : Site) : Type 0 where
  pub database_is : t.live.database ≡ staged.database
  pub categories_are : t.live.categories ≡ staged.categories
  pub old_database : t.parked.database ≡ old.database
  pub old_categories : t.parked.categories ≡ old.categories
  pub backups_swapped :
      b ≡ true → (t.live.backups ≡ staged.backups) × (t.parked.backups ≡ old.backups)
  pub backups_kept : b ≡ false → t.live.backups ≡ old.backups

abbrev pub Swaps : Bool → Dir → Site → Type 0
Swaps b staged s =
    (t : Site) × (all_of (swap_with b) (record s { staging = staged }) ≡ some t)
    × Swapped b staged s.live t

Swaps-full :
    (staged : Dir) (s : Site) (db : Database) (files copies : Map Node)
    → Swaps true
        (record staged { database = some db; categories = some files; backups = some copies })
        s
unfolding all_of
Swaps-full staged s db files copies = (
  _,
  refl,
  record {
    database_is = refl;
    categories_are = refl;
    old_database = refl;
    old_categories = refl;
    backups_swapped = λ _. (refl, refl);
    backups_kept = λ e. cc;
  },
)

Swaps-lean :
    (staged : Dir) (s : Site) (db : Database) (files : Map Node)
    → Swaps false (record staged { database = some db; categories = some files }) s
unfolding all_of
Swaps-lean staged s db files = (
  _,
  refl,
  record {
    database_is = refl;
    categories_are = refl;
    old_database = refl;
    old_categories = refl;
    backups_swapped = λ e. cc;
    backups_kept = λ _. refl;
  },
)

-- All the steps are possible.
pub Swaps-staged :
    (b : Bool) (staged : Dir) (s : Site) (db : Database) (files : Map Node)
    → staged.database ≡ some db
    → staged.categories ≡ some files
    → (b ≡ true → (copies : Map Node) × (staged.backups ≡ some copies))
    → Swaps b staged s
Swaps-staged true staged s db files d f c =
    let (copies, k) = c refl in
    subst (λ x. Swaps true (record staged { database = x }) s) (sym d)
      (subst (λ x. Swaps true (record staged { database = some db; categories = x }) s) (sym f)
        (subst
          (λ x.
            Swaps true (record staged { database = some db; categories = some files; backups = x })
              s)
          (sym k) (Swaps-full staged s db files copies)))
Swaps-staged false staged s db files d f c =
    subst (λ x. Swaps false (record staged { database = x }) s) (sym d)
      (subst (λ x. Swaps false (record staged { database = some db; categories = x }) s) (sym f)
        (Swaps-lean staged s db files))

KeepsMarker-placed_database :
    (o : Option Database) (s t : Site)
    → placed_database o s ≡ some t
    → s.marker ≡ true
    → t.marker ≡ true
KeepsMarker-placed_database none s t q e = cc
KeepsMarker-placed_database (some db) s t q e =
    subst (λ (t : Site). t.marker ≡ true) (some-injective _ _ q) e

KeepsMarker-placed_categories :
    (o : Option (Map Node)) (s t : Site)
    → placed_categories o s ≡ some t
    → s.marker ≡ true
    → t.marker ≡ true
KeepsMarker-placed_categories none s t q e = cc
KeepsMarker-placed_categories (some x) s t q e =
    subst (λ (t : Site). t.marker ≡ true) (some-injective _ _ q) e

KeepsMarker-placed_backups :
    (o : Option (Map Node)) (s t : Site)
    → placed_backups o s ≡ some t
    → s.marker ≡ true
    → t.marker ≡ true
KeepsMarker-placed_backups none s t q e = cc
KeepsMarker-placed_backups (some x) s t q e =
    subst (λ (t : Site). t.marker ≡ true) (some-injective _ _ q) e

-- A step that is always possible leaves the marker when its result has it.
moved : (s t : Site) → some s ≡ some t → s.marker ≡ true → t.marker ≡ true
moved s t q e = subst (λ (t : Site). t.marker ≡ true) (some-injective _ _ q) e

All-backup_steps : (b : Bool) → All KeepsMarker (backup_steps b ++ keep_manifest ∷ sync_dir ∷ [])
All-backup_steps true = (
  (λ s. moved _),
  ((λ s. KeepsMarker-placed_backups s.staging.backups s), ((λ s. moved _), ((λ s. moved _), tt))),
)
All-backup_steps false = ((λ s. moved _), ((λ s. moved _), tt))

pub All-swap_with : (b : Bool) → All KeepsMarker (swap_with b)
All-swap_with b = (
  (λ s. moved _),
  (
    (λ s. moved _),
    (
      (λ s. moved _),
      (
        (λ s. moved _),
        (
          (λ s. moved _),
          (
            (λ s. moved _),
            (
              (λ s. moved _),
              (
                (λ s. moved _),
                (
                  (λ s. KeepsMarker-placed_database s.staging.database s),
                  ((λ s. KeepsMarker-placed_categories s.staging.categories s), All-backup_steps b),
                ),
              ),
            ),
          ),
        ),
      ),
    ),
  ),
)
