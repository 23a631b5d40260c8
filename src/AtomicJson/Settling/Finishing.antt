-- ===== src/AtomicJson/Settling/Finishing.antt =====
-- `finish_delete` of src/store/atomic_json.rs: the parked file goes to the backups.
use mcp_memory_rs.Common.{String, ◌<>◌, ◌≡◌, ◌∙◌, ap, sym, subst, Option, none, some}
use mcp_memory_rs.Common.Map.{find, erase, Map}
use mcp_memory_rs.World.{Disk, World, access, remove_file, attempt, Attempt, got, threw}
use mcp_memory_rs.World.Ends.{
  Fault, by_error, by_crash, Ends, Ends-mono, Ends-bind, Ends-pure, Ends-throw, Ends-caught,
  Attempted,
}
use mcp_memory_rs.World.Accesses.{Ends-remove_file, Ends-access, Ends-access_with, Missed, Only}
use mcp_memory_rs.Error.{io, missing, other_io}
use mcp_memory_rs.AtomicJson.{
  copied, torn_copy, copy_bytes, moved_out, finish_delete, move_out, move_found, copy_out,
  copy_found, copy_and_remove,
}
use mcp_memory_rs.AtomicJson.Settling.{SameRows}

-- The files are as before, and so are the rows.
pub record SameFiles (files : Map String) (d d' : Disk) : Type 0 where
  pub files_are : d'.files ≡ files
  pub rows : SameRows d d'

pub SameFiles-self : (d d' : Disk) → d' ≡ d → SameFiles d.files d d'
SameFiles-self d d' e = record {
  files_are = ap (λ x. x.files) e;
  rows = record {
    db = ap (λ x. x.db) e;
    saved = ap (λ x. x.saved) e;
    unlisted = ap (λ x. x.unlisted) e;
  };
}

-- An error of the disk is no missing file.
no_missing : (f : Fault) → Only (io other_io) f → f ≡ by_error (io missing) → ⊥
no_missing (by_error e) o q = cc
no_missing by_crash o q = cc

module _ (p : String) (d : Disk) where
  abbrev Kept : Fault → Disk → Type 0
  Kept f d' = SameFiles d.files d d' × Missed p d f

  -- An access that is all or nothing, on the file that was found.
  Ends-found :
      (files : Map String) (effect : Disk → Disk) (u : World)
      → SameFiles d.files d u.disk
      → ((x : Disk) → SameFiles d.files d x → SameFiles files d (effect x))
      → Ends (λ _ d'. SameFiles files d d') Kept (access (io other_io) effect u)
  Ends-found files effect u s k =
      Ends-mono (λ _ x h. subst (SameFiles files d) (sym h) (k u.disk s))
        (λ f x h. (subst (SameFiles d.files d) (sym h.0) s, λ q. absurd (no_missing f h.1 q)))
        (Ends-access (io other_io) effect u)

  Ends-move_out :
      (dest : String) (u : World)
      → SameFiles d.files d u.disk
      → Ends (λ _ d'. SameFiles (erase p d.files) d d') Kept (move_out p dest u)
  unfolding move_out move_found
  Ends-move_out dest u s = go (find p u.files) (ap (find p) s.files_are)
    where
      go :
          (o : Option String)
          → o ≡ find p d.files
          → Ends (λ _ d'. SameFiles (erase p d.files) d d') Kept (move_found o p dest u)
      go none e = Ends-throw _ u (s, λ _. sym e)
      go (some c) e = Ends-found (erase p d.files) (moved_out p dest c) u s (λ x k. record {
        files_are = ap (erase p) k.files_are;
        rows = record { db = k.rows.db; saved = k.rows.saved; unlisted = k.rows.unlisted };
      })

  SameFiles-copied :
      (dest : String) (o : Option String) (x : Disk)
      → SameFiles d.files d x
      → SameFiles d.files d (copied dest o x)
  SameFiles-copied dest none x k = k
  SameFiles-copied dest (some c) x k = record {
    files_are = k.files_are;
    rows = record { db = k.rows.db; saved = k.rows.saved; unlisted = k.rows.unlisted };
  }

  Ends-copy_out :
      (dest : String) (u : World)
      → SameFiles d.files d u.disk
      → Ends (λ _ d'. SameFiles d.files d d') Kept (copy_out p dest u)
  unfolding copy_out copy_found copy_bytes
  Ends-copy_out dest u s = go (find p u.files) (ap (find p) s.files_are)
    where
      go :
          (o : Option String)
          → o ≡ find p d.files
          → Ends (λ _ d'. SameFiles d.files d d') Kept (copy_found o dest u)
      go none e = Ends-throw _ u (s, λ _. sym e)
      go (some c) e =
          Ends-mono
            (λ _ x h. subst (SameFiles d.files d) (sym h) (SameFiles-copied dest (some c) u.disk s))
            (λ f x ((t, h), only). (
              subst (SameFiles d.files d) (sym h) (SameFiles-copied dest t u.disk s),
              λ q. absurd (no_missing f only q),
            ))
            (Ends-access_with (io other_io) (copied dest (some c)) (torn_copy dest (some c))
              u.faults u.disk)

  Ends-remove :
      (u : World)
      → SameFiles d.files d u.disk
      → Ends (λ _ d'. SameFiles (erase p d.files) d d') Kept (remove_file p u)
  Ends-remove u s =
      Ends-mono
        (λ _ x h. subst (SameFiles (erase p d.files) d) (sym h) (record {
          files_are = ap (erase p) s.files_are;
          rows = record { db = s.rows.db; saved = s.rows.saved; unlisted = s.rows.unlisted };
        }))
        (λ f x h.
          (subst (SameFiles d.files d) (sym h.0) s, λ q. sym (ap (find p) s.files_are) ∙ h.1 q))
        (Ends-remove_file p u)

  Ends-copy_and_remove :
      (r : Attempt (Unit {0})) (dest : String) (u : World)
      → Attempted (λ _ x. SameFiles (erase p d.files) d x) Kept r u.disk
      → Ends (λ _ d'. SameFiles (erase p d.files) d d') Kept (copy_and_remove r p dest u)
  unfolding copy_and_remove
  Ends-copy_and_remove (got _) dest u h = Ends-pure tt u h
  Ends-copy_and_remove (threw _) dest u h =
      Ends-bind (copy_out p dest) _ u (Ends-copy_out dest u h.0) (λ _ v k. Ends-remove v k)

  -- A parked file goes to the backups, or stays where it is.
  pub Ends-finish_delete :
      (name time : String) (u : World)
      → SameFiles d.files d u.disk
      → Ends (λ _ d'. SameFiles (erase p d.files) d d') Kept (finish_delete p name time u)
  unfolding finish_delete
  Ends-finish_delete name time u s =
      Ends-bind {Q = Attempted (λ _ x. SameFiles (erase p d.files) d x) Kept}
        (attempt (move_out p ((name <> ".") <> (time <> ".deleted.json")))) _ u
        (Ends-caught _ Kept Kept (move_out p ((name <> ".") <> (time <> ".deleted.json"))) u
          (Ends-move_out ((name <> ".") <> (time <> ".deleted.json")) u s) (λ x k. k))
        (λ r v h. Ends-copy_and_remove r ((name <> ".") <> (time <> ".deleted.json")) v h)
