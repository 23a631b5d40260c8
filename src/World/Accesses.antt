-- ===== src/World/Accesses.antt =====
-- What each access to the disk and the database does, on every outcome.
use mcp_memory_rs.Common.Text.{starts_with}
use mcp_memory_rs.Common.{
  Bool, true, false, keep, if◌then◌else◌, String, ◌≡◌, refl, Option, none, some, List, [], ◌∷◌, ap,
  sym, subst,
}
use mcp_memory_rs.Common.Map.{find, keys}
use mcp_memory_rs.Error.{MemoryError, io, busy, sqlite, missing, other_io, Result, ok, err, crashed}
use mcp_memory_rs.Db.{Tables}
use mcp_memory_rs.World.{
  Outcome, done, fails, crashes, Disk, World, Exec, access, access_with, moved, removed, written,
  rename, rename_found, remove_found, read_found, remove_file, write_file, read_to_string,
  files_with_prefix, execute, query, commit, rolled_back, transaction, torn_write, reading,
}
use mcp_memory_rs.World.Ends.{Fault, by_error, by_crash, Ends, Ends-mono, Ends-bind, Ends-throw}

-- The only error is `e`.
abbrev pub Only : MemoryError → Fault → Type 0
Only e (by_error e') = e' ≡ e
Only e by_crash = Unit

abbrev pub Done : (Disk → Disk) → Disk → Unit {0} → Disk → Type 0
Done effect d _ d' = d' ≡ effect d

pub Ends-access_with :
    (e : MemoryError) (effect : Disk → Disk) (torn : Option String → Disk → Disk) (o : List Outcome)
    (d : Disk)
    → Ends
        (Done effect d)
        (λ f d'. ((t : Option String) × (d' ≡ torn t d)) × Only e f)
        (access_with e effect torn o d)
unfolding access_with
Ends-access_with e effect torn [] d = record { holds = refl }
Ends-access_with e effect torn (done ∷ o) d = record { holds = refl }
Ends-access_with e effect torn (fails t ∷ o) d = record { holds = ((t, refl), refl) }
Ends-access_with e effect torn (crashes t ∷ o) d = record { holds = ((t, refl), tt) }

pub Ends-access :
    (e : MemoryError) (effect : Disk → Disk) (w : World)
    → Ends (Done effect w.disk) (λ f d'. (d' ≡ w.disk) × Only e f) (access e effect w)
unfolding access
Ends-access e effect w =
    Ends-mono (λ _ d h. h) (λ _ d h. (h.0.1, h.1))
      (Ends-access_with e effect (λ _ d. d) w.faults w.disk)

pub Ends-reading :
    {A : Type 0} (e : MemoryError) (f : Disk → A) (w : World)
    → Ends (λ a d'. (d' ≡ w.disk) × (a ≡ f w.disk)) (λ _ d'. d' ≡ w.disk) (reading e f w)
Ends-reading e f w =
    Ends-bind (access e (λ d. d)) (λ _ u. (ok (f u.disk), u)) w
      (Ends-mono (λ _ d h. h) (λ _ d h. h.0) (Ends-access e (λ d. d) w))
      (λ _ u h. record { holds = (h, ap f h) })

-- The fault is not that the file `path` is missing, unless it is.
abbrev pub Missed : String → Disk → Fault → Type 0
Missed path d f = f ≡ by_error (io missing) → find path d.files ≡ none

Missed-Only : (path : String) (d : Disk) (f : Fault) → Only (io other_io) f → Missed path d f
Missed-Only path d (by_error e) o q = cc
Missed-Only path d by_crash o q = cc

pub Ends-rename :
    (from to : String) (w : World)
    → Ends
        (λ _ d'. (c : String) × (find from w.files ≡ some c) × (d' ≡ moved from to c w.disk))
        (λ f d'. (d' ≡ w.disk) × Missed from w.disk f)
        (rename from to w)
unfolding rename
Ends-rename from to w = go (find from w.files) refl
  where
    go :
        (o : Option String)
        → find from w.files ≡ o
        → Ends
            (λ _ d'. (c : String) × (find from w.files ≡ some c) × (d' ≡ moved from to c w.disk))
            (λ f d'. (d' ≡ w.disk) × Missed from w.disk f)
            (rename_found o from to w)
    go none e = Ends-throw (io missing) w (refl, λ _. e)
    go (some c) e =
        Ends-mono (λ _ d h. (c, e, h)) (λ f d h. (h.0, Missed-Only from w.disk f h.1))
          (Ends-access (io other_io) (moved from to c) w)

pub Ends-remove_file :
    (path : String) (w : World)
    → Ends
        (Done (removed path) w.disk)
        (λ f d'. (d' ≡ w.disk) × Missed path w.disk f)
        (remove_file path w)
unfolding remove_file
Ends-remove_file path w = go (find path w.files) refl
  where
    go :
        (o : Option String)
        → find path w.files ≡ o
        → Ends
            (Done (removed path) w.disk)
            (λ f d'. (d' ≡ w.disk) × Missed path w.disk f)
            (remove_found o path w)
    go none e = Ends-throw (io missing) w (refl, λ _. e)
    go (some c) e =
        Ends-mono (λ _ d h. h) (λ f d h. (h.0, Missed-Only path w.disk f h.1))
          (Ends-access (io other_io) (removed path) w)

pub Ends-write_file :
    (path content : String) (w : World)
    → Ends
        (Done (written path content) w.disk)
        (λ _ d'. (t : Option String) × (d' ≡ torn_write path t w.disk))
        (write_file path content w)
unfolding write_file
Ends-write_file path content w =
    Ends-mono (λ _ d h. h) (λ _ d h. h.0)
      (Ends-access_with (io other_io) (written path content) (torn_write path) w.faults w.disk)

pub Ends-read_to_string :
    (path : String) (w : World)
    → Ends
        (λ c d'. (d' ≡ w.disk) × (find path w.files ≡ some c))
        (λ f d'. (d' ≡ w.disk) × Missed path w.disk f)
        (read_to_string path w)
unfolding read_to_string
Ends-read_to_string path w = go (find path w.files) refl
  where
    go :
        (o : Option String)
        → find path w.files ≡ o
        → Ends
            (λ c d'. (d' ≡ w.disk) × (find path w.files ≡ some c))
            (λ f d'. (d' ≡ w.disk) × Missed path w.disk f)
            (read_found o w)
    go none e = Ends-throw (io missing) w (refl, λ _. e)
    go (some c) e =
        Ends-bind (access (io other_io) (λ d. d)) (λ _ u. (ok c, u)) w
          (Ends-mono (λ _ d h. h) (λ f d h. (h.0, Missed-Only path w.disk f h.1))
            (Ends-access (io other_io) (λ d. d) w))
          (λ _ u h. record { holds = (h, e) })

-- A directory is listed as it is, or not at all.
pub Ends-files_with_prefix :
    (prefix : String) (w : World)
    → Ends
        (λ paths d. (d ≡ w.disk) × (paths ≡ keep (λ f. starts_with f prefix) (keys w.files)))
        (λ _ d. d ≡ w.disk)
        (files_with_prefix prefix w)
unfolding files_with_prefix
Ends-files_with_prefix prefix w = go w.unlisted
  where
    go :
        (b : Bool)
        → Ends
            (λ paths d. (d ≡ w.disk) × (paths ≡ keep (λ f. starts_with f prefix) (keys w.files)))
            (λ _ d. d ≡ w.disk)
            (if b
              then (err (io other_io), w)
              else (ok (keep (λ f. starts_with f prefix) (keys w.files)), w))
    go true = record { holds = refl }
    go false = record { holds = (refl, refl) }

pub Ends-execute :
    (f : Tables → Tables) (w : World)
    → Ends (Done (λ d. record d { db = f d.db }) w.disk) (λ _ d'. d' ≡ w.disk) (execute f w)
unfolding execute
Ends-execute f w =
    Ends-mono (λ _ d h. h) (λ _ d h. h.0) (Ends-access sqlite (λ d. record d { db = f d.db }) w)

pub Ends-query :
    {A : Type 0} (f : Tables → A) (w : World)
    → Ends (λ a d'. (d' ≡ w.disk) × (a ≡ f w.db)) (λ _ d'. d' ≡ w.disk) (query f w)
unfolding query
Ends-query f w = Ends-reading sqlite (λ d. f d.db) w

pub Ends-commit :
    (w : World)
    → Ends (Done (λ d. record d { saved = d.db }) w.disk) (λ _ d'. d' ≡ w.disk) (commit w)
unfolding commit
Ends-commit w =
    Ends-mono (λ _ d h. h) (λ _ d h. h.0) (Ends-access busy (λ d. record d { saved = d.db }) w)

abbrev pub Back : Disk → Disk
Back d = record d { db = d.saved }

module _ {A : Type 0} {Q : A → Disk → Type 0} {R : Fault → Disk → Type 0} where
  rolled_by :
      (r : Result A × World)
      → Ends (λ a d. Q a (Back d)) (λ f d. R f (Back d)) r
      → Ends Q R (rolled_back r)
  rolled_by (ok a, w) h = record { holds = h.holds }
  rolled_by (err e, w) h = record { holds = h.holds }
  rolled_by (crashed, w) h = record { holds = h.holds }

  -- The rule of a transaction: the end of the body is seen with the changes rolled back that were not
  -- committed.
  pub Ends-transaction :
      (body : Exec A) (w : World)
      → ((f : Fault) → R f (Back w.disk))
      → ((u : World)
          → u.disk ≡ Back w.disk
          → Ends (λ a d. Q a (Back d)) (λ f d. R f (Back d)) (body u))
      → Ends Q R (transaction body w)
  unfolding transaction
  Ends-transaction body w r k = rolled_by _ (
      Ends-bind (access busy Back) (λ _. body) w
        (Ends-mono (λ _ d h. h) (λ f d h. subst (λ x. R f (Back x)) (sym h.0) (r f))
          (Ends-access busy Back w))
        (λ _ u h. k u h))
