-- ===== src/World.antt =====
-- What a process of the store works on: the directory of the category files, the backups and the
-- database, with the faults that are to come. An operation is a function on this state.
pub mod Ends
pub mod Accesses
pub mod Plain
pub mod Completes
use mcp_memory_rs.Common.{
  ℕ, String, Bool, true, false, Option, none, some, List, [], ◌∷◌, keep, if◌then◌else◌,
}
use mcp_memory_rs.Common.Text.{strip_prefix, starts_with}
use mcp_memory_rs.Common.Map.{Map, find, put, erase, keys}
use mcp_memory_rs.Error.{
  IoKind, missing, other_io, MemoryError, io, sqlite, busy, Result, ok, err, crashed,
}
use mcp_memory_rs.Db.{Tables}

-- What one access to the disk or the database comes to. The text is what a write that is cut short
-- leaves in its file, if it leaves one.
pub data Outcome : Type 0 where
  done : Outcome
  fails : Option String → Outcome
  crashes : Option String → Outcome

-- `db` is the database as this connection sees it, an open transaction included; `saved` is what was
-- committed last, which every other connection sees and which a rollback or a crash goes back to.
pub record Disk : Type 0 where
  pub files : Map String
  pub backups : Map String
  pub db : Tables
  pub saved : Tables
  -- Listing a directory fails (no file descriptor is left, say).
  pub unlisted : Bool

-- The disk, and the outcomes to come; past the end of that list all is well.
pub record World : Type 0 where
  pub disk : Disk
  pub open disk use *
  pub faults : List Outcome

abbrev pub Exec {ℓ} : Type ℓ → Type ℓ
Exec A = World → Result A × World

abbrev pub pure {ℓ} : {A : Type ℓ} → A → Exec A
pure a w = (ok a, w)

abbrev pub throw {ℓ} : {A : Type ℓ} → MemoryError → Exec A
throw e w = (err e, w)

-- A call that is cut short without a result, as a panic does.
abbrev pub panic {ℓ} : {A : Type ℓ} → Exec A
panic w = (crashed, w)

module _ {ℓ κ} {A : Type ℓ} {B : Type κ} where
  abbrev pub continue : Result A × World → (A → Exec B) → Result B × World
  continue (ok a, w) f = f a w
  continue (err e, w) f = (err e, w)
  continue (crashed, w) f = (crashed, w)

  infixl 10 ◌>>=◌
  abbrev pub ◌>>=◌ : Exec A → (A → Exec B) → Exec B
  ◌>>=◌ m f w = continue (m w) f

infixl 10 ◌>>◌
abbrev pub ◌>>◌ {ℓ κ} : {A : Type ℓ} {B : Type κ} → Exec A → Exec B → Exec B
m >> n = m >>= λ _. n

-- `match m { Ok(a) => ..., Err(e) => ... }`
pub data Attempt {ℓ} (A : Type ℓ) : Type ℓ where
  got : A → Attempt A
  threw : MemoryError → Attempt A

module _ {ℓ} {A : Type ℓ} where
  abbrev pub attempted : Result A × World → Result (Attempt A) × World
  attempted (ok a, w) = (ok (got a), w)
  attempted (err e, w) = (ok (threw e), w)
  attempted (crashed, w) = (crashed, w)

  abbrev pub attempt : Exec A → Exec (Attempt A)
  attempt m w = attempted (m w)

module _ (e : MemoryError) (effect : Disk → Disk) (torn : Option String → Disk → Disk) where
  -- An access, by the outcome that is next.
  unfoldable pub access_with : List Outcome → Disk → Result (Unit {0}) × World
  access_with [] d = (ok tt, record { disk = effect d; faults = [] })
  access_with (done ∷ r) d = (ok tt, record { disk = effect d; faults = r })
  access_with (fails t ∷ r) d = (err e, record { disk = torn t d; faults = r })
  access_with (crashes t ∷ r) d = (crashed, record { disk = torn t d; faults = r })

-- An access that is all or nothing.
unfoldable pub access : MemoryError → (Disk → Disk) → Exec (Unit {0})
unfolding access_with
access e effect w = access_with e effect (λ _ d. d) w.faults w.disk

-- An access that only reads.
abbrev pub reading {ℓ} : {A : Type ℓ} → MemoryError → (Disk → A) → Exec A
reading e f w = continue (access e (λ d. d) w) (λ _ u. (ok (f u.disk), u))

-- `fs::rename` inside the directory of the categories.
abbrev pub moved : String → String → String → Disk → Disk
moved from to c d = record d { files = put to c (erase from d.files) }

unfoldable pub rename_found : Option String → String → String → Exec (Unit {0})
unfolding access
rename_found none from to = throw (io missing)
rename_found (some c) from to = access (io other_io) (moved from to c)

unfoldable pub rename : String → String → Exec (Unit {0})
unfolding rename_found
rename from to w = rename_found (find from w.files) from to w

-- `fs::remove_file`
abbrev pub removed : String → Disk → Disk
removed path d = record d { files = erase path d.files }

unfoldable pub remove_found : Option String → String → Exec (Unit {0})
unfolding access
remove_found none path = throw (io missing)
remove_found (some _) path = access (io other_io) (removed path)

unfoldable pub remove_file : String → Exec (Unit {0})
unfolding remove_found
remove_file path w = remove_found (find path w.files) path w

-- `File::create`, `write_all` and `sync_all`. A write that fails may leave any text in the file.
abbrev pub written : String → String → Disk → Disk
written path content d = record d { files = put path content d.files }

abbrev pub torn_write : String → Option String → Disk → Disk
torn_write path none d = d
torn_write path (some t) d = written path t d

unfoldable pub write_file : String → String → Exec (Unit {0})
unfolding access_with
write_file path content w =
    access_with (io other_io) (written path content) (torn_write path) w.faults w.disk

-- `fs::read_to_string`
unfoldable pub read_found : Option String → Exec String
unfolding access
read_found none = throw (io missing)
read_found (some c) = reading (io other_io) (λ _. c)

unfoldable pub read_to_string : String → Exec String
unfolding read_found
read_to_string path w = read_found (find path w.files) w

-- `files_with_prefix` of src/store/atomic_json.rs: the names in order, since the directory is.
unfoldable pub files_with_prefix : String → Exec (List String)
unfolding strip_prefix keys
files_with_prefix prefix w =
    if w.unlisted
    then (err (io other_io), w)
    else (ok (keep (λ f. starts_with f prefix) (keys w.files)), w)

-- A statement that changes rows, inside the open transaction.
unfoldable pub execute : (Tables → Tables) → Exec (Unit {0})
unfolding access
execute f = access sqlite (λ d. record d { db = f d.db })

-- A SELECT.
unfoldable pub query {ℓ} : {A : Type ℓ} → (Tables → A) → Exec A
unfolding access
query f = reading sqlite (λ d. f d.db)

-- COMMIT
unfoldable pub commit : Exec (Unit {0})
unfolding access
commit = access busy (λ d. record d { saved = d.db })

-- What is left when the `WriteTxn` is dropped: without a COMMIT, its changes are gone.
abbrev pub rolled_back {ℓ} : {A : Type ℓ} → Result A × World → Result A × World
rolled_back (r, w) = (r, record w { disk = record w.disk { db = w.saved } })

-- `let tx = self.begin_write()?;` and the rest of the function, to the drop of `tx`. BEGIN
-- IMMEDIATE fails with `Busy` if another process holds the lock to the deadline.
unfoldable pub transaction {ℓ} : {A : Type ℓ} → Exec A → Exec A
unfolding access
transaction body w =
    rolled_back (continue (access busy (λ d. record d { db = d.saved }) w) (λ _. body))
