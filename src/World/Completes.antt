-- ===== src/World/Completes.antt =====
-- Operations in a process where no access fails: they come to their end.
use mcp_memory_rs.Common.{String, ◌≡◌, refl, Option, some, [], false}
use mcp_memory_rs.Common.Map.{find}
use mcp_memory_rs.Error.{MemoryError, busy, Result, ok, err, crashed}
use mcp_memory_rs.Db.{Tables}
use mcp_memory_rs.World.{
  Disk, World, Exec, pure, continue, ◌>>=◌, Attempt, got, attempt, attempted, access, access_with,
  reading, rename, rename_found, read_to_string, read_found, write_file, files_with_prefix, execute,
  query, commit, transaction, rolled_back,
}
use mcp_memory_rs.World.Ends.{Fault, EndsBy, Ends}
use mcp_memory_rs.World.Accesses.{Back, Ends-access}

module _ {A : Type 0} where
  abbrev CompletesBy : Result A × World → Type 0
  CompletesBy (ok a, w) = w.faults ≡ []
  CompletesBy (err e, w) = ⊥
  CompletesBy (crashed, w) = ⊥

  -- The operation returned, and no fault is to come.
  pub record Completes (r : Result A × World) : Type 0 where
    pub completed : CompletesBy r

  pub Completes-pure : (a : A) (w : World) → w.faults ≡ [] → Completes (pure a w)
  Completes-pure a w e = record { completed = e }

  returned_by :
      (Q : A → Disk → Type 0) (R : Fault → Disk → Type 0) (r : Result A × World)
      → EndsBy Q R r
      → CompletesBy r
      → (a : A) × (u : World) × (r ≡ (ok a, u)) × Q a u.disk
  returned_by Q R (ok a, u) h k = (a, u, refl, h)
  returned_by Q R (err e, u) h k = absurd k
  returned_by Q R (crashed, u) h k = absurd k

  -- So what holds on return does hold.
  pub returned-Completes :
      {Q : A → Disk → Type 0} {R : Fault → Disk → Type 0} (r : Result A × World)
      → Ends Q R r
      → Completes r
      → (a : A) × (u : World) × (r ≡ (ok a, u)) × Q a u.disk
  returned-Completes {Q} {R} r h k = returned_by Q R r h.holds k.completed

  rolled_by : (r : Result A × World) → CompletesBy r → Completes (rolled_back r)
  rolled_by (ok a, w) k = record { completed = k }
  rolled_by (err e, w) k = absurd k
  rolled_by (crashed, w) k = absurd k

module _ {A B : Type 0} where
  bind_by :
      (Q : A → Disk → Type 0) (R : Fault → Disk → Type 0) (r : Result A × World) (f : A → Exec B)
      → EndsBy Q R r
      → CompletesBy r
      → ((a : A) (u : World) → u.faults ≡ [] → Q a u.disk → Completes (f a u))
      → Completes (continue r f)
  bind_by Q R (ok a, u) f h k more = more a u k h
  bind_by Q R (err e, u) f h k more = absurd k
  bind_by Q R (crashed, u) f h k more = absurd k

  pub Completes-bind :
      {Q : A → Disk → Type 0} {R : Fault → Disk → Type 0} (m : Exec A) (f : A → Exec B) (w : World)
      → Ends Q R (m w)
      → Completes (m w)
      → ((a : A) (u : World) → u.faults ≡ [] → Q a u.disk → Completes (f a u))
      → Completes ((m >>= f) w)
  Completes-bind {Q} {R} m f w h k more = bind_by Q R (m w) f h.holds k.completed more

module _ {A B : Type 0} where
  attempt_by :
      (Q : A → Disk → Type 0) (R : Fault → Disk → Type 0) (r : Result A × World)
      (f : Attempt A → Exec B)
      → EndsBy Q R r
      → CompletesBy r
      → ((a : A) (u : World) → u.faults ≡ [] → Q a u.disk → Completes (f (got a) u))
      → Completes (continue (attempted r) f)
  attempt_by Q R (ok a, u) f h k more = more a u k h
  attempt_by Q R (err e, u) f h k more = absurd k
  attempt_by Q R (crashed, u) f h k more = absurd k

  -- An attempt that is sure to succeed.
  pub Completes-attempt :
      {Q : A → Disk → Type 0} {R : Fault → Disk → Type 0} (m : Exec A) (f : Attempt A → Exec B)
      (w : World)
      → Ends Q R (m w)
      → Completes (m w)
      → ((a : A) (u : World) → u.faults ≡ [] → Q a u.disk → Completes (f (got a) u))
      → Completes ((attempt m >>= f) w)
  Completes-attempt {Q} {R} m f w h k more = attempt_by Q R (m w) f h.holds k.completed more

any_holds : {A : Type 0} (r : Result A × World) → Ends (λ _ _. Unit {0}) (λ _ _. Unit {0}) r
any_holds (ok a, u) = record { holds = tt }
any_holds (err e, u) = record { holds = tt }
any_holds (crashed, u) = record { holds = tt }

module _ {A B : Type 0} where
  -- A step whose result does not matter to the rest.
  pub Completes-then :
      (m : Exec A) (f : A → Exec B) (w : World)
      → Completes (m w)
      → ((a : A) (u : World) → u.faults ≡ [] → Completes (f a u))
      → Completes ((m >>= f) w)
  Completes-then m f w k more =
      Completes-bind m f w (any_holds (m w)) k (λ a u calm _. more a u calm)

module _ (w : World) (calm : w.faults ≡ []) where
  pub Completes-access_with :
      (e : MemoryError) (effect : Disk → Disk) (torn : Option String → Disk → Disk)
      → Completes (access_with e effect torn w.faults w.disk)
  unfolding access_with
  Completes-access_with e effect torn = rw calm (record { completed = refl })

  pub Completes-access : (e : MemoryError) (effect : Disk → Disk) → Completes (access e effect w)
  unfolding access
  Completes-access e effect = Completes-access_with e effect (λ _ d. d)

  Completes-reading : {A : Type 0} (e : MemoryError) (f : Disk → A) → Completes (reading e f w)
  Completes-reading e f = go (access e (λ d. d) w) (Completes-access e (λ d. d))
    where
      go :
          (r : Result (Unit {0}) × World)
          → Completes r
          → Completes (continue r (λ _ u. (ok (f u.disk), u)))
      go (ok a, u) k = record { completed = k.completed }
      go (err x, u) k = absurd k.completed
      go (crashed, u) k = absurd k.completed

  pub Completes-query : {A : Type 0} (f : Tables → A) → Completes (query f w)
  unfolding query
  Completes-query f = Completes-reading _ (λ d. f d.db)

  pub Completes-execute : (f : Tables → Tables) → Completes (execute f w)
  unfolding execute
  Completes-execute f = Completes-access _ _

  pub Completes-commit : Completes (commit w)
  unfolding commit
  Completes-commit = Completes-access _ _

  pub Completes-write_file : (path content : String) → Completes (write_file path content w)
  unfolding write_file
  Completes-write_file path content = Completes-access_with _ _ _

  pub Completes-rename :
      (from to c : String) → find from w.files ≡ some c → Completes (rename from to w)
  unfolding rename rename_found
  Completes-rename from to c e = rw e (Completes-access _ _)

  pub Completes-read_to_string :
      (path c : String) → find path w.files ≡ some c → Completes (read_to_string path w)
  unfolding read_to_string read_found
  Completes-read_to_string path c e = rw e (Completes-reading _ (λ _. c))

  pub Completes-files_with_prefix :
      (prefix : String) → w.unlisted ≡ false → Completes (files_with_prefix prefix w)
  unfolding files_with_prefix
  Completes-files_with_prefix prefix e = rw e (record { completed = calm })

-- A transaction completes if its body does.
pub Completes-transaction :
    {A : Type 0} (body : Exec A) (w : World)
    → w.faults ≡ []
    → ((u : World) → u.faults ≡ [] → u.disk ≡ Back w.disk → Completes (body u))
    → Completes (transaction body w)
unfolding transaction
Completes-transaction body w calm more =
    rolled_by _
      (Completes-bind (access busy Back) (λ _. body) w (Ends-access busy Back w)
        (Completes-access w calm busy Back) (λ _ u k e. more u k e)).completed
