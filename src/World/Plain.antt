-- ===== src/World/Plain.antt =====
-- Reading the disk and the database never fails with the `NotFound` of the store.
use mcp_memory_rs.Common.Text.{starts_with}
use mcp_memory_rs.Common.{true, false, keep, if◌then◌else◌, String, Option, none, some, sym, subst}
use mcp_memory_rs.Common.Map.{find, keys}
use mcp_memory_rs.Error.{MemoryError, io, sqlite, missing, other_io, Result, ok, err}
use mcp_memory_rs.Db.{Tables}
use mcp_memory_rs.World.{
  Disk, World, access, read_found, read_to_string, files_with_prefix, query, reading,
}
use mcp_memory_rs.World.Ends.{
  NotAbsent, Fault, by_error, by_crash, Ends, Ends-mono, Ends-bind, Ends-throw,
}
use mcp_memory_rs.World.Accesses.{Only, Ends-access}

NotAbsent-Only : (e : MemoryError) (f : Fault) → NotAbsent (by_error e) → Only e f → NotAbsent f
NotAbsent-Only e (by_error e') n o = subst (λ x. NotAbsent (by_error x)) (sym o) n
NotAbsent-Only e by_crash n o = tt

-- Reading never fails with `NotFound`, which is an error of the store.
abbrev pub Plain : {A : Type 0} → Result A × World → Type 0
Plain r = Ends (λ _ _. Unit {0}) (λ f _. NotAbsent f) r

Plain-reading :
    {A : Type 0} (e : MemoryError) (f : Disk → A) (w : World)
    → NotAbsent (by_error e)
    → Plain (reading e f w)
Plain-reading e f w n =
    Ends-bind (access e (λ d. d)) (λ _ u. (ok (f u.disk), u)) w
      (Ends-mono (λ _ _ _. tt) (λ f _ h. NotAbsent-Only e f n h.1) (Ends-access e (λ d. d) w))
      (λ _ u h. record { holds = tt })

Plain-read_found : (o : Option String) (w : World) → Plain (read_found o w)
unfolding read_found
Plain-read_found none w = Ends-throw (io missing) w tt
Plain-read_found (some c) w = Plain-reading (io other_io) (λ _. c) w tt

pub Plain-read_to_string : (path : String) (w : World) → Plain (read_to_string path w)
unfolding read_to_string
Plain-read_to_string path w = Plain-read_found (find path w.files) w

pub Plain-files_with_prefix : (prefix : String) (w : World) → Plain (files_with_prefix prefix w)
unfolding files_with_prefix
Plain-files_with_prefix prefix w =
    elim w.unlisted
      as (λ b. Plain (
        if b
        then (err (io other_io), w)
        else (ok (keep (λ f. starts_with f prefix) (keys w.files)), w))) [
          | true ↦ record { holds = tt }
          | false ↦ record { holds = tt }
        ]

pub Plain-query : {A : Type 0} (f : Tables → A) (w : World) → Plain (query f w)
unfolding query
Plain-query f w = Plain-reading sqlite (λ d. f d.db) w tt
