-- ===== src/World/Ends.antt =====
-- Reasoning about operations: what holds of the disk when one returns, and what holds when it fails
-- or is cut short.
use mcp_memory_rs.Common.{◌≡◌, refl, ap, subst}
use mcp_memory_rs.Error.{not_found, MemoryError, Result, ok, err, crashed}
use mcp_memory_rs.World.{
  Disk, World, Exec, pure, throw, continue, ◌>>=◌, attempt, attempted, Attempt, got, threw,
}

-- How an operation stops before its end.
pub data Fault : Type 0 where
  by_error : MemoryError → Fault
  by_crash : Fault

module _ {A : Type 0} where
  abbrev pub EndsBy : (A → Disk → Type 0) → (Fault → Disk → Type 0) → Result A × World → Type 0
  EndsBy Q R (ok a, w) = Q a w.disk
  EndsBy Q R (err e, w) = R (by_error e) w.disk
  EndsBy Q R (crashed, w) = R by_crash w.disk

  -- `Q` holds of what is returned and of the disk then, `R` of the disk otherwise.
  pub record Ends (Q : A → Disk → Type 0) (R : Fault → Disk → Type 0) (r : Result A × World)
      : Type 0 where
    pub holds : EndsBy Q R r

  abbrev mono_by :
      (Q Q' : A → Disk → Type 0) (R R' : Fault → Disk → Type 0)
      → ((a : A) (d : Disk) → Q a d → Q' a d)
      → ((e : Fault) (d : Disk) → R e d → R' e d)
      → (r : Result A × World) → EndsBy Q R r
      → EndsBy Q' R' r
  mono_by Q Q' R R' q f (ok a, w) h = q a w.disk h
  mono_by Q Q' R R' q f (err e, w) h = f (by_error e) w.disk h
  mono_by Q Q' R R' q f (crashed, w) h = f by_crash w.disk h

  pub Ends-mono :
      {Q Q' : A → Disk → Type 0} {R R' : Fault → Disk → Type 0} {r : Result A × World}
      → ((a : A) (d : Disk) → Q a d → Q' a d)
      → ((e : Fault) (d : Disk) → R e d → R' e d)
      → Ends Q R r
      → Ends Q' R' r
  Ends-mono {Q} {Q'} {R} {R'} {r} q f h = record { holds = mono_by Q Q' R R' q f r h.holds }

  abbrev pub Attempted : (A → Disk → Type 0) → (Fault → Disk → Type 0) → Attempt A → Disk → Type 0
  Attempted Q R (got a) d = Q a d
  Attempted Q R (threw e) d = R (by_error e) d

  pub Ends-pure :
      {Q : A → Disk → Type 0} {R : Fault → Disk → Type 0} (a : A) (w : World)
      → Q a w.disk
      → Ends Q R (pure a w)
  Ends-pure a w h = record { holds = h }

  -- What always holds.
  pub Ends-always :
      {Q : A → Disk → Type 0} {R : Fault → Disk → Type 0}
      → ((a : A) (d : Disk) → Q a d)
      → ((f : Fault) (d : Disk) → R f d)
      → (r : Result A × World) → Ends Q R r
  Ends-always q f (ok a, w) = record { holds = q a w.disk }
  Ends-always q f (err e, w) = record { holds = f (by_error e) w.disk }
  Ends-always q f (crashed, w) = record { holds = f by_crash w.disk }

  pub Ends-throw :
      {Q : A → Disk → Type 0} {R : Fault → Disk → Type 0} (e : MemoryError) (w : World)
      → R (by_error e) w.disk
      → Ends Q R (throw e w)
  Ends-throw e w h = record { holds = h }

module _ {A : Type 0} where
  abbrev attempted_by :
      (Q : A → Disk → Type 0) (R : Fault → Disk → Type 0) (r : Result A × World)
      → EndsBy Q R r
      → Ends (Attempted Q R) R (attempted r)
  attempted_by Q R (ok a, w) h = record { holds = h }
  attempted_by Q R (err e, w) h = record { holds = h }
  attempted_by Q R (crashed, w) h = record { holds = h }

  pub Ends-attempt :
      {Q : A → Disk → Type 0} {R : Fault → Disk → Type 0} (m : Exec A) (w : World)
      → Ends Q R (m w)
      → Ends (Attempted Q R) R (attempt m w)
  Ends-attempt {Q} {R} m w h = attempted_by Q R (m w) h.holds

module _ {A : Type 0} (Q : A → Disk → Type 0) (R R' : Fault → Disk → Type 0) where
  abbrev caught_by :
      (r : Result A × World)
      → EndsBy Q R r
      → ((d : Disk) → R by_crash d → R' by_crash d)
      → Ends (Attempted Q R) R' (attempted r)
  caught_by (ok a, w) h k = record { holds = h }
  caught_by (err e, w) h k = record { holds = h }
  caught_by (crashed, w) h k = record { holds = k w.disk h }

  -- An error is caught, so only a crash goes on.
  pub Ends-caught :
      (m : Exec A) (w : World)
      → Ends Q R (m w)
      → ((d : Disk) → R by_crash d → R' by_crash d)
      → Ends (Attempted Q R) R' (attempt m w)
  Ends-caught m w h k = caught_by (m w) h.holds k

abbrev value_or : {A : Type 0} → A → Result A → A
value_or d (ok a) = a
value_or d _ = d

-- What is returned.
pub Ends-returned :
    {A : Type 0} {Q : A → Disk → Type 0} {R : Fault → Disk → Type 0} (r : Result A × World) (a : A)
    → Ends Q R r
    → r.0 ≡ ok a
    → (d : Disk) × Q a d
Ends-returned {Q = Q} (ok b, w) a h e =
    (w.disk, subst (λ x. Q x w.disk) (ap (value_or b) e) h.holds)
Ends-returned (err x, w) a h e = cc
Ends-returned (crashed, w) a h e = cc

-- The fault is no `NotFound`.
abbrev pub NotAbsent : Fault → Type 0
NotAbsent (by_error (not_found _ _ _)) = ⊥
NotAbsent _ = Unit

module _ {A : Type 0} {Q Q' : A → Disk → Type 0} {R R' : Fault → Disk → Type 0} where
  pub Ends-both :
      (r : Result A × World)
      → Ends Q R r
      → Ends Q' R' r
      → Ends (λ a d. Q a d × Q' a d) (λ f d. R f d × R' f d) r
  Ends-both (ok a, w) h k = record { holds = (h.holds, k.holds) }
  Ends-both (err e, w) h k = record { holds = (h.holds, k.holds) }
  Ends-both (crashed, w) h k = record { holds = (h.holds, k.holds) }

module _ {A : Type 0} {P R : Disk → Type 0} where
  any_by :
      (r : Result A × World)
      → Ends (λ _ d. P d) (λ _ d. P d) r
      → ((d : Disk) → P d → R d)
      → Ends (λ _ d. P d) (λ _ d. R d) (attempted r)
  any_by (ok a, w) h k = record { holds = h.holds }
  any_by (err e, w) h k = record { holds = h.holds }
  any_by (crashed, w) h k = record { holds = k w.disk h.holds }

  -- An attempt that keeps a condition, however it ends.
  pub Ends-attempt_any :
      (m : Exec A) (w : World)
      → Ends (λ _ d. P d) (λ _ d. P d) (m w)
      → ((d : Disk) → P d → R d)
      → Ends (λ _ d. P d) (λ _ d. R d) (attempt m w)
  Ends-attempt_any m w h k = any_by (m w) h k

module _ {A B : Type 0} where
  abbrev continue_by :
      (Q : A → Disk → Type 0) (Q' : B → Disk → Type 0) (R : Fault → Disk → Type 0) (f : A → Exec B)
      (r : Result A × World)
      → EndsBy Q R r
      → ((a : A) (w : World) → Q a w.disk → Ends Q' R (f a w))
      → Ends Q' R (continue r f)
  continue_by Q Q' R f (ok a, w) h k = k a w h
  continue_by Q Q' R f (err e, w) h k = record { holds = h }
  continue_by Q Q' R f (crashed, w) h k = record { holds = h }

  -- The rule of a `do` block.
  pub Ends-bind :
      {Q : A → Disk → Type 0} {Q' : B → Disk → Type 0} {R : Fault → Disk → Type 0} (m : Exec A)
      (f : A → Exec B) (w : World)
      → Ends Q R (m w)
      → ((a : A) (w : World) → Q a w.disk → Ends Q' R (f a w))
      → Ends Q' R ((m >>= f) w)
  Ends-bind {Q} {Q'} {R} m f w h k = continue_by Q Q' R f (m w) h.holds k

module _ {A B C : Type 0} where
  continue-continue :
      (r : Result A × World) (f : A → Exec B) (g : B → Exec C)
      → continue (continue r f) g ≡ continue r (λ a w. continue (f a w) g)
  continue-continue (ok a, w) f g = refl
  continue-continue (err e, w) f g = refl
  continue-continue (crashed, w) f g = refl

  -- The first two steps of a `do` block can be taken together.
  pub Ends-assoc :
      {Q : C → Disk → Type 0} {R : Fault → Disk → Type 0} (m : Exec A) (f : A → Exec B)
      (g : B → Exec C) (w : World)
      → Ends Q R (((m >>= f) >>= g) w)
      → Ends Q R ((m >>= λ a. f a >>= g) w)
  Ends-assoc {Q} {R} m f g w h = subst (Ends Q R) (continue-continue (m w) f g) h
