-- ===== src/Common/Tests.antt =====
-- Boolean tests on numbers and options, the conditional, and case splits.
use Prim.Native.Nat.{ℕ, compare, Ordering}
use Prim.Native.String.{String}
use mathlib.Core.Path.{◌≡◌, refl}
use mathlib.Core.Logic.{◌↔◌, ◌⊎◌, inl, inr}
use mathlib.Core.Bool.{Bool, true, false}
use mathlib.Core.Option.{Option, none, some}
use native.Mathlib.Omega.{arith}
use text.Mathlib.Text.{◌==◌}
use text.Mathlib.TextEquality.{eq_iff}

abbrev pub ltb : ℕ → ℕ → Bool
ltb a b = elim (compare a b) [ Ordering.lt ↦ true | _ ↦ false ]

abbrev pub leb : ℕ → ℕ → Bool
leb a b = elim (compare a b) [ Ordering.gt ↦ false | _ ↦ true ]

abbrev pub nat_eq : ℕ → ℕ → Bool
nat_eq a b = elim (compare a b) [ Ordering.eq ↦ true | _ ↦ false ]

pub nat_eq_iff : (a b : ℕ) → (nat_eq a b ≡ true) ↔ (a ≡ b)
nat_eq_iff a b = ground arith

infix 1 if◌then◌else◌
abbrev pub if◌then◌else◌ {ℓ} : {A : Type ℓ} → Bool → A → A → A
if true then x else y = x
if false then x else y = y

pub Bool-cases : (b : Bool) → (b ≡ true) ⊎ (b ≡ false)
Bool-cases true = inl refl
Bool-cases false = inr refl

pub Option-cases {ℓ} : {A : Type ℓ} (o : Option A) → (o ≡ none) ⊎ ((a : A) × (o ≡ some a))
Option-cases none = inl refl
Option-cases (some a) = inr (a, refl)

abbrev pub is_some {ℓ} : {A : Type ℓ} → Option A → Bool
is_some none = false
is_some (some _) = true

-- `Option::or_else` on a computed alternative, and `unwrap_or`.
abbrev pub or_else {ℓ} : {A : Type ℓ} → Option A → Option A → Option A
or_else none b = b
or_else (some a) b = some a

abbrev pub unwrap_or {ℓ} : {A : Type ℓ} → Option A → A → A
unwrap_or none d = d
unwrap_or (some a) d = a

abbrev pub and_then {ℓ κ} : {A : Type ℓ} {B : Type κ} → Option A → (A → Option B) → Option B
and_then none f = none
and_then (some a) f = f a

-- `opt == Some(s)` for an optional text.
abbrev pub is_text : Option String → String → Bool
is_text none t = false
is_text (some s) t = s == t

abbrev pub opt_text_eq : Option String → Option String → Bool
opt_text_eq none none = true
opt_text_eq (some a) (some b) = a == b
opt_text_eq _ _ = false

pub is_text→eq : (o : Option String) (t : String) → is_text o t ≡ true → o ≡ some t
is_text→eq none t h = ground arith
is_text→eq (some s) t h = ground (arith, eq_iff s t)

pub opt_text_eq→eq : (o p : Option String) → opt_text_eq o p ≡ true → o ≡ p
opt_text_eq→eq none none h = refl
opt_text_eq→eq none (some b) h = cc
opt_text_eq→eq (some a) none h = cc
opt_text_eq→eq (some a) (some b) h = ground (arith, eq_iff a b)
