-- ===== src/Common/Lists.antt =====
-- Lists measured by native numbers, and the iterator methods that the code calls.
use Prim.Native.Nat.{ℕ, zero, suc, ◌+◌, ◌-◌, ◌≤◌}
use mathlib.Core.Path.{◌≡◌}
use mathlib.Core.Bool.{Bool, true, false, ◌&&◌, ◌||◌}
use mathlib.Core.List.{List, [], ◌∷◌, ◌++◌}
use mathlib.Core.Option.{Option, none, some}
use native.Mathlib.Omega.{arith}
use mcp_memory_rs.Common.Tests.{if◌then◌else◌}

module _ {ℓ} {A : Type ℓ} where
  abbrev pub length : List A → ℕ
  length [] = 0
  length (x ∷ xs) = suc (length xs)

  abbrev pub drop : ℕ → List A → List A
  drop zero xs = xs
  drop (suc n) [] = []
  drop (suc n) (x ∷ xs) = drop n xs

  abbrev pub take : ℕ → List A → List A
  take zero xs = []
  take (suc n) [] = []
  take (suc n) (x ∷ xs) = x ∷ take n xs

  -- `is_empty`
  abbrev pub is_nil : List A → Bool
  is_nil [] = true
  is_nil (_ ∷ _) = false

  -- `retain`, `filter`
  abbrev pub keep : (A → Bool) → List A → List A
  keep p [] = []
  keep p (x ∷ xs) = let rest = keep p xs in if p x then x ∷ rest else rest

  -- `iter().any`, `iter().all`
  abbrev pub any : (A → Bool) → List A → Bool
  any p [] = false
  any p (x ∷ xs) = p x || any p xs

  abbrev pub every : (A → Bool) → List A → Bool
  every p [] = true
  every p (x ∷ xs) = p x && every p xs

  abbrev pub All {κ} : (A → Type κ) → List A → Type κ
  All P [] = Unit
  All P (x ∷ xs) = P x × All P xs

  pub length-append : (xs ys : List A) → length (xs ++ ys) ≡ length xs + length ys
  length-append [] ys = omega arith
  length-append (x ∷ xs) ys = omega (arith, length-append xs ys)

  pub length-drop : (n : ℕ) (xs : List A) → length (drop n xs) ≡ length xs - n
  length-drop zero xs = omega arith
  length-drop (suc n) [] = omega arith
  length-drop (suc n) (x ∷ xs) = omega (arith, length-drop n xs)

  pub length-keep : (p : A → Bool) (xs : List A) → length (keep p xs) ≤ length xs
  length-keep p [] = omega arith
  length-keep p (x ∷ xs) = ground (arith, length-keep p xs)

abbrev pub push_some {ℓ} : {B : Type ℓ} → Option B → List B → List B
push_some none ys = ys
push_some (some y) ys = y ∷ ys

-- `filter_map`
abbrev pub filter_map {ℓ κ} : {A : Type ℓ} {B : Type κ} → (A → Option B) → List A → List B
filter_map f [] = []
filter_map f (x ∷ xs) = push_some (f x) (filter_map f xs)

abbrev pub map {ℓ κ} : {A : Type ℓ} {B : Type κ} → (A → B) → List A → List B
map f [] = []
map f (x ∷ xs) = f x ∷ map f xs
