-- ===== src/Common/Map.antt =====
-- Maps in key order: a directory by file name, a table by its primary key.
use Prim.Native.String.{String, compare}
use Prim.Native.Nat.{Ordering}
use mathlib.Core.Path.{◌≡◌, refl}
use mathlib.Core.Logic.{◌≢◌}
use mathlib.Core.Option.{Option, none, some}
use mathlib.Core.List.{List, [], ◌∷◌}
use native.Mathlib.Omega.{arith}
use text.Mathlib.Text.{◌==◌}
use text.Mathlib.TextEquality.{eq_iff}
use mcp_memory_rs.Common.Tests.{if◌then◌else◌}

abbrev pub Map {ℓ} : Type ℓ → Type ℓ
Map V = List (String × V)

module _ {ℓ} {V : Type ℓ} where
  unfoldable pub find : String → Map V → Option V
  find k [] = none
  find k ((j, v) ∷ m) = if j == k then some v else find k m

  unfoldable pub put : String → V → Map V → Map V
  put k v [] = (k, v) ∷ []
  put k v ((j, w) ∷ m) =
      let later = put k v m in
      elim (compare k j) [
        | Ordering.lt ↦ (k, v) ∷ (j, w) ∷ m
        | Ordering.eq ↦ (k, v) ∷ m
        | Ordering.gt ↦ (j, w) ∷ later
      ]

  unfoldable pub erase : String → Map V → Map V
  erase k [] = []
  erase k ((j, w) ∷ m) = let later = erase k m in if j == k then later else (j, w) ∷ later

  unfoldable pub keys : Map V → List String
  keys [] = []
  keys ((j, _) ∷ m) = j ∷ keys m

  unfoldable pub values : Map V → List V
  values [] = []
  values ((_, v) ∷ m) = v ∷ values m

  pub find-put :
      (j k : String) (v : V) (m : Map V)
      → find j (put k v m) ≡ (if k == j then some v else find j m)
  unfolding find put
  find-put j k v [] = refl
  find-put j k v ((i, w) ∷ m) = ground (arith, eq_iff k i, eq_iff i j, eq_iff k j, find-put j k v m)

  pub find-erase :
      (j k : String) (m : Map V) → find j (erase k m) ≡ (if k == j then none else find j m)
  unfolding find erase
  find-erase j k [] = ground arith
  find-erase j k ((i, w) ∷ m) = ground (arith, eq_iff i k, eq_iff i j, eq_iff k j, find-erase j k m)

  pub find-put_self : (k : String) (v : V) (m : Map V) → find k (put k v m) ≡ some v
  find-put_self k v m = ground (arith, find-put k k v m, eq_iff k k)

  pub find-put_ne : (j k : String) (v : V) (m : Map V) → j ≢ k → find j (put k v m) ≡ find j m
  find-put_ne j k v m h = ground (arith, find-put j k v m, eq_iff k j)

  pub find-erase_self : (k : String) (m : Map V) → find k (erase k m) ≡ none
  find-erase_self k m = ground (arith, find-erase k k m, eq_iff k k)

  pub find-erase_ne : (j k : String) (m : Map V) → j ≢ k → find j (erase k m) ≡ find j m
  find-erase_ne j k m h = ground (arith, find-erase j k m, eq_iff k j)
