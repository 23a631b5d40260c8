-- ===== src/Common/Among.antt =====
-- Membership in a list, and the lists that `files_with_prefix` returns.
use mathlib.Core.Path.{◌≡◌, refl, sym, subst}
use mathlib.Core.Logic.{◌⊎◌, inl, inr}
use mathlib.Core.Bool.{Bool, true}
use mathlib.Core.Option.{none}
use mathlib.Core.List.{List, [], ◌∷◌}
use Prim.Native.String.{String}
use text.Mathlib.Text.{◌==◌}
use text.Mathlib.TextEquality.{eq_iff}
use mcp_memory_rs.Common.Tests.{Bool-cases}
use mcp_memory_rs.Common.Lists.{keep, All}
use mcp_memory_rs.Common.Map.{Map, find, keys}

abbrev pub Among : String → List String → Type 0
Among a [] = ⊥
Among a (x ∷ xs) = (a ≡ x) ⊎ Among a xs

pub Among-keep :
    (p : String → Bool) (a : String) (xs : List String)
    → p a ≡ true
    → Among a xs
    → Among a (keep p xs)
Among-keep p a [] h m = elim m [ ]
Among-keep p a (x ∷ xs) h (inl e) = let q : p x ≡ true = subst (λ y. p y ≡ true) e h in rw q (inl e)
Among-keep p a (x ∷ xs) h (inr m) = elim (Bool-cases (p x)) [
  | inl q ↦ rw q (inr (Among-keep p a xs h m))
  | inr q ↦ rw q (Among-keep p a xs h m)
]

pub All-keep {ℓ} : {A : Type ℓ} (p : A → Bool) (xs : List A) → All (λ x. p x ≡ true) (keep p xs)
All-keep p [] = tt
All-keep p (x ∷ xs) = elim (Bool-cases (p x)) [
  | inl q ↦ rw q (q, All-keep p xs)
  | inr q ↦ rw q (All-keep p xs)
]

-- A key of a map is among its keys, or has no value.
pub Among-keys {ℓ} : {V : Type ℓ} (k : String) (m : Map V) → (find k m ≡ none) ⊎ Among k (keys m)
unfolding find keys
Among-keys k [] = inl refl
Among-keys k ((j, v) ∷ m) = elim (Bool-cases (j == k)) [
  | inl q ↦ inr (inl (sym ((eq_iff j k).0 q)))
  | inr q ↦ elim (Among-keys k m) [
    | inl none_later ↦ inl (rw q none_later)
    | inr later ↦ inr (inr later)
  ]
]
