-- ===== src/Common/Thinned.antt =====
-- Lists with some items left out, and lists with a given last item.
use Prim.Native.Nat.{ℕ, zero, suc, ◌≤◌}
use mathlib.Core.Path.{◌≡◌, refl, ap}
use mathlib.Core.Logic.{inl, inr}
use mathlib.Core.Bool.{Bool, true}
use mathlib.Core.List.{List, [], ◌∷◌, ◌++◌}
use native.Mathlib.Omega.{arith}
use mcp_memory_rs.Common.Tests.{Bool-cases}
use mcp_memory_rs.Common.Lists.{length, drop, keep}

-- `xs` is `ys` with some items left out.
pub data Thinned {ℓ} {A : Type ℓ} : List A → List A → Type ℓ where
  done : Thinned [] []
  dropped : {xs ys : List A} (y : A) → Thinned xs ys → Thinned xs (y ∷ ys)
  kept : {xs ys : List A} (y : A) → Thinned xs ys → Thinned (y ∷ xs) (y ∷ ys)

module _ {ℓ} {A : Type ℓ} where
  pub Thinned-self : (xs : List A) → Thinned xs xs
  Thinned-self [] = done
  Thinned-self (x ∷ xs) = kept x (Thinned-self xs)

  pub Thinned-drop : (n : ℕ) (xs : List A) → Thinned (drop n xs) xs
  Thinned-drop zero xs = Thinned-self xs
  Thinned-drop (suc n) [] = done
  Thinned-drop (suc n) (x ∷ xs) = dropped x (Thinned-drop n xs)

  pub Thinned-keep : (p : A → Bool) (xs : List A) → Thinned (keep p xs) xs
  Thinned-keep p [] = done
  Thinned-keep p (x ∷ xs) = elim (Bool-cases (p x)) [
    | inl e ↦ rw e (kept x (Thinned-keep p xs))
    | inr e ↦ rw e (dropped x (Thinned-keep p xs))
  ]

  pub Thinned-trans :
      {ys zs : List A} → Thinned ys zs → {xs : List A} → Thinned xs ys → Thinned xs zs
  Thinned-trans done t = t
  Thinned-trans (dropped y s) t = dropped y (Thinned-trans s t)
  Thinned-trans (kept y s) (dropped _ t) = dropped y (Thinned-trans s t)
  Thinned-trans (kept y s) (kept _ t) = kept y (Thinned-trans s t)

  -- `x` is the last item.
  abbrev pub EndsIn : A → List A → Type ℓ
  EndsIn x xs = (init : List A) × (xs ≡ init ++ x ∷ [])

  pub EndsIn-drop : (n : ℕ) (xs : List A) (x : A) → n ≤ length xs → EndsIn x (drop n (xs ++ x ∷ []))
  EndsIn-drop zero xs x h = (xs, refl)
  EndsIn-drop (suc n) [] x h = absurd (omega arith)
  EndsIn-drop (suc n) (y ∷ xs) x h = EndsIn-drop n xs x (omega arith)

  pub EndsIn-keep :
      (p : A → Bool) (xs : List A) (x : A) → p x ≡ true → EndsIn x (keep p (xs ++ x ∷ []))
  EndsIn-keep p [] x h = ([], rw h)
  EndsIn-keep p (y ∷ xs) x h =
      let (init, e) = EndsIn-keep p xs x h in
      elim (Bool-cases (p y)) [
        | inl q ↦ (y ∷ init, rw q (ap (λ l. y ∷ l) e))
        | inr q ↦ (init, rw q e)
      ]
