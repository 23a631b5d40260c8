-- ===== src/Common/TextOrder.antt =====
-- The order of texts, which is that of their characters' numbers.
use Prim.Native.Char.{code}
use Prim.Native.String.{String, [], ◌∷◌}
use mathlib.Core.Path.{◌≡◌, refl, ap₂}
use mathlib.Core.Logic.{inl, inr}
use mathlib.Core.Bool.{Bool, true, false}
use native.Mathlib.Omega.{arith}
use text.Mathlib.TextEquality.{Char-path}
use mcp_memory_rs.Common.Tests.{if◌then◌else◌, ltb, nat_eq, nat_eq_iff, Bool-cases}

-- `a <= b` on `&str`
unfoldable pub text_leb : String → String → Bool
text_leb [] t = true
text_leb (c ∷ s) [] = false
text_leb (c ∷ s) (d ∷ t) =
    let rest = text_leb s t in
    if ltb (code c) (code d) then true else if nat_eq (code c) (code d) then rest else false

pub text_leb_total : (s t : String) → text_leb s t ≡ false → text_leb t s ≡ true
unfolding text_leb
text_leb_total [] t h = ground arith
text_leb_total (c ∷ s) [] h = refl
text_leb_total (c ∷ s) (d ∷ t) h = ground (arith, text_leb_total s t)

pub text_leb_antisym : (s t : String) → text_leb s t ≡ true → text_leb t s ≡ true → s ≡ t
unfolding text_leb
text_leb_antisym [] [] h k = refl
text_leb_antisym [] (d ∷ t) h k = absurd (ground arith)
text_leb_antisym (c ∷ s) [] h k = absurd (ground arith)
text_leb_antisym (c ∷ s) (d ∷ t) h k = elim (Bool-cases (nat_eq (code c) (code d))) [
  | inl e ↦
      ap₂ (λ x y. x ∷ y) (Char-path c d ((nat_eq_iff _ _).0 e))
        (text_leb_antisym s t (ground arith) (ground arith))
  | inr e ↦ absurd (ground arith)
]

pub text_leb_trans :
    (s t u : String) → text_leb s t ≡ true → text_leb t u ≡ true → text_leb s u ≡ true
unfolding text_leb
text_leb_trans [] t u h k = refl
text_leb_trans (c ∷ s) [] u h k = absurd (ground arith)
text_leb_trans (c ∷ s) (d ∷ t) [] h k = absurd (ground arith)
text_leb_trans (c ∷ s) (d ∷ t) (e ∷ u) h k = ground (arith, text_leb_trans s t u)
