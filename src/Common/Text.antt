-- ===== src/Common/Text.antt =====
-- The methods of `str` that the code calls, by recursion on characters.
use Prim.Native.Char.{Char, code}
use Prim.Native.String.{String, [], ◌∷◌, ◌++◌ as ◌<>◌, count}
use mathlib.Core.Path.{◌≡◌, refl, sym, ap, ap₂, ◌∙◌, subst}
use mathlib.Core.Logic.{inl, inr, ◌⊎◌}
use mathlib.Core.Bool.{Bool, true, false}
use mathlib.Core.Option.{Option, none, some, some-injective}
use native.Mathlib.Omega.{arith}
use text.Mathlib.TextEquality.{Char-path, eq_iff}
use text.Mathlib.Text.{◌==◌}
use text.Mathlib.TextPositions.{eq_refl}
use text.Mathlib.TextLemmas.{nil-append, cons-append, length-cons, length-append}
use mcp_memory_rs.Common.Tests.{if◌then◌else◌, nat_eq, nat_eq_iff, is_some, Bool-cases}

-- `strip_prefix`: the text after `p`.
unfoldable pub strip_prefix : String → String → Option String
strip_prefix s [] = some s
strip_prefix [] (c ∷ p) = none
strip_prefix (d ∷ s) (c ∷ p) =
    let rest = strip_prefix s p in if nat_eq (code d) (code c) then rest else none

abbrev pub starts_with : String → String → Bool
starts_with s p = is_some (strip_prefix s p)

abbrev push_front : Char → Option String → Option String
push_front d none = none
push_front d (some r) = some (d ∷ r)

-- `strip_suffix`: the text before a final `p`.
unfoldable pub strip_suffix : String → String → Option String
strip_suffix [] p = if [] == p then some [] else none
strip_suffix (d ∷ s) p =
    let shorter = strip_suffix s p in if (d ∷ s) == p then some [] else push_front d shorter

-- `contains`
unfoldable pub contains : String → String → Bool
unfolding strip_prefix
contains [] p = starts_with [] p
contains (d ∷ s) p = if starts_with (d ∷ s) p then true else contains s p

-- `find` and the text in front of what it finds.
unfoldable pub before_first : String → String → Option String
unfolding strip_prefix
before_first [] p = if starts_with [] p then some [] else none
before_first (d ∷ s) p =
    let later = before_first s p in if starts_with (d ∷ s) p then some [] else push_front d later

pub strip_prefix-append : (p s : String) → strip_prefix (p <> s) p ≡ some s
unfolding strip_prefix
strip_prefix-append [] s = rw nil-append
strip_prefix-append (c ∷ p) s =
    rw cons-append (ground (arith, strip_prefix-append p s, nat_eq_iff (code c) (code c)))

pub strip_prefix_sound : (s p r : String) → strip_prefix s p ≡ some r → s ≡ p <> r
unfolding strip_prefix
strip_prefix_sound s [] r h = rw nil-append (ground arith)
strip_prefix_sound [] (c ∷ p) r h = cc
strip_prefix_sound (d ∷ s) (c ∷ p) r h = elim (Bool-cases (nat_eq (code d) (code c))) [
  | inl e ↦ rw cons-append (
      ap₂ (λ x y. x ∷ y) (Char-path d c ((nat_eq_iff _ _).0 e))
        (strip_prefix_sound s p r (rw e at h)))
  | inr e ↦ cc (rw e at h)
]

strip_suffix_sound_push :
    (d : Char) (s p r : String) (o : Option String)
    → ((q : String) → o ≡ some q → s ≡ q <> p)
    → push_front d o ≡ some r
    → d ∷ s ≡ r <> p
strip_suffix_sound_push d s p r none ih h = cc
strip_suffix_sound_push d s p r (some q) ih h =
    subst (λ t. d ∷ s ≡ t <> p) (some-injective _ _ h)
      (ap (λ t. d ∷ t) (ih q refl) ∙ sym (cons-append d q p))

pub strip_suffix_sound : (s p r : String) → strip_suffix s p ≡ some r → s ≡ r <> p
unfolding strip_suffix
strip_suffix_sound [] p r h = elim (Bool-cases ([] == p)) [
  | inl e ↦ cc (rw e at h, nil-append p, (eq_iff [] p).0 e)
  | inr e ↦ cc (rw e at h)
]
strip_suffix_sound (d ∷ s) p r h = elim (Bool-cases ((d ∷ s) == p)) [
  | inl e ↦ cc (rw e at h, nil-append p, (eq_iff (d ∷ s) p).0 e)
  | inr e ↦ strip_suffix_sound_push d s p r _ (λ q. strip_suffix_sound s p q) (rw e at h)
]

longer_ne : (d : Char) (r p : String) → (d ∷ (r <> p)) == p ≡ false
longer_ne d r p = elim (Bool-cases ((d ∷ (r <> p)) == p)) [
  | inl e ↦
      absurd (omega (arith, ap count ((eq_iff _ _).0 e), length-cons d (r <> p), length-append r p))
  | inr e ↦ e
]

strip_suffix_self : (p : String) → strip_suffix p p ≡ some []
unfolding strip_suffix
strip_suffix_self [] = refl
strip_suffix_self (c ∷ p) = rw eq_refl

pub strip_suffix-append : (r p : String) → strip_suffix (r <> p) p ≡ some r
unfolding strip_suffix
strip_suffix-append [] p = rw nil-append (strip_suffix_self p)
strip_suffix-append (d ∷ r) p = rw (cons-append, longer_ne d r p, strip_suffix-append r p)

-- A common front does not matter.
pub strip_prefix_cancel : (n a b : String) → strip_prefix (n <> a) (n <> b) ≡ strip_prefix a b
unfolding strip_prefix
strip_prefix_cancel [] a b = rw (nil-append, nil-append)
strip_prefix_cancel (c ∷ n) a b =
    rw (cons-append, cons-append)
      (ground (arith, strip_prefix_cancel n a b, nat_eq_iff (code c) (code c)))

-- Of two prefixes of one text, one is a prefix of the other.
pub starts_with_comparable :
    (s a b : String)
    → starts_with s a ≡ true
    → starts_with s b ≡ true
    → (starts_with a b ≡ true) ⊎ (starts_with b a ≡ true)
unfolding strip_prefix
starts_with_comparable s [] b h k = inr (ends b)
  where
    ends : (t : String) → starts_with t [] ≡ true
    ends [] = refl
    ends (d ∷ t) = refl
starts_with_comparable s (c ∷ a) [] h k = inl refl
starts_with_comparable [] (c ∷ a) (e ∷ b) h k = cc
starts_with_comparable (d ∷ s) (c ∷ a) (e ∷ b) h k = ground (
  arith,
  starts_with_comparable s a b,
  nat_eq_iff (code d) (code c),
  nat_eq_iff (code d) (code e),
  nat_eq_iff (code c) (code e),
  nat_eq_iff (code e) (code c),
)

-- A text without a dot, and the part of a text before its first dot.
abbrev pub dot_free : String → Bool
dot_free [] = true
dot_free (c ∷ s) = if nat_eq (code c) b'.' then false else dot_free s

abbrev pub stem : String → String
stem [] = []
stem (c ∷ s) = let rest = stem s in if nat_eq (code c) b'.' then [] else c ∷ rest

pub stem-append_dot : (n r : String) → dot_free n ≡ true → stem (n <> ("." <> r)) ≡ n
stem-append_dot [] r h = rw (nil-append, dot_first r)
  where
    dot_first : (t : String) → stem ("." <> t) ≡ []
    dot_first t = ap stem (cons-append "." [] t)
stem-append_dot (c ∷ n) r h = rw cons-append (ground (arith, stem-append_dot n r))

before_first_start : (s p : String) → starts_with s p ≡ true → before_first s p ≡ some []
unfolding before_first
before_first_start [] p h = rw h refl
before_first_start (d ∷ s) p h = rw h refl

-- What stands in a text is found.
pub before_first-found : (a p r : String) → is_some (before_first (a <> (p <> r)) p) ≡ true
before_first-found [] p r =
    rw (nil-append, before_first_start (p <> r) p (ap is_some (strip_prefix-append p r))) refl
before_first-found (d ∷ a) p r = rw cons-append (later (before_first-found a p r))
  where
    later :
        is_some (before_first (a <> (p <> r)) p) ≡ true
        → is_some (before_first (d ∷ (a <> (p <> r))) p) ≡ true
    later h = unfold before_first in ground arith
