-- ===== src/Common/Order.antt =====
-- Sorting texts.
use Prim.Native.String.{String}
use mathlib.Core.Path.{◌≡◌, refl, ap, ap₂, ◌∙◌}
use mathlib.Core.List.{List, [], ◌∷◌, Permᴰ}
use mathlib.Core.List.Permᴰ
use native.Mathlib.Omega.{arith}
use mcp_memory_rs.Common.Tests.{if◌then◌else◌, Bool-cases}
use mcp_memory_rs.Common.Lists.{map}
use mathlib.Core.Logic.{inl, inr}
use mcp_memory_rs.Common.TextOrder.{text_leb, text_leb_total, text_leb_antisym, text_leb_trans}

unfoldable pub insert_sorted : String → List String → List String
insert_sorted x [] = x ∷ []
insert_sorted x (y ∷ ys) =
    let later = insert_sorted x ys in if text_leb x y then x ∷ (y ∷ ys) else y ∷ later

-- `Vec::sort`
unfoldable pub sort : List String → List String
unfolding insert_sorted
sort [] = []
sort (x ∷ xs) = insert_sorted x (sort xs)

insert_sorted_swap :
    (x y : String) (l : List String)
    → insert_sorted x (insert_sorted y l) ≡ insert_sorted y (insert_sorted x l)
unfolding insert_sorted
insert_sorted_swap x y [] =
    ground (arith, text_leb_total x y, text_leb_total y x, text_leb_antisym x y)
insert_sorted_swap x y (z ∷ l) = ground (
  arith,
  insert_sorted_swap x y l,
  text_leb_total x y,
  text_leb_total y x,
  text_leb_antisym x y,
  text_leb_trans x y z,
  text_leb_trans y x z,
  text_leb_total x z,
  text_leb_total y z,
)

pub sort_of_perm : {l m : List String} → Permᴰ l m → sort l ≡ sort m
unfolding sort
sort_of_perm Permᴰ.nil = refl
sort_of_perm (Permᴰ.cons e p) = ap₂ insert_sorted e (sort_of_perm p)
sort_of_perm (Permᴰ.swap {a} {b} {l = l} e f) =
    insert_sorted_swap a b (sort l) ∙ ap₂ (λ x y. insert_sorted x (insert_sorted y (sort l))) f e
sort_of_perm (Permᴰ.trans p q) = sort_of_perm p ∙ sort_of_perm q

-- `sort_by_key` with a text as the key, which is stable.
module _ {ℓ} {A : Type ℓ} (key : A → String) where
  unfoldable pub insert_by : A → List A → List A
  insert_by x [] = x ∷ []
  insert_by x (y ∷ ys) =
      let later = insert_by x ys in if text_leb (key x) (key y) then x ∷ y ∷ ys else y ∷ later

  unfoldable pub sort_by_key : List A → List A
  unfolding insert_by
  sort_by_key [] = []
  sort_by_key (x ∷ xs) = insert_by x (sort_by_key xs)

  insert_by-perm : (x : A) (l : List A) → Permᴰ (insert_by x l) (x ∷ l)
  unfolding insert_by
  insert_by-perm x [] = Permᴰ.refl (x ∷ [])
  insert_by-perm x (y ∷ ys) = elim (Bool-cases (text_leb (key x) (key y))) [
    | inl q ↦ rw q (Permᴰ.refl (x ∷ y ∷ ys))
    | inr q ↦ rw q (Permᴰ.trans (Permᴰ.cons refl (insert_by-perm x ys)) (Permᴰ.swap refl refl))
  ]

  pub sort_by_key-perm : (l : List A) → Permᴰ (sort_by_key l) l
  unfolding sort_by_key
  sort_by_key-perm [] = Permᴰ.nil
  sort_by_key-perm (x ∷ xs) =
      Permᴰ.trans (insert_by-perm x (sort_by_key xs)) (Permᴰ.cons refl (sort_by_key-perm xs))

pub map-perm : {A B : Type 0} (f : A → B) {l m : List A} → Permᴰ l m → Permᴰ (map f l) (map f m)
map-perm f Permᴰ.nil = Permᴰ.nil
map-perm f (Permᴰ.cons e p) = Permᴰ.cons (ap f e) (map-perm f p)
map-perm f (Permᴰ.swap e q) = Permᴰ.swap (ap f e) (ap f q)
map-perm f (Permᴰ.trans p q) = Permᴰ.trans (map-perm f p) (map-perm f q)
