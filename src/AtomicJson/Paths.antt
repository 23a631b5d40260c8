-- ===== src/AtomicJson/Paths.antt =====
-- Which files belong to a category.
use text.Mathlib.TextLemmas.{append_assoc}
use mcp_memory_rs.Common.{
  String, ◌<>◌, ◌≡◌, ◌∙◌, ap, sym, inl, inr, true, false, arith, Option-cases, is_some,
}
use mcp_memory_rs.Common.Text.{
  strip_prefix, starts_with, strip_prefix-append, strip_prefix_sound, strip_prefix_cancel,
  starts_with_comparable, dot_free, stem, stem-append_dot,
}
use mcp_memory_rs.AtomicJson.{json_path, staged_prefix, deleted_prefix, staged_mark, deleted_mark}

abbrev pub IsStaged : String → String → Type 0
IsStaged n p = starts_with p (staged_prefix n) ≡ true

abbrev pub IsParked : String → String → Type 0
IsParked n p = starts_with p (deleted_prefix n) ≡ true

-- The files in which a reader looks for the content of a category.
pub data Candidate (n p : String) : Type 0 where
  is_final : p ≡ json_path n → Candidate n p
  is_staged : IsStaged n p → Candidate n p
  is_parked : IsParked n p → Candidate n p

pub starts_with_split : (p a : String) → starts_with p a ≡ true → (r : String) × (p ≡ a <> r)
starts_with_split p a h = elim (Option-cases (strip_prefix p a)) [
  | inl e ↦ absurd (ground arith)
  | inr (r, e) ↦ (r, strip_prefix_sound p a r e)
]

pub final_not_staged : (n : String) → starts_with (json_path n) (staged_prefix n) ≡ false
unfolding strip_prefix
final_not_staged n = ap is_some (strip_prefix_cancel n ".json" staged_mark)

pub final_not_parked : (n : String) → starts_with (json_path n) (deleted_prefix n) ≡ false
unfolding strip_prefix
final_not_parked n = ap is_some (strip_prefix_cancel n ".json" deleted_mark)

pub staged_not_parked : (n p : String) → IsStaged n p → IsParked n p → ⊥
unfolding strip_prefix
staged_not_parked n p s k = ground (
  arith,
  starts_with_comparable p (staged_prefix n) (deleted_prefix n) s k,
  strip_prefix_cancel n staged_mark deleted_mark,
  strip_prefix_cancel n deleted_mark staged_mark,
)

pub IsStaged-path : (n suffix : String) → IsStaged n (staged_prefix n <> suffix)
IsStaged-path n suffix = ap is_some (strip_prefix-append (staged_prefix n) suffix)

pub IsParked-path : (n suffix : String) → IsParked n (deleted_prefix n <> suffix)
IsParked-path n suffix = ap is_some (strip_prefix-append (deleted_prefix n) suffix)

-- Every file of a category is its name, a dot, and more.
Candidate-split : (n p : String) → Candidate n p → (r : String) × (p ≡ n <> ("." <> r))
Candidate-split n p (is_final e) = ("json", e)
Candidate-split n p (is_staged s) =
    let (r, e) = starts_with_split p (staged_prefix n) s in
    (
      "json.new." <> r,
      e ∙ append_assoc n staged_mark r ∙ ap (λ t. n <> t) (append_assoc "." "json.new." r),
    )
Candidate-split n p (is_parked s) =
    let (r, e) = starts_with_split p (deleted_prefix n) s in
    (
      "json.deleted." <> r,
      e ∙ append_assoc n deleted_mark r ∙ ap (λ t. n <> t) (append_assoc "." "json.deleted." r),
    )

Candidate-stem : (n p : String) → dot_free n ≡ true → Candidate n p → stem p ≡ n
Candidate-stem n p d c = let (r, e) = Candidate-split n p c in ap stem e ∙ stem-append_dot n r d

-- Two names without a dot have no file in common.
pub candidates_apart :
    (m n p : String) → dot_free m ≡ true → dot_free n ≡ true → Candidate m p → Candidate n p → m ≡ n
candidates_apart m n p dm dn cm cn = sym (Candidate-stem m p dm cm) ∙ Candidate-stem n p dn cn
