-- ===== src/Log/Ids.antt =====
-- The entry ids of a log.
use mcp_memory_rs.Common.{
  ℕ, ◌+◌, ◌-◌, ◌%◌, ◌<◌, ◌≡◌, refl, ◌∙◌, ap, Option, none, some, List, [], ◌∷◌, ◌++◌, arith, All,
  filter_map, push_some, ◌≤◌, Option-cases, inl, inr, subst,
}
use mcp_memory_rs.Common.Thinned.{Thinned, done, dropped, kept}
use mcp_memory_rs.Json.{Value}
use mcp_memory_rs.Log.{id_of, greatest, next_id, u64_mod}

abbrev pub ids : List Value → List ℕ
ids = filter_map id_of

abbrev pub Increasing : List ℕ → Type 0
Increasing [] = Unit
Increasing (n ∷ ns) = All (λ m. n < m) ns × Increasing ns

Thinned-push_some :
    (o : Option ℕ) {ms ns : List ℕ} → Thinned ms ns → Thinned (push_some o ms) (push_some o ns)
Thinned-push_some none t = t
Thinned-push_some (some n) t = kept n t

Thinned-push_some_right :
    (o : Option ℕ) {ms ns : List ℕ} → Thinned ms ns → Thinned ms (push_some o ns)
Thinned-push_some_right none t = t
Thinned-push_some_right (some n) t = dropped n t

Thinned-ids : {xs ys : List Value} → Thinned xs ys → Thinned (ids xs) (ids ys)
Thinned-ids done = done
Thinned-ids (dropped y t) = Thinned-push_some_right (id_of y) (Thinned-ids t)
Thinned-ids (kept y t) = Thinned-push_some (id_of y) (Thinned-ids t)

All-Thinned : (P : ℕ → Type 0) {ms ns : List ℕ} → Thinned ms ns → All P ns → All P ms
All-Thinned P done h = h
All-Thinned P (dropped n t) h = All-Thinned P t h.1
All-Thinned P (kept n t) h = (h.0, All-Thinned P t h.1)

Increasing-Thinned : {ms ns : List ℕ} → Thinned ms ns → Increasing ns → Increasing ms
Increasing-Thinned done h = h
Increasing-Thinned (dropped n t) h = Increasing-Thinned t h.1
Increasing-Thinned (kept n t) h = (All-Thinned (λ m. n < m) t h.0, Increasing-Thinned t h.1)

All-append_one : (P : ℕ → Type 0) (ns : List ℕ) (k : ℕ) → All P ns → P k → All P (ns ++ k ∷ [])
All-append_one P [] k h p = (p, tt)
All-append_one P (n ∷ ns) k h p = (h.0, All-append_one P ns k h.1 p)

Increasing-append_one :
    (ns : List ℕ) (k : ℕ) → Increasing ns → All (λ n. n < k) ns → Increasing (ns ++ k ∷ [])
Increasing-append_one [] k h b = (tt, tt)
Increasing-append_one (n ∷ ns) k h b =
    (All-append_one (λ m. n < m) ns k h.0 b.0, Increasing-append_one ns k h.1 b.1)

push_some-append : (o : Option ℕ) (ms ns : List ℕ) → push_some o (ms ++ ns) ≡ push_some o ms ++ ns
push_some-append none ms ns = refl
push_some-append (some n) ms ns = refl

ids-append : (xs ys : List Value) → ids (xs ++ ys) ≡ ids xs ++ ids ys
ids-append [] ys = refl
ids-append (x ∷ xs) ys =
    ap (push_some (id_of x)) (ids-append xs ys) ∙ push_some-append (id_of x) (ids xs) (ids ys)

All-weaken : (ns : List ℕ) (a b : ℕ) → a ≤ b → All (λ n. n < a) ns → All (λ n. n < b) ns
All-weaken [] a b le h = tt
All-weaken (n ∷ ns) a b le h = (omega arith, All-weaken ns a b le h.1)

greatest-none : (ns : List ℕ) (k : ℕ) → greatest ns ≡ none → All (λ n. n < k) ns
greatest-none [] k h = tt
greatest-none (n ∷ ns) k h = absurd (ground arith)

greatest-bound : (ns : List ℕ) (m : ℕ) → greatest ns ≡ some m → All (λ n. n < m + 1) ns
greatest-bound [] m h = tt
greatest-bound (n ∷ ns) m h = elim (Option-cases (greatest ns)) [
  | inl e ↦ (ground arith, greatest-none ns (m + 1) e)
  | inr (g, e) ↦
      (ground arith, All-weaken ns (g + 1) (m + 1) (ground arith) (greatest-bound ns g e))
]

greatest-lt : (ns : List ℕ) (m k : ℕ) → greatest ns ≡ some m → All (λ n. n < k) ns → m < k
greatest-lt [] m k h b = cc
greatest-lt (n ∷ ns) m k h b = elim (Option-cases (greatest ns)) [
  | inl e ↦ ground arith
  | inr (g, e) ↦ ground (arith, greatest-lt ns g k e b.1)
]

-- While no id is the largest of its 64 bits, the next id is above every id in use.
pub next_id-fresh :
    (es : List Value) → All (λ n. n < u64_mod - 1) (ids es) → All (λ n. n < next_id es) (ids es)
unfolding next_id
next_id-fresh es b = elim (Option-cases (greatest (ids es))) [
  | inl e ↦ greatest-none (ids es) _ e
  | inr (m, e) ↦
      let lt : m < u64_mod - 1 = greatest-lt (ids es) m _ e b in
      let wraps : (m + 1) % u64_mod ≡ m + 1 = omega arith in
      let q : m + 1 ≡ next_id es = ground arith in
      subst (λ k. All (λ n. n < k) (ids es)) q (greatest-bound (ids es) m e)
]

-- Ids that increase go on increasing when an entry is added and old ones are dropped.
pub Increasing-append :
    (es : List Value) (e : Value) {out : List Value}
    → id_of e ≡ some (next_id es)
    → All (λ n. n < u64_mod - 1) (ids es)
    → Increasing (ids es)
    → Thinned out (es ++ e ∷ [])
    → Increasing (ids out)
Increasing-append es e he b inc t =
    let q : ids (es ++ e ∷ []) ≡ ids es ++ next_id es ∷ [] = ids-append es (e ∷ []) ∙ rw he in
    Increasing-Thinned (Thinned-ids t)
      (rw q (Increasing-append_one (ids es) (next_id es) inc (next_id-fresh es b)))
