-- ===== src/Log/Retain.antt =====
-- What retention keeps of the entries of a log.
use mcp_memory_rs.Common.{
  ℕ, ◌-◌, ◌≤◌, ◌<◌, ◌^◌, max, String, ◌≡◌, refl, true, Option, none, some, List, [], ◌∷◌, ◌++◌,
  arith, ltb, length, keep, Bool-cases, Option-cases, inl, inr, subst, and_then, length-append,
  length-drop,
}
use mathlib.Core.Option.{some-injective}
use mcp_memory_rs.Common.Thinned.{
  Thinned, Thinned-self, Thinned-drop, Thinned-keep, Thinned-trans, EndsIn, EndsIn-drop,
  EndsIn-keep,
}
use mcp_memory_rs.Common.Instant.{pos, as_i64, Chrono, IsLawful}
use mcp_memory_rs.Json.{Value, get, as_str}
use mcp_memory_rs.Log.{Retention, prune_count, prune_age, prune_entries, is_recent}

pub Thinned-prune_count : (es : List Value) (o : Option ℕ) → Thinned (prune_count es o) es
unfolding prune_count
Thinned-prune_count es none = Thinned-self es
Thinned-prune_count es (some m) = elim (Bool-cases (ltb (max m 1) (length es))) [
  | inl e ↦ rw e (Thinned-drop _ es)
  | inr e ↦ rw e (Thinned-self es)
]

pub length-prune_count : (es : List Value) (m : ℕ) → length (prune_count es (some m)) ≤ max m 1
unfolding prune_count
length-prune_count es m = ground (arith, length-drop (length es - max m 1) es)

EndsIn-prune_count :
    (init : List Value) (x : Value) (o : Option ℕ) → EndsIn x (prune_count (init ++ x ∷ []) o)
unfolding prune_count
EndsIn-prune_count init x none = (init, refl)
EndsIn-prune_count init x (some m) = elim (Bool-cases (ltb (max m 1) (length (init ++ x ∷ [])))) [
  | inl e ↦ rw e (EndsIn-drop _ init x (ground (arith, length-append init (x ∷ []))))
  | inr e ↦ rw e (init, refl)
]

module _ (chrono : Chrono) where
  Thinned-prune_age :
      (es out : List Value) (o : Option ℕ) (now : String)
      → prune_age chrono es o now ≡ some out
      → Thinned out es
  unfolding prune_age
  Thinned-prune_age es out none now h =
      subst (λ l. Thinned l es) (some-injective _ _ h) (Thinned-self es)
  Thinned-prune_age es out (some days) now h = elim (Option-cases (chrono.parse_rfc3339 now)) [
    | inl e ↦ let q : es ≡ out = ground arith in subst (λ l. Thinned l es) q (Thinned-self es)
    | inr (t, e) ↦ elim (Option-cases (chrono.sub_days t (as_i64 days))) [
      | inl f ↦ absurd (ground arith)
      | inr (cutoff, f) ↦
          let q : keep (is_recent chrono cutoff) es ≡ out = ground arith in
          subst (λ l. Thinned l es) q (Thinned-keep (is_recent chrono cutoff) es)
    ]
  ]

  -- Everything that retention keeps was there, in the same order.
  pub Thinned-prune_entries :
      (es out : List Value) (r : Retention) (now : String)
      → prune_entries chrono es r now ≡ some out
      → Thinned out es
  unfolding prune_entries
  Thinned-prune_entries es out r now h =
      elim (Option-cases (prune_age chrono es r.max_age_days now)) [
        | inl e ↦ absurd (ground arith)
        | inr (recent, e) ↦
            let q : prune_count recent r.max_entries ≡ out = ground arith in
            subst (λ l. Thinned l es) q
              (Thinned-trans (Thinned-prune_age es recent r.max_age_days now e)
                (Thinned-prune_count recent r.max_entries))
      ]

  pub length-prune_entries :
      (es out : List Value) (r : Retention) (m : ℕ) (now : String)
      → r.max_entries ≡ some m
      → prune_entries chrono es r now ≡ some out
      → length out ≤ max m 1
  unfolding prune_entries
  length-prune_entries es out r m now hm h =
      elim (Option-cases (prune_age chrono es r.max_age_days now)) [
        | inl e ↦ absurd (ground arith)
        | inr (recent, e) ↦
            let q : prune_count recent (some m) ≡ out = ground arith in
            subst (λ l. length l ≤ max m 1) q (length-prune_count recent m)
      ]

module _ (chrono : Chrono) (lawful : IsLawful chrono) where
  EndsIn-prune_age :
      (init out : List Value) (x : Value) (o : Option ℕ) (now : String)
      → ((t : chrono.Instant)
          → chrono.parse_rfc3339 now ≡ some t
          → and_then (and_then (get x "ts") as_str) chrono.parse_rfc3339 ≡ some t)
      → ((d : ℕ) → o ≡ some d → d < 2 ^ 63)
      → prune_age chrono (init ++ x ∷ []) o now ≡ some out
      → EndsIn x out
  unfolding prune_age
  EndsIn-prune_age init out x none now stamped small h = (init, ground arith)
  EndsIn-prune_age init out x (some days) now stamped small h =
      elim (Option-cases (chrono.parse_rfc3339 now)) [
        | inl e ↦ (init, ground arith)
        | inr (t, e) ↦ elim (Option-cases (chrono.sub_days t (as_i64 days))) [
          | inl f ↦ absurd (ground arith)
          | inr (cutoff, f) ↦
              let q : keep (is_recent chrono cutoff) (init ++ x ∷ []) ≡ out = ground arith in
              let days_pos : as_i64 days ≡ pos days = ground (arith, small days refl) in
              let g : chrono.at_least t cutoff ≡ true =
                lawful.sub_days_le t cutoff days (rw days_pos at f) in
              subst (EndsIn x) q (
                EndsIn-keep (is_recent chrono cutoff) init x
                  (unfold is_recent in rw (stamped t e, is_recent) g))
        ]
      ]

  -- The newest entry stays, if its stamp is the moment of the call and the age is below 2^63 days.
  pub EndsIn-prune_entries :
      (init out : List Value) (x : Value) (r : Retention) (now : String)
      → ((t : chrono.Instant)
          → chrono.parse_rfc3339 now ≡ some t
          → and_then (and_then (get x "ts") as_str) chrono.parse_rfc3339 ≡ some t)
      → ((d : ℕ) → r.max_age_days ≡ some d → d < 2 ^ 63)
      → prune_entries chrono (init ++ x ∷ []) r now ≡ some out
      → EndsIn x out
  unfolding prune_entries
  EndsIn-prune_entries init out x r now stamped small h =
      elim (Option-cases (prune_age chrono (init ++ x ∷ []) r.max_age_days now)) [
        | inl e ↦ absurd (ground arith)
        | inr (recent, e) ↦
            let (before, ends) =
              EndsIn-prune_age init recent x r.max_age_days now stamped small e in
            let q : prune_count (before ++ x ∷ []) r.max_entries ≡ out = ground arith in
            subst (EndsIn x) q (EndsIn-prune_count before x r.max_entries)
      ]
