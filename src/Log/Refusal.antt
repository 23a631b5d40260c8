-- ===== src/Log/Refusal.antt =====
-- When an append to a log is refused.
use mcp_memory_rs.Common.{
  String, ◌≡◌, ◌↔◌, refl, ◌∙◌, sym, true, false, Option, none, some, List, arith, Bool-cases, inl,
  inr, subst,
}
use mcp_memory_rs.Common.Instant.{Chrono}
use mcp_memory_rs.Json.{Value, object}
use mcp_memory_rs.Log.{Retention, refused, LogError, not_a_log, is_log, append_entry, fresh_log}
use mcp_memory_rs.Log.Shape.{is_log-LogShape}
use mcp_memory_rs.Log.Append.{
  append_entry-object, append_entry-not_log, append_entry-none, fresh_log-is_log, finished,
}

module _ (chrono : Chrono) (payload : Value) (r : Retention) (now : String) where
  finished-ne-refused :
      (v : Value) (o : Option (List Value)) (e : LogError) → finished v r o ≡ refused e → ⊥
  finished-ne-refused v none e h = cc
  finished-ne-refused v (some kept) e h = cc

  log-ne-refused :
      (v : Value) (e : LogError)
      → is_log v ≡ true
      → append_entry chrono (some v) payload r now ≡ refused e
      → ⊥
  log-ne-refused v e l h =
      let sh = is_log-LogShape v l in
      let lo : is_log (object sh.fields) ≡ true = rw sh.is_object at l in
      let ho : append_entry chrono (some (object sh.fields)) payload r now ≡ refused e =
        subst (λ u. append_entry chrono (some u) payload r now ≡ refused e) sh.is_object h in
      finished-ne-refused _ _ e
        (sym (append_entry-object chrono payload r now sh.fields sh.entries lo sh.has_entries) ∙ ho)

  -- An append is refused exactly if the category holds a value that is no log, and always with
  -- `NotALog`: the error `MalformedLog` is never returned.
  pub append_entry-refused_iff :
      (existing : Option Value) (e : LogError)
      → (append_entry chrono existing payload r now ≡ refused e)
        ↔ ((e ≡ not_a_log) × (v : Value) × (existing ≡ some v) × (is_log v ≡ false))
  append_entry-refused_iff none e = (
    λ h. absurd (
        log-ne-refused (fresh_log r) e (fresh_log-is_log chrono payload r now)
          (sym (append_entry-none chrono payload r now) ∙ h)),
    λ (_, v, q, _). cc,
  )
  append_entry-refused_iff (some v) e = elim (Bool-cases (is_log v)) [
    | inl l ↦ (λ h. absurd (log-ne-refused v e l h), λ (_, w, q, n). absurd (ground arith))
    | inr n ↦
        let q : append_entry chrono (some v) payload r now ≡ refused not_a_log =
          append_entry-not_log chrono payload r now v n in
        (λ h. (cc, v, refl, n), λ (p, _, _, _). cc)
  ]
