-- ===== src/Log/LostEntry.antt =====
-- The age cap of src/store/log.rs, a `u64` that is cast to `i64`.
use mcp_memory_rs.Common.{
  ℕ, ◌-◌, ◌^◌, ◌≤◌, String, ◌≡◌, refl, ◌∙◌, sym, ap, false, none, some, List, [], ◌∷◌, ◌++◌, arith,
  Option-cases, inl, inr, and_then,
}
use mcp_memory_rs.Common.Instant.{Chrono, IsLawful, as_i64, negsuc}
use mcp_memory_rs.Json.{Value, get, as_str, as_array, from_elements, elements}
use mcp_memory_rs.Log.{
  Retention, appended, new_entry, next_id, append_entry, prune_entries, fresh_log,
}
use mcp_memory_rs.Log.Append.{entries_of}
use mcp_memory_rs.Log.Kept.{entries-after, step}

module _ (chrono : Chrono) (lawful : IsLawful chrono) where
  prune_future :
      (x : Value) (now : String) (t : chrono.Instant) (days : ℕ) (out : List Value)
      → and_then (and_then (get x "ts") as_str) chrono.parse_rfc3339 ≡ some t
      → chrono.parse_rfc3339 now ≡ some t
      → 2 ^ 63 ≤ days
      → prune_entries chrono (x ∷ []) (record { max_entries = none; max_age_days = some days }) now
        ≡ some out
      → out ≡ []
  unfolding prune_entries
  prune_future x now t days out hx ht big h =
      elim (Option-cases (chrono.sub_days t (as_i64 days))) [
        | inl f ↦ absurd (ground arith)
        | inr (cutoff, f) ↦
            let wraps : as_i64 days ≡ negsuc (2 ^ 64 - 1 - days) = ground arith in
            let later : chrono.at_least t cutoff ≡ false =
              lawful.add_days_lt t cutoff (2 ^ 64 - 1 - days) (rw wraps at f) in
            ground arith
      ]

  -- If the age cap is 2^63 days or more, there is no cap on the count, the time of the append can
  -- be parsed, and the append of the first entry returns, which the calendar may prevent by a
  -- panic, then the log has no entry.
  pub append_entry-lost :
      (payload : Value) (now : String) (t : chrono.Instant) (days : ℕ) (v' : Value)
      → chrono.parse_rfc3339 now ≡ some t
      → 2 ^ 63 ≤ days
      → append_entry chrono none payload
          (record { max_entries = none; max_age_days = some days })
          now
        ≡ appended v'
      → entries_of v' ≡ []
  append_entry-lost payload now t days v' ht big h =
      let r : Retention = record { max_entries = none; max_age_days = some days } in
      let e : Value = new_entry (next_id (entries_of (fresh_log r))) now payload in
      let none_before : entries_of (fresh_log r) ≡ [] =
        unfold entries_of fresh_log get as_array from_elements elements in refl in
      entries-after chrono none payload r now v' h
      ∙ prune_future e now t days _ (unfold new_entry get in ht) ht big (
          ap (λ es. prune_entries chrono (es ++ e ∷ []) r now) (sym none_before)
          ∙ (step chrono none payload r now v' h).pruned_to)
