-- ===== src/Log/Kept.antt =====
-- What an append to a log keeps of it.
use mcp_memory_rs.Common.{
  ℕ, ◌-◌, ◌^◌, ◌<◌, ◌≤◌, max, String, ◌≡◌, ◌≢◌, refl, ◌||◌, true, Option, none, some, List, [], ◌∷◌,
  ◌++◌, arith, All, eq_iff, if◌then◌else◌, ◌==◌, length, is_some,
}
use mcp_memory_rs.Common.Instant.{Chrono, IsLawful}
use mcp_memory_rs.Common.Thinned.{Thinned, EndsIn}
use mcp_memory_rs.Json.{Value, object, array, Fields, Items, get, set_field, from_elements, insert}
use mcp_memory_rs.Json.Map.{lookup-insert}
use mcp_memory_rs.Json.Arrays.{as_array-from_elements}
use mcp_memory_rs.Log.{
  Retention, appended, is_log, stored_retention, retention_to_json, new_entry, next_id,
  append_entry, kind_key, retention_key, entries_key, u64_mod,
}
use mcp_memory_rs.Log.Retain.{Thinned-prune_entries, length-prune_entries, EndsIn-prune_entries}
use mcp_memory_rs.Log.Ids.{ids, Increasing, Increasing-append}
use mcp_memory_rs.Log.Append.{entries_of, stamped, base, AppendStep, AppendStep_of_appended}

-- The fields of the value that an append builds.
get-built :
    (m : Fields) (r : Retention) (kept : List Value) (k : String)
    → get (set_field (stamped (object m) r) entries_key (array (from_elements kept))) k ≡ (
        if entries_key == k
        then some (array (from_elements kept))
        else if retention_key == k
        then some (retention_to_json r)
        else get (object m) k)
unfolding set_field get
get-built m r kept k = ground (
  arith,
  lookup-insert k entries_key (array (from_elements kept))
      (insert retention_key (retention_to_json r) m),
  lookup-insert k retention_key (retention_to_json r) m,
)

is_log-carried :
    (v v' : Value) (es : Items)
    → get v' kind_key ≡ get v kind_key
    → get v' entries_key ≡ some (array es)
    → is_log v ≡ true
    → is_log v' ≡ true
unfolding is_log
is_log-carried v v' es k e h = ground arith

module _ (chrono : Chrono) (existing : Option Value) (payload : Value) (r : Retention)
    (now : String) (v' : Value) (h : append_entry chrono existing payload r now ≡ appended v') where
  abbrev pub old : Value
  old = base chrono payload r now existing

  pub step : AppendStep chrono payload r now old v'
  step = AppendStep_of_appended chrono payload r now existing v' h

  get-after :
      (k : String)
      → get v' k ≡ (
          if entries_key == k
          then some (array (from_elements step.kept))
          else if retention_key == k
          then some (retention_to_json r)
          else get old k)
  get-after k = ground (arith, step.result, step.is_object, get-built step.fields r step.kept k)

  pub entries-after : entries_of v' ≡ step.kept
  unfolding entries_of
  entries-after = ground (arith, get-after entries_key, as_array-from_elements step.kept)

  -- A successful append returns a log. All its fields but the entries and the retention are those
  -- of the old log (of a fresh one, if there was none).
  pub append_entry-is_log :
      (is_log v' ≡ true)
      × ((k : String) → k ≢ entries_key → k ≢ retention_key → get v' k ≡ get old k)
  append_entry-is_log = (
    is_log-carried old v' (from_elements step.kept) (get-after kind_key) (get-after entries_key)
        step.is_log_before,
    λ k ne nr. ground (arith, get-after k, eq_iff entries_key k, eq_iff retention_key k),
  )

  -- The entries after an append are old ones and the new one, in their order; with a cap on the
  -- count they are no more than the cap, or one if the cap is 0.
  pub append_entry-entries :
      Thinned
        (entries_of v')
        (entries_of old ++ new_entry (next_id (entries_of old)) now payload ∷ [])
      × ((m : ℕ) → r.max_entries ≡ some m → length (entries_of v') ≤ max m 1)
  append_entry-entries = rw entries-after (
    Thinned-prune_entries chrono _ _ r now step.pruned_to,
    λ m e. length-prune_entries chrono _ _ r m now e step.pruned_to,
  )

  -- If the ids of the old log increase and none is the largest of 64 bits, the ids of the new log
  -- increase.
  pub append_entry-Increasing :
      Increasing (ids (entries_of old))
      → All (λ n. n < u64_mod - 1) (ids (entries_of old))
      → Increasing (ids (entries_of v'))
  append_entry-Increasing inc bound =
      Increasing-append (entries_of old) (new_entry (next_id (entries_of old)) now payload)
        (unfold new_entry get in refl) bound inc append_entry-entries.0

  -- The newest entry stays, if the clock's text is a date and the age cap, if any, is below 2^63.
  pub append_entry-EndsIn :
      IsLawful chrono
      → ((d : ℕ) → r.max_age_days ≡ some d → d < 2 ^ 63)
      → EndsIn (new_entry (next_id (entries_of old)) now payload) (entries_of v')
  append_entry-EndsIn lawful small = rw entries-after (
      EndsIn-prune_entries chrono lawful (entries_of old) _ _ r now
        (λ t e. unfold new_entry get in e) small step.pruned_to)

  -- The retention that was given can be read back, unless it has no cap at all.
  pub stored_retention-append_entry :
      stored_retention v'
      ≡ (if is_some r.max_entries || is_some r.max_age_days then some r else none)
  unfolding stored_retention retention_to_json
  stored_retention-append_entry = ground (arith, get-after retention_key)
