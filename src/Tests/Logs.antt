-- ===== src/Tests/Logs.antt =====
-- Appends to one log.
use mcp_memory_rs.Common.{
  ℕ, String, ◌≡◌, refl, ◌↔◌, none, some, List, [], ◌∷◌, ◌++◌, All, arith, false, ◌<◌, ◌-◌, ◌^◌, max,
  length, ◌≤◌, ◌||◌, if◌then◌else◌, is_some,
}
use mcp_memory_rs.Common.Thinned.{EndsIn, Thinned}
use mcp_memory_rs.Json.{
  Value, text, object, array, from_elements, end, field, get, set_field, as_array, elements,
}
use mcp_memory_rs.Log.{
  Retention, not_a_log, appended, refused, new_entry, next_id, retention_to_json, append_entry,
  u64_mod, kind_key, log_kind, retention_key, entries_key, stored_retention, is_log, prune_entries,
  fresh_log,
}
use mcp_memory_rs.Log.Append.{entries_of}
use mcp_memory_rs.Log.Ids.{ids, Increasing}
use mcp_memory_rs.Log.Kept.{
  append_entry-entries, append_entry-Increasing, append_entry-EndsIn, stored_retention-append_entry,
}
use mcp_memory_rs.Log.Refusal.{append_entry-refused_iff}
use mcp_memory_rs.Log.LostEntry.{append_entry-lost}
use mcp_memory_rs.Tests.Fixtures.{days, days-IsLawful}

abbrev cap : Retention
cap = record { max_entries = some 1; max_age_days = some 2 }

abbrev entry : ℕ → String → Value
entry n s = new_entry n "1234" (text s)

abbrev log_of : List Value → Value
log_of es = object (
    field kind_key (text log_kind) (
      field retention_key (retention_to_json cap)
        (field entries_key (array (from_elements es)) end)))

abbrev before : Value
before = log_of (entry 3 "a" ∷ [])

abbrev later : Value
later = log_of (entry 4 "b" ∷ [])

step_ran : append_entry days (some before) (text "b") cap "1234" ≡ appended later
unfolding append_entry prune_entries new_entry next_id retention_to_json from_elements set_field
    elements is_log as_array
step_ran = refl

one_before : entries_of before ≡ entry 3 "a" ∷ []
unfolding entries_of from_elements elements get as_array
one_before = refl

append_entry-entries_example :
    Thinned
      (entries_of later)
      (entries_of before ++ new_entry (next_id (entries_of before)) "1234" (text "b") ∷ [])
    × ((m : ℕ) → cap.max_entries ≡ some m → length (entries_of later) ≤ max m 1)
append_entry-entries_example =
    append_entry-entries days (some before) (text "b") cap "1234" later step_ran

before_increases : Increasing (ids (entries_of before))
unfolding entries_of from_elements elements get as_array new_entry
before_increases = (tt, tt)

before_below : All (λ n. n < u64_mod - 1) (ids (entries_of before))
unfolding entries_of from_elements elements get as_array new_entry
before_below = (omega arith, tt)

append_entry-Increasing_example : Increasing (ids (entries_of later))
append_entry-Increasing_example =
    append_entry-Increasing days (some before) (text "b") cap "1234" later step_ran before_increases
      before_below

cap_is_small : (d : ℕ) → cap.max_age_days ≡ some d → d < 2 ^ 63
cap_is_small d h = ground arith

append_entry-EndsIn_example :
    EndsIn (new_entry (next_id (entries_of before)) "1234" (text "b")) (entries_of later)
append_entry-EndsIn_example =
    append_entry-EndsIn days (some before) (text "b") cap "1234" later step_ran days-IsLawful
      cap_is_small

stored_retention-append_entry_example :
    stored_retention later
    ≡ (if is_some cap.max_entries || is_some cap.max_age_days then some cap else none)
stored_retention-append_entry_example =
    stored_retention-append_entry days (some before) (text "b") cap "1234" later step_ran

append_entry-refused_iff_example :
    (append_entry days (some (text "x")) (text "b") cap "1234" ≡ refused not_a_log)
    ↔ ((not_a_log ≡ not_a_log) × (v : Value) × (some (text "x") ≡ some v) × (is_log v ≡ false))
append_entry-refused_iff_example =
    append_entry-refused_iff days (text "b") cap "1234" (some (text "x")) not_a_log

abbrev huge : Retention
huge = record { max_entries = none; max_age_days = some (2 ^ 64 - 1) }

abbrev emptied : Value
emptied = object (
    field kind_key (text log_kind) (
      field retention_key (retention_to_json huge)
        (field entries_key (array (from_elements [])) end)))

lost_ran : append_entry days none (text "b") huge "1234" ≡ appended emptied
unfolding append_entry prune_entries new_entry next_id retention_to_json from_elements set_field
    elements is_log as_array fresh_log
lost_ran = refl

append_entry-lost_example : entries_of emptied ≡ []
append_entry-lost_example =
    append_entry-lost days days-IsLawful (text "b") "1234" 4 (2 ^ 64 - 1) emptied refl (omega arith)
      lost_ran
