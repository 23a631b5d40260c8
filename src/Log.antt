-- ===== src/Log.antt =====
-- src/store/log.rs: the value of an append-only log category, as a pure function of the old value.
pub mod Shape
pub mod Retain
pub mod Ids
pub mod Append
pub mod Kept
pub mod LostEntry
pub mod Refusal
use mcp_memory_rs.Common.{
  ℕ, ◌+◌, ◌-◌, ◌%◌, ◌^◌, max, String, Bool, true, false, ◌&&◌, ◌||◌, Option, none, some, List, [],
  ◌∷◌, ◌++◌, ltb, if◌then◌else◌, is_text, and_then, length, drop, keep, filter_map, is_some,
}
use mcp_memory_rs.Common.Instant.{ℤ, pos, as_i64, Chrono}
use mcp_memory_rs.Json.{
  Value, null, number, pos_int, text, array, object, end, field, get, as_str, as_u64, as_array,
  is_array, set_field, from_elements, opt_u64,
}

abbrev pub kind_key : String
kind_key = "_kind"

abbrev pub log_kind : String
log_kind = "log"

abbrev pub retention_key : String
retention_key = "_retention"

abbrev pub entries_key : String
entries_key = "entries"

pub record Retention : Type 0 where
  pub max_entries : Option ℕ
  pub max_age_days : Option ℕ

abbrev pub default_retention : Retention
default_retention = record { max_entries = some 200; max_age_days = none }

pub data LogError : Type 0 where
  not_a_log malformed_log : LogError

-- What `append_entry` ends in: `Ok`, `Err`, or a panic of the date arithmetic.
pub data Appended : Type 0 where
  appended : Value → Appended
  refused : LogError → Appended
  panicked : Appended

unfoldable pub is_log : Value → Bool
unfolding get
is_log v =
    is_text (and_then (get v kind_key) as_str) log_kind
    && (elim (get v entries_key) [ none ↦ false | some e ↦ is_array e ])

unfoldable pub retention_to_json : Retention → Value
retention_to_json r = object (
    field "max_age_days" (opt_u64 r.max_age_days) (field "max_entries" (opt_u64 r.max_entries) end))

unfoldable pub stored_retention : Value → Option Retention
unfolding get
stored_retention v = elim (get v retention_key) [
  | none ↦ none
  | some r ↦
      let entries_cap = and_then (get r "max_entries") as_u64 in
      let age_cap = and_then (get r "max_age_days") as_u64 in
      if is_some entries_cap || is_some age_cap
      then some (record { max_entries = entries_cap; max_age_days = age_cap })
      else none
]

abbrev pub id_of : Value → Option ℕ
id_of e = and_then (get e "id") as_u64

-- `Iterator::max` over the ids.
abbrev pub greatest : List ℕ → Option ℕ
greatest [] = none
greatest (n ∷ ns) = elim (greatest ns) [ none ↦ some n | some m ↦ some (max n m) ]

abbrev pub u64_mod : ℕ
u64_mod = 2 ^ 64

-- `m + 1` on `u64`, which wraps in a release build.
unfoldable pub next_id : List Value → ℕ
unfolding get
next_id entries = elim (greatest (filter_map id_of entries)) [
  | none ↦ 0
  | some m ↦ (m + 1) % u64_mod
]

unfoldable pub new_entry : ℕ → String → Value → Value
new_entry id now payload =
    object (field "data" payload (field "id" (number (pos_int id)) (field "ts" (text now) end)))

unfoldable pub fresh_log : Retention → Value
unfolding retention_to_json
fresh_log r = object (
    field kind_key (text log_kind) (
      field retention_key (retention_to_json r) (field entries_key (array (from_elements [])) end)))

-- The cap on the count, which never drops the newest entry.
unfoldable pub prune_count : List Value → Option ℕ → List Value
prune_count entries none = entries
prune_count entries (some m) =
    let cap = max m 1 in
    if ltb cap (length entries) then drop (length entries - cap) entries else entries

module _ (chrono : Chrono) where
  open chrono use {Instant, parse_rfc3339, sub_days, at_least}

  -- The closure of `retain`.
  unfoldable pub is_recent : Instant → Value → Bool
  unfolding get
  is_recent cutoff e = elim (and_then (and_then (get e "ts") as_str) parse_rfc3339) [
    | some ts ↦ at_least ts cutoff
    | none ↦ true
  ]

  -- The cap on the age. `none` is a panic of `Duration::days` or of the subtraction.
  unfoldable pub prune_age : List Value → Option ℕ → String → Option (List Value)
  unfolding is_recent
  prune_age entries none now = some entries
  prune_age entries (some days) now = elim (parse_rfc3339 now) [
    | none ↦ some entries
    | some now_dt ↦ elim (sub_days now_dt (as_i64 days)) [
      | none ↦ none
      | some cutoff ↦ some (keep (is_recent cutoff) entries)
    ]
  ]

  unfoldable pub prune_entries : List Value → Retention → String → Option (List Value)
  unfolding prune_age prune_count
  prune_entries entries retention now = elim (prune_age entries retention.max_age_days now) [
    | none ↦ none
    | some recent ↦ some (prune_count recent retention.max_entries)
  ]

  -- The value that is extended: the old log, or a new one.
  extended : Option Value → Retention → Option Value
  extended none retention = some (fresh_log retention)
  extended (some v) retention = if is_log v then some v else none

  push : Value → Value → Retention → String → Appended
  push value payload retention now = elim (and_then (get value entries_key) as_array) [
    | none ↦ refused malformed_log
    | some entries ↦
        elim (prune_entries (entries ++ (new_entry (next_id entries) now payload ∷ [])) retention
          now) [
            | none ↦ panicked
            | some kept ↦ appended (set_field value entries_key (array (from_elements kept)))
          ]
  ]

  unfoldable pub append_entry : Option Value → Value → Retention → String → Appended
  unfolding extended push
  append_entry existing payload retention now = elim (extended existing retention) [
    | none ↦ refused not_a_log
    | some value ↦
        push (set_field value retention_key (retention_to_json retention)) payload retention now
  ]
