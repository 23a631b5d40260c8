-- ===== src/Recovery/Kept.antt =====
-- `semantic_delta` of src/store/recovery.rs against a description of the difference, id by id and key by key.
use mcp_memory_rs.Common.{
  ℕ, String, ◌≡◌, refl, ◌∙◌, ap, Bool, Bool-cases, inl, inr, true, false, ◌&&◌, ◌||◌, not, List, [],
  ◌∷◌, ◌==◌, eq_iff, nat_eq, nat_eq_iff, keep, arith, if◌then◌else◌, is_some,
}
use mcp_memory_rs.Json.{
  Value, null, boolean, number, text, array, object, Fields, end, field, lookup, get,
}
use mcp_memory_rs.Log.{is_log}
use mcp_memory_rs.Recovery.Delta.{
  Delta, log, map, formatting_only, other, value_eq, opt_value_eq, put_id, id_set, has_id, has_key,
  entry_ids, entries_of, by_id, log_delta, field_keys, map_delta, shape_delta, semantic_delta,
}

has_id-put_id : (n m : ℕ) (s : List ℕ) → has_id n (put_id m s) ≡ (nat_eq m n || has_id n s)
unfolding put_id
has_id-put_id n m [] = refl
has_id-put_id n m (k ∷ s) = ground (arith, has_id-put_id n m s)

has_id-id_set : (n : ℕ) (ns : List ℕ) → has_id n (id_set ns) ≡ has_id n ns
unfolding id_set
has_id-id_set n [] = refl
has_id-id_set n (m ∷ ns) =
    has_id-put_id n m (id_set ns) ∙ ap (λ b. nat_eq m n || b) (has_id-id_set n ns)

has_id-keep : (n : ℕ) (p : ℕ → Bool) (s : List ℕ) → has_id n (keep p s) ≡ (has_id n s && p n)
has_id-keep n p [] = refl
has_id-keep n p (m ∷ s) = elim (Bool-cases (nat_eq m n)) [
  | inl e ↦ ground (arith, ap p ((nat_eq_iff m n).0 e), has_id-keep n p s)
  | inr e ↦ ground (arith, has_id-keep n p s)
]

has_key-keep :
    (k : String) (p : String → Bool) (s : List String) → has_key k (keep p s) ≡ (has_key k s && p k)
has_key-keep k p [] = refl
has_key-keep k p (j ∷ s) = elim (Bool-cases (j == k)) [
  | inl e ↦ ground (arith, ap p ((eq_iff j k).0 e), has_key-keep k p s)
  | inr e ↦ ground (arith, has_key-keep k p s)
]

has_key-field_keys : (k : String) (m : Fields) → has_key k (field_keys m) ≡ is_some (lookup k m)
unfolding field_keys lookup
has_key-field_keys k end = refl
has_key-field_keys k (field j v m) = ground (arith, has_key-field_keys k m)

abbrev pub both_objects : Value → Value → Bool
both_objects (object _) (object _) = true
both_objects _ _ = false

-- The entries of a log by id, that are new, gone and changed.
abbrev pub OfLogs : Value → Value → List ℕ → List ℕ → List ℕ → Type 0
OfLogs db file added missing changed =
    (n : ℕ)
    → (has_id n added ≡ (has_id n (entry_ids file) && not (has_id n (entry_ids db))))
      × (has_id n missing ≡ (has_id n (entry_ids db) && not (has_id n (entry_ids file))))
      × (has_id n changed ≡ (
          has_id n (entry_ids db)
          && has_id n (entry_ids file)
          && not (opt_value_eq (by_id (entries_of db) n) (by_id (entries_of file) n))))

-- The keys of an object that are new, gone and changed.
abbrev pub OfObjects : Value → Value → List String → List String → List String → Type 0
OfObjects db file added removed changed =
    (k : String)
    → (has_key k added ≡ (is_some (get file k) && not (is_some (get db k))))
      × (has_key k removed ≡ (is_some (get db k) && not (is_some (get file k))))
      × (has_key k changed ≡ (
          is_some (get db k) && is_some (get file k) && not (opt_value_eq (get db k) (get file k))))

abbrev pub Describes : Value → Value → Delta → Type 0
Describes db file (log added missing duplicate changed in_db in_file valid) =
    (value_eq db file ≡ false)
    × (is_log db && is_log file ≡ true)
    × OfLogs db file added missing changed
Describes db file (map added removed changed) =
    (value_eq db file ≡ false)
    × (is_log db && is_log file ≡ false)
    × OfObjects db file added removed changed
Describes db file formatting_only = value_eq db file ≡ true
Describes db file other = (value_eq db file ≡ false) × (both_objects db file ≡ false)

Describes-log_delta :
    (db file : Value)
    → value_eq db file ≡ false
    → is_log db && is_log file ≡ true
    → Describes db file (log_delta db file)
unfolding log_delta
Describes-log_delta db file ne e = (
  ne,
  e,
  λ n. (
    has_id-keep n (λ n. not (has_id n (id_set (entry_ids db)))) (id_set (entry_ids file))
        ∙ rw (has_id-id_set n (entry_ids db), has_id-id_set n (entry_ids file)) refl,
    has_id-keep n (λ n. not (has_id n (id_set (entry_ids file)))) (id_set (entry_ids db))
        ∙ rw (has_id-id_set n (entry_ids db), has_id-id_set n (entry_ids file)) refl,
    has_id-keep n _ (keep (λ n. has_id n (id_set (entry_ids file))) (id_set (entry_ids db)))
        ∙ rw
            (
              has_id-keep n (λ n. has_id n (id_set (entry_ids file))) (id_set (entry_ids db)),
              has_id-id_set n (entry_ids db),
              has_id-id_set n (entry_ids file),
            )
            refl,
  ),
)

OfObjects-keys :
    (d f : Fields)
    → OfObjects
        (object d)
        (object f)
        (keep (λ k. not (has_key k (field_keys d))) (field_keys f))
        (keep (λ k. not (has_key k (field_keys f))) (field_keys d))
        (keep
          (λ k. not (opt_value_eq (lookup k d) (lookup k f)))
          (keep (λ k. has_key k (field_keys f)) (field_keys d)))
unfolding get
OfObjects-keys d f k = (
  has_key-keep k (λ k. not (has_key k (field_keys d))) (field_keys f)
      ∙ rw (has_key-field_keys k d, has_key-field_keys k f) refl,
  has_key-keep k (λ k. not (has_key k (field_keys f))) (field_keys d)
      ∙ rw (has_key-field_keys k d, has_key-field_keys k f) refl,
  has_key-keep k _ (keep (λ k. has_key k (field_keys f)) (field_keys d))
      ∙ rw
          (
            has_key-keep k (λ k. has_key k (field_keys f)) (field_keys d),
            has_key-field_keys k d,
            has_key-field_keys k f,
          )
          refl,
)

Describes-objects :
    (d f : Fields) (b : Bool)
    → value_eq (object d) (object f) ≡ false
    → is_log (object d) && is_log (object f) ≡ b
    → Describes (object d) (object f) (if b then log_delta (object d) (object f) else map_delta d f)
unfolding map_delta
Describes-objects d f true ne e = Describes-log_delta (object d) (object f) ne e
Describes-objects d f false ne e = (ne, e, OfObjects-keys d f)

Describes-shape_delta :
    (db file : Value) → value_eq db file ≡ false → Describes db file (shape_delta db file)
unfolding shape_delta
Describes-shape_delta (object d) (object f) e = Describes-objects d f _ e refl
Describes-shape_delta (object d) null e = (e, refl)
Describes-shape_delta (object d) (boolean b) e = (e, refl)
Describes-shape_delta (object d) (number b) e = (e, refl)
Describes-shape_delta (object d) (text b) e = (e, refl)
Describes-shape_delta (object d) (array b) e = (e, refl)
Describes-shape_delta null f e = (e, refl)
Describes-shape_delta (boolean b) f e = (e, refl)
Describes-shape_delta (number b) f e = (e, refl)
Describes-shape_delta (text b) f e = (e, refl)
Describes-shape_delta (array b) f e = (e, refl)

-- The delta that a plan shows describes the two values. It says that only the formatting differs exactly
-- if the values are the same. Of two logs that differ, an id is added, missing or changed exactly if
-- the file alone has it, the version of the database alone has it, or both have it with entries that
-- differ; of two other objects the same holds of the keys; and it says no more only where the values
-- are not both objects.
pub semantic_delta_lem : (db file : Value) → Describes db file (semantic_delta db file)
unfolding semantic_delta
semantic_delta_lem db file = elim (Bool-cases (value_eq db file)) [
  | inl e ↦ rw e e
  | inr e ↦ rw e (Describes-shape_delta db file e)
]
