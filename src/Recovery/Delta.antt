-- ===== src/Recovery/Delta.antt =====
-- `semantic_delta` of src/store/recovery.rs: what the file of a category changes against the version that the
-- database knows.
use Prim.Native.Nat.{compare, Ordering}
use mcp_memory_rs.Common.{
  ℕ, String, Bool, true, false, ◌&&◌, ◌||◌, ◌^◌, not, Option, none, some, List, [], ◌∷◌, ◌==◌,
  nat_eq, ltb, if◌then◌else◌, unwrap_or, and_then, length, keep, any, every, filter_map, is_some,
}
use mcp_memory_rs.Json.{
  Number, pos_int, neg_int, float, Value, null, boolean, number, text, array, object, Items, nil,
  cons, Fields, end, field, lookup, get, as_u64, as_array,
}
use mcp_memory_rs.Log.{entries_key, is_log}

pub data Delta : Type 0 where
  log : List ℕ → List ℕ → List ℕ → List ℕ → ℕ → ℕ → Bool → Delta
  map : List String → List String → List String → Delta
  formatting_only : Delta
  other : Delta

-- `==` on values
abbrev pub bool_eq : Bool → Bool → Bool
bool_eq true b = b
bool_eq false b = not b

-- The bits of the two zeros differ.
abbrev is_zero : ℕ → Bool
is_zero n = nat_eq n 0 || nat_eq n (2 ^ 63)

unfoldable pub number_eq : Number → Number → Bool
number_eq (pos_int a) (pos_int b) = nat_eq a b
number_eq (neg_int a) (neg_int b) = nat_eq a b
number_eq (float a) (float b) = nat_eq a b || is_zero a && is_zero b
number_eq _ _ = false

unfoldable mutual
  pub value_eq : Value → Value → Bool
  value_eq null null = true
  value_eq (boolean a) (boolean b) = bool_eq a b
  value_eq (number a) (number b) = number_eq a b
  value_eq (text a) (text b) = a == b
  value_eq (array a) (array b) = items_eq a b
  value_eq (object a) (object b) = fields_eq a b
  value_eq _ _ = false

  pub items_eq : Items → Items → Bool
  items_eq nil nil = true
  items_eq (cons a as1) (cons b bs) = value_eq a b && items_eq as1 bs
  items_eq _ _ = false

  pub fields_eq : Fields → Fields → Bool
  fields_eq end end = true
  fields_eq (field k a m) (field j b n) = k == j && value_eq a b && fields_eq m n
  fields_eq _ _ = false

abbrev pub opt_value_eq : Option Value → Option Value → Bool
opt_value_eq none none = true
opt_value_eq (some a) (some b) = value_eq a b
opt_value_eq _ _ = false

-- `BTreeSet<u64>`: the ids in order, each once.
unfoldable pub put_id : ℕ → List ℕ → List ℕ
put_id n [] = n ∷ []
put_id n (m ∷ s) =
    let later = put_id n s in
    elim (compare n m) [ Ordering.lt ↦ n ∷ m ∷ s | Ordering.eq ↦ m ∷ s | Ordering.gt ↦ m ∷ later ]

unfoldable pub id_set : List ℕ → List ℕ
id_set [] = []
id_set (n ∷ ns) = put_id n (id_set ns)

abbrev pub has_id : ℕ → List ℕ → Bool
has_id n s = any (λ m. nat_eq m n) s

abbrev pub has_key : String → List String → Bool
has_key k s = any (λ j. j == k) s

abbrev pub id_of : Value → Option ℕ
id_of e = and_then (get e "id") as_u64

abbrev pub entries_of : Value → List Value
entries_of v = unwrap_or (and_then (get v entries_key) as_array) []

abbrev pub entry_ids : Value → List ℕ
entry_ids v = filter_map id_of (entries_of v)

-- The ids that come again in the file.
unfoldable pub duplicates : List ℕ → List ℕ → List ℕ
duplicates seen [] = []
duplicates seen (n ∷ ns) =
    let again = n ∷ duplicates seen ns in
    let fresh = duplicates (n ∷ seen) ns in if has_id n seen then again else fresh

abbrev same_id : Option ℕ → ℕ → Bool
same_id none n = false
same_id (some m) n = nat_eq m n

-- `by_id`: of several entries with an id the last one counts.
unfoldable pub by_id : List Value → ℕ → Option Value
by_id [] n = none
by_id (e ∷ es) n =
    let later = by_id es n in
    if is_some later then later else if same_id (id_of e) n then some e else none

-- `windows(2).all(|w| w[0] < w[1])`
unfoldable pub increasing : List ℕ → Bool
increasing [] = true
increasing (n ∷ []) = true
increasing (n ∷ m ∷ ns) = ltb n m && increasing (m ∷ ns)

abbrev pub log_valid : Option (List Value) → List ℕ → Bool
log_valid none ns = false
log_valid (some es) ns = every (λ e. is_some (id_of e)) es && increasing ns

unfoldable pub log_delta : Value → Value → Delta
unfolding by_id duplicates increasing id_set
log_delta db file =
    let db_set = id_set (entry_ids db) in
    let file_set = id_set (entry_ids file) in
    log (keep (λ n. not (has_id n db_set)) file_set) (keep (λ n. not (has_id n file_set)) db_set)
      (duplicates [] (entry_ids file))
      (keep (λ n. not (opt_value_eq (by_id (entries_of db) n) (by_id (entries_of file) n)))
        (keep (λ n. has_id n file_set) db_set))
      (length (entry_ids db)) (length (entry_ids file))
      (log_valid (and_then (get file entries_key) as_array) (entry_ids file))

unfoldable pub field_keys : Fields → List String
field_keys end = []
field_keys (field k v m) = k ∷ field_keys m

unfoldable pub map_delta : Fields → Fields → Delta
unfolding field_keys
map_delta d f =
    map (keep (λ k. not (has_key k (field_keys d))) (field_keys f))
      (keep (λ k. not (has_key k (field_keys f))) (field_keys d))
      (keep (λ k. not (opt_value_eq (lookup k d) (lookup k f)))
        (keep (λ k. has_key k (field_keys f)) (field_keys d)))

-- The match on the two values, once they differ.
unfoldable pub shape_delta : Value → Value → Delta
unfolding log_delta map_delta
shape_delta (object d) (object f) =
    if is_log (object d) && is_log (object f)
    then log_delta (object d) (object f)
    else map_delta d f
shape_delta _ _ = other

unfoldable pub semantic_delta : Value → Value → Delta
unfolding shape_delta
semantic_delta db file = if value_eq db file then formatting_only else shape_delta db file
