-- ===== src/AtomicJson/Names.antt =====
-- `pending_names` and `json_names` of src/store/atomic_json.rs: the categories that have a staged or a
-- parked file, and those that have a final one.
use text.Mathlib.TextLemmas.{append_assoc}
use mcp_memory_rs.Common.{
  String, ◌<>◌, ◌≡◌, refl, ◌∙◌, sym, ap, subst, inl, inr, true, false, ◌||◌, Option, none, some,
  List, [], ◌∷◌, if◌then◌else◌, or_else, is_nil, is_some, arith,
}
use mcp_memory_rs.Common.Among.{Among, Among-keys}
use mcp_memory_rs.Common.Map.{Map, find, put, keys, find-put, find-put_self}
use mcp_memory_rs.Common.Text.{
  starts_with, contains, strip_suffix, before_first, before_first-found,
}
use mcp_memory_rs.Error.{io, other_io, ok, err}
use mcp_memory_rs.World.{World, Exec}
use mcp_memory_rs.AtomicJson.{staged_mark, deleted_mark}
use mcp_memory_rs.AtomicJson.Paths.{IsStaged, IsParked, starts_with_split}

-- The name in front of the first mark of a file name.
unfoldable pub pending_name : String → Option String
pending_name file = or_else (before_first file staged_mark) (before_first file deleted_mark)

abbrev with_name : Option String → Map (Unit {0}) → Map (Unit {0})
with_name none s = s
with_name (some n) s = put n tt s

abbrev names_of : List String → Map (Unit {0})
names_of [] = []
names_of (f ∷ fs) = with_name (pending_name f) (names_of fs)

abbrev pub pending_in : Map String → List String
pending_in files = keys (names_of (keys files))

unfoldable pub pending_names : Exec (List String)
pending_names w = if w.unlisted then (err (io other_io), w) else (ok (pending_in w.files), w)

-- `json_names`: the categories that have a final file, in the order of the names.
unfoldable pub json_name : String → Option String
json_name file =
    if contains file staged_mark || contains file deleted_mark
    then none
    else strip_suffix file ".json"

abbrev final_names : List String → Map (Unit {0})
final_names [] = []
final_names (f ∷ fs) = with_name (json_name f) (final_names fs)

abbrev pub final_names_in : List String → List String
final_names_in files = keys (final_names files)

abbrev pub json_names_in : Map String → List String
json_names_in files = final_names_in (keys files)

unfoldable pub json_names : Exec (List String)
json_names w = if w.unlisted then (err (io other_io), w) else (ok (json_names_in w.files), w)

pub pending_names-listed :
    (w : World) → w.unlisted ≡ false → pending_names w ≡ (ok (pending_in w.files), w)
unfolding pending_names
pending_names-listed w e = rw e refl

nil-keys-put : {V : Type 0} (k : String) (v : V) (m : Map V) → is_nil (keys (put k v m)) ≡ false
unfolding keys put
nil-keys-put k v [] = refl
nil-keys-put k v ((j, w) ∷ m) = ground arith

names_of_pending :
    (p : String) (fs : List String)
    → is_some (pending_name p) ≡ true
    → Among p fs
    → is_nil (keys (names_of fs)) ≡ false
names_of_pending p [] h m = elim m [ ]
names_of_pending p (f ∷ fs) h (inl e) =
    go (pending_name f) (subst (λ q. is_some (pending_name q) ≡ true) e h)
  where
    go : (o : Option String) → is_some o ≡ true → is_nil (keys (with_name o (names_of fs))) ≡ false
    go none k = cc
    go (some n) k = nil-keys-put n tt (names_of fs)
names_of_pending p (f ∷ fs) h (inr m) = go (pending_name f) (names_of_pending p fs h m)
  where
    go :
        (o : Option String)
        → is_nil (keys (names_of fs)) ≡ false
        → is_nil (keys (with_name o (names_of fs))) ≡ false
    go none k = k
    go (some n) k = nil-keys-put n tt (names_of fs)

marked_split :
    (n mark p : String) → starts_with p (n <> mark) ≡ true → is_some (before_first p mark) ≡ true
marked_split n mark p s =
    let (r, e) = starts_with_split p (n <> mark) s in
    rw (e, append_assoc) (before_first-found n mark r)

pending_name-IsStaged : (n p : String) → IsStaged n p → is_some (pending_name p) ≡ true
unfolding pending_name
pending_name-IsStaged n p s = ground (arith, marked_split n staged_mark p s)

pending_name-IsParked : (n p : String) → IsParked n p → is_some (pending_name p) ≡ true
unfolding pending_name
pending_name-IsParked n p s = ground (arith, marked_split n deleted_mark p s)

-- Where no name is pending, no file is staged or parked.
pub none-pending :
    (files : Map String)
    → is_nil (pending_in files) ≡ true
    → ((n p : String) → IsStaged n p → find p files ≡ none)
      × ((n p : String) → IsParked n p → find p files ≡ none)
none-pending files e = (
  λ n p s. absent p (pending_name-IsStaged n p s),
  λ n p s. absent p (pending_name-IsParked n p s),
)
  where
    absent : (p : String) → is_some (pending_name p) ≡ true → find p files ≡ none
    absent p h = elim (Among-keys p files) [
      | inl q ↦ q
      | inr m ↦ absurd (cc (e, names_of_pending p (keys files) h m))
    ]

named_later :
    (n : String) (o : Option String) (s : Map (Unit {0}))
    → is_some (find n s) ≡ true
    → is_some (find n (with_name o s)) ≡ true
named_later n none s h = h
named_later n (some m) s h = ground (arith, find-put n m tt s)

named_final :
    (n p : String) (fs : List String)
    → json_name p ≡ some n
    → Among p fs
    → is_some (find n (final_names fs)) ≡ true
named_final n p [] e m = elim m [ ]
named_final n p (f ∷ fs) e (inl q) =
    rw (ap json_name (sym q) ∙ e) (ap is_some (find-put_self n tt (final_names fs)))
named_final n p (f ∷ fs) e (inr m) =
    named_later n (json_name f) (final_names fs) (named_final n p fs e m)

-- The final file of a category is named.
pub Among-json_names_in :
    (n p b : String) (files : Map String)
    → find p files ≡ some b
    → json_name p ≡ some n
    → Among n (json_names_in files)
Among-json_names_in n p b files f e = elim (Among-keys p files) [
  | inl q ↦ absurd (cc (q, f))
  | inr m ↦ elim (Among-keys n (final_names (keys files))) [
    | inl q ↦ absurd (cc (q, named_final n p (keys files) e m))
    | inr a ↦ a
  ]
]
