-- ===== src/Sync/Diff.antt =====
-- In which list of a `SyncDiff` a name is found.
use mcp_memory_rs.Common.{
  String, ◌≡◌, refl, ◌∙◌, ap, inl, inr, Bool, true, false, ◌&&◌, ◌||◌, not, Option, none, some,
  List, [], ◌∷◌, ◌==◌, eq_iff, map, is_some, arith, Bool-cases,
}
use mcp_memory_rs.Common.Map.{Map, find, put, keys, find-put}
use mcp_memory_rs.Acl.{member}
use mcp_memory_rs.Sync.{
  CategorySyncEntry, SyncManifest, SyncDiff, by_name, collected, diff_name, diff_names, with_names,
  all_names, compute_diff,
}

abbrev pub agree : Option CategorySyncEntry → Option CategorySyncEntry → Bool
agree (some a) (some b) = a.content_hash == b.content_hash
agree _ _ = false

abbrev pub differ : Option CategorySyncEntry → Option CategorySyncEntry → Bool
differ (some a) (some b) = not (a.content_hash == b.content_hash)
differ _ _ = false

-- Where a name belongs, by what the two sides have of it.
abbrev pub Sorted :
    Bool → Option CategorySyncEntry → Option CategorySyncEntry → SyncDiff → String → Type 0
Sorted among a b d n =
    (member d.to_push n ≡ (among && (is_some a && not (is_some b))))
    × (member (map (λ e. e.name) d.to_pull) n ≡ (among && (not (is_some a) && is_some b)))
    × (member d.unchanged n ≡ (among && agree a b))
    × (member (map (λ x. x.0) d.conflicts) n ≡ (among && differ a b))

Sorted-diff_name :
    (x n : String) (p : Bool) (d : SyncDiff) (a b a' b' : Option CategorySyncEntry)
    → (x ≡ n → (a ≡ a') × (b ≡ b'))
    → ((e : CategorySyncEntry) → b ≡ some e → e.name ≡ x)
    → Sorted p a' b' d n
    → Sorted ((x == n) || p) a' b' (diff_name x a b d) n
unfolding diff_name member
Sorted-diff_name x n p d none none a' b' same named (f, g, u, k) = (
  ground (arith, eq_iff x n),
  ground (arith, eq_iff x n),
  ground (arith, eq_iff x n),
  ground (arith, eq_iff x n),
)
Sorted-diff_name x n p d (some a) none a' b' same named (f, g, u, k) = (
  ground (arith, eq_iff x n),
  ground (arith, eq_iff x n),
  ground (arith, eq_iff x n),
  ground (arith, eq_iff x n),
)
Sorted-diff_name x n p d none (some b) a' b' same named (f, g, u, k) =
    let q : b.name ≡ x = named b refl in
    (
      ground (arith, eq_iff x n),
      ground (arith, eq_iff x n),
      ground (arith, eq_iff x n),
      ground (arith, eq_iff x n),
    )
Sorted-diff_name x n p d (some a) (some b) a' b' same named (f, g, u, k) = (
  ground (arith, eq_iff x n),
  ground (arith, eq_iff x n),
  ground (arith, eq_iff x n),
  ground (arith, eq_iff x n),
)

abbrev Named : Map CategorySyncEntry → Type 0
Named m = (k : String) (e : CategorySyncEntry) → find k m ≡ some e → e.name ≡ k

Named-collected :
    (m : Map CategorySyncEntry) (es : List CategorySyncEntry) → Named m → Named (collected m es)
Named-collected m [] h = h
Named-collected m (e ∷ es) h = Named-collected (put e.name e m) es (λ k x q.
    elim (Bool-cases (e.name == k)) [
      | inl t ↦
          let xe : x ≡ e = ground (arith, find-put k e.name e m) in
          ap (λ y. y.name) xe ∙ (eq_iff e.name k).0 t
      | inr t ↦ h k x (ground (arith, find-put k e.name e m))
    ])

Named-by_name : (es : List CategorySyncEntry) → Named (by_name es)
unfolding by_name find
Named-by_name es = Named-collected [] es (λ k e h. cc)

member-keys : {V : Type 0} (m : Map V) (n : String) → member (keys m) n ≡ is_some (find n m)
unfolding member keys find
member-keys [] n = refl
member-keys ((j, v) ∷ m) n = ground (arith, member-keys m n)

find-with_names :
    (ns : List String) (s : Map (Unit {0})) (n : String)
    → is_some (find n (with_names ns s)) ≡ (member ns n || is_some (find n s))
unfolding member
find-with_names [] s n = refl
find-with_names (x ∷ ns) s n = ground (arith, find-with_names ns (put x tt s) n, find-put n x tt s)

member-all_names :
    (here there : Map CategorySyncEntry) (n : String)
    → member (all_names here there) n ≡ (is_some (find n there) || is_some (find n here))
unfolding all_names find
member-all_names here there n = ground (
  arith,
  member-keys (with_names (keys there) (with_names (keys here) [])) n,
  find-with_names (keys there) (with_names (keys here) []) n,
  find-with_names (keys here) [] n,
  member-keys here n,
  member-keys there n,
)

Sorted-diff_names :
    (names : List String) (here there : Map CategorySyncEntry) (n : String)
    → Named there
    → Sorted (member names n) (find n here) (find n there) (diff_names names here there) n
unfolding diff_names member
Sorted-diff_names [] here there n h = (refl, refl, refl, refl)
Sorted-diff_names (x ∷ names) here there n h =
    Sorted-diff_name x n (member names n) (diff_names names here there) (find x here) (find x there)
      (find n here) (find n there) (λ e. (ap (λ y. find y here) e, ap (λ y. find y there) e)) (h x)
      (Sorted-diff_names names here there n h)

-- A name is in exactly one list: to push if only the local manifest has it, to pull if only the
-- remote one has it, unchanged if both have it with one hash, and a conflict if with two. It is in
-- none if neither has it.
pub compute_diff_lem :
    (local remote : SyncManifest) (n : String)
    → Sorted true
        (find n (by_name local.categories))
        (find n (by_name remote.categories))
        (compute_diff local remote)
        n
unfolding compute_diff
compute_diff_lem local remote n =
    let here = by_name local.categories in
    let there = by_name remote.categories in
    let (f, g, u, k) =
      Sorted-diff_names (all_names here there) here there n (Named-by_name remote.categories) in
    (
      ground (arith, member-all_names here there n),
      ground (arith, member-all_names here there n),
      ground (arith, member-all_names here there n),
      ground (arith, member-all_names here there n),
    )
