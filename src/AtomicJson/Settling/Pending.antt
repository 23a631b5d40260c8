-- ===== src/AtomicJson/Settling/Pending.antt =====
-- `has_pending` of src/store/atomic_json.rs, for a directory that can be listed.
use mcp_memory_rs.Common.{
  String, ◌≡◌, refl, Bool, true, false, not, ◌||◌, none, List, [], ◌∷◌, arith, inl, inr, keep,
  is_nil,
}
use mcp_memory_rs.Common.Among.{Among, Among-keep, Among-keys}
use mcp_memory_rs.Common.Map.{find, keys}
use mcp_memory_rs.Common.Text.{starts_with}
use mcp_memory_rs.Error.{ok}
use mcp_memory_rs.World.{World, files_with_prefix}
use mcp_memory_rs.AtomicJson.{
  staged_prefix, deleted_prefix, staged_files, deleted_files, has_pending,
}
use mcp_memory_rs.AtomicJson.Settling.{NoStaged, NoParked}

abbrev listed : String → World → List String
listed prefix w = keep (λ f. starts_with f prefix) (keys w.files)

files_with_prefix_lem :
    (prefix : String) (w : World)
    → w.unlisted ≡ false
    → files_with_prefix prefix w ≡ (ok (listed prefix w), w)
unfolding files_with_prefix
files_with_prefix_lem prefix w e = rw e refl

abbrev pub pending : String → World → Bool
pending n w =
    not (is_nil (listed (staged_prefix n) w)) || not (is_nil (listed (deleted_prefix n) w))

-- A listing that works says whether any file is pending.
pub has_pending_lem :
    (n : String) (w : World) → w.unlisted ≡ false → has_pending n w ≡ (ok (pending n w), w)
unfolding has_pending staged_files deleted_files
has_pending_lem n w e =
    rw (files_with_prefix_lem (staged_prefix n) w e, files_with_prefix_lem (deleted_prefix n) w e)

none-listed :
    (prefix : String) (w : World)
    → is_nil (listed prefix w) ≡ true
    → (p : String) → starts_with p prefix ≡ true
    → find p w.files ≡ none
none-listed prefix w e p s = elim (Among-keys p w.files) [
  | inl q ↦ q
  | inr m ↦ absurd (not_nil (listed prefix w) e (Among-keep (λ f. starts_with f prefix) p _ s m))
]
  where
    not_nil : (l : List String) → is_nil l ≡ true → Among p l → ⊥
    not_nil [] h m = elim m [ ]
    not_nil (x ∷ l) h m = cc

-- If none is, none is there.
pub nothing-pending :
    (n : String) (w : World) → pending n w ≡ false → NoStaged n w.disk × NoParked n w.disk
nothing-pending n w e = (
  none-listed (staged_prefix n) w (ground arith),
  none-listed (deleted_prefix n) w (ground arith),
)
