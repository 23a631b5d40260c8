-- ===== src/Snapshot/Copying.antt =====
-- The copies that `create` of src/store/snapshot.rs makes: the store they are taken of is not changed.
use mcp_memory_rs.Common.{
  String, ◌≡◌, refl, ◌∙◌, Bool, if◌then◌else◌, true, false, Option, some, List, [], ◌∷◌, All,
}
use Prim.Native.String.{compare}
use Prim.Native.Nat.{Ordering}
use mcp_memory_rs.Common.Map.{Map, put}
use mcp_memory_rs.Error.{io, other_io, ok, err}
use mcp_memory_rs.World.{Disk, World, access, reading, read_to_string}
use mcp_memory_rs.World.Ends.{Ends, Ends-mono, Ends-bind, Ends-pure}
use mcp_memory_rs.World.Accesses.{Ends-access, Ends-reading, Ends-read_to_string}
use mcp_memory_rs.AtomicJson.{json_path}
use mcp_memory_rs.AtomicJson.Names.{json_names}
use mcp_memory_rs.Snapshot.Verify.{Node, regular, not_regular}
use mcp_memory_rs.Snapshot.Restore.{copy_nodes}
use mcp_memory_rs.Snapshot.Create.{copy_files, Copied, copy_entries, copy_all_backups}

-- Reading keeps the disk.
abbrev pub Same : {A : Type 0} → Disk → A → Disk → Type 0
Same d0 _ d = d ≡ d0

pub Same-access : (w : World) → Ends (Same w.disk) (Same w.disk) (access (io other_io) (λ d. d) w)
Same-access w = Ends-mono (λ _ d h. h) (λ _ d h. h.0) (Ends-access (io other_io) (λ d. d) w)

abbrev IsRegular : Node → Type 0
IsRegular (regular _) = Unit {0}
IsRegular not_regular = ⊥

abbrev pub AllRegular : Map Node → Type 0
AllRegular files = All (λ (e : String × Node). IsRegular e.1) files

AllRegular-put :
    (k content : String) (files : Map Node)
    → AllRegular files
    → AllRegular (put k (regular content) files)
unfolding put
AllRegular-put k content [] a = (tt, tt)
AllRegular-put k content ((j, node) ∷ files) (here, a) =
    let later = AllRegular-put k content files a in
    elim (compare k j)
      as (λ x. AllRegular (elim x [
        | Ordering.lt ↦ (k, regular content) ∷ (j, node) ∷ files
        | Ordering.eq ↦ (k, regular content) ∷ files
        | Ordering.gt ↦ (j, node) ∷ put k (regular content) files
      ])) [ Ordering.lt ↦ (tt, (here, a)) | Ordering.eq ↦ (tt, a) | Ordering.gt ↦ (here, later) ]

pub copy_nodes-AllRegular : (files : Map Node) → AllRegular files → copy_nodes files ≡ some files
unfolding copy_nodes
copy_nodes-AllRegular [] a = refl
copy_nodes-AllRegular ((name, regular content) ∷ files) (here, a) =
    rw (copy_nodes-AllRegular files a) refl
copy_nodes-AllRegular ((name, not_regular) ∷ files) (here, a) = elim here [ ]

-- The disk is kept, and the copies are regular files as those before are.
abbrev Copies : Map Node → Disk → Map Node → Disk → Type 0
Copies copies d0 files d = (d ≡ d0) × (AllRegular copies → AllRegular files)

pub Ends-copy_files :
    (names : List String) (copies : Map Node) (d0 : Disk) (w : World)
    → w.disk ≡ d0
    → Ends (Copies copies d0) (Same d0) (copy_files names copies w)
unfolding copy_files
Ends-copy_files [] copies d0 w e = Ends-pure copies w (e, λ a. a)
Ends-copy_files (name ∷ names) copies d0 w e =
    Ends-bind (read_to_string (json_path name)) _ w
      (Ends-mono (λ _ d h. h.0 ∙ e) (λ _ d h. h.0 ∙ e) (Ends-read_to_string (json_path name) w))
      (λ content u h.
        Ends-bind (access (io other_io) (λ d. d)) _ u
          (Ends-mono (λ _ d k. k ∙ h) (λ _ d k. k ∙ h) (Same-access u))
          (λ _ v k.
            Ends-mono (λ _ d q. (q.0, λ a. q.1 (AllRegular-put (json_path name) content copies a)))
              (λ _ d q. q) (Ends-copy_files names _ d0 v k)))

Same-copy_entries :
    (hash : String → String) (entries : Map String) (out : Copied) (d0 : Disk) (w : World)
    → w.disk ≡ d0
    → Ends (Same d0) (Same d0) (copy_entries hash entries out w)
unfolding copy_entries
Same-copy_entries hash [] out d0 w e = Ends-pure out w e
Same-copy_entries hash ((name, content) ∷ entries) out d0 w e =
    Ends-bind (access (io other_io) (λ d. d)) _ w
      (Ends-mono (λ _ d k. k ∙ e) (λ _ d k. k ∙ e) (Same-access w))
      (λ _ v k. Same-copy_entries hash entries _ d0 v k)

pub Same-copy_all_backups :
    (hash : String → String) (b : Bool) (there : Option (Map Node)) (d0 : Disk) (w : World)
    → w.disk ≡ d0
    → Ends (Same d0) (Same d0) (copy_all_backups hash b there w)
unfolding copy_all_backups
Same-copy_all_backups hash false there d0 w e = Ends-pure _ w e
Same-copy_all_backups hash true there d0 w e =
    Ends-bind (reading (io other_io) (λ d. d.backups)) _ w
      (Ends-mono (λ _ d h. h.0 ∙ e) (λ _ d h. h ∙ e)
        (Ends-reading (io other_io) (λ d. d.backups) w))
      (λ backups u h.
        Ends-bind (copy_entries hash backups _) _ u (Same-copy_entries hash backups _ d0 u h)
          (λ out v k. Ends-pure _ v k))

Same-listed :
    (b : Bool) (names : List String) (w : World)
    → Ends (Same w.disk) (Same w.disk) (if b then (err (io other_io), w) else (ok names, w))
Same-listed true names w = record { holds = refl }
Same-listed false names w = record { holds = refl }

pub Same-json_names : (w : World) → Ends (Same w.disk) (Same w.disk) (json_names w)
unfolding json_names
Same-json_names w = Same-listed w.unlisted _ w
