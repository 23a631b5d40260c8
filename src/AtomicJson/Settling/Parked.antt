-- ===== src/AtomicJson/Settling/Parked.antt =====
-- `settle_deleted` of src/store/atomic_json.rs: a parked delete is put back or finished.
use mcp_memory_rs.Common.{
  String, ◌+◌, ◌≡◌, refl, ◌∙◌, ap, sym, subst, true, false, Option, none, some, List, [], ◌∷◌, All,
  inl, inr, is_some,
}
use mcp_memory_rs.Common.Map.{find, erase, find-erase_self}
use mcp_memory_rs.Common.Text.{dot_free}
use mcp_memory_rs.Db.{Tables, CategoryMeta, hash_of_row}
use mcp_memory_rs.World.{Exec, files_with_prefix, ◌>>=◌, Disk, World, moved, rename, attempt}
use mcp_memory_rs.World.Ends.{Ends, Ends-mono, Ends-bind, Ends-pure, Ends-assoc}
use mcp_memory_rs.World.Accesses.{Ends-rename}
use mcp_memory_rs.AtomicJson.{
  Settled, nothing_settled, json_path, deleted_prefix, deleted_files, settle_deleted_files,
  settle_deleted, finish_delete, or_missing,
}
use mcp_memory_rs.AtomicJson.Paths.{IsParked, is_parked}
use mcp_memory_rs.AtomicJson.Recoverable.{Healthy, Healthy-promoted, final_ne_parked}
use mcp_memory_rs.AtomicJson.Settling.Listing
use mcp_memory_rs.AtomicJson.Settling.Listing.{Ready-step, Ends-listed}
use mcp_memory_rs.AtomicJson.Settling.Finishing.{SameFiles, SameFiles-self, Ends-finish_delete}
use mcp_memory_rs.AtomicJson.Settling.{
  Ends-or_missing, Settling, Settling-touch, NoStaged, NoParked, NoStaged-promoted, committed,
  promoted_same, promoted_gone, promoted_keeps_none, removed_same, removed_keeps_none,
}

module _ (hash : String → String) (n : String) (dn : dot_free n ≡ true) (s0 : Tables) where
  abbrev Inv : Disk → Type 0
  Inv d = Settling hash s0 d × NoStaged n d

  abbrev After : String → Disk → Disk → Type 0
  After path d d' = Listing.After (deleted_prefix n) Inv path d d'

  abbrev Ready : List String → Disk → Type 0
  Ready paths d = Listing.Ready (deleted_prefix n) Inv paths d

  Settling-SameFiles :
      (d d' : Disk) → SameFiles d.files d d' → Settling hash s0 d → Settling hash s0 d'
  Settling-SameFiles d d' same g =
      Settling-touch hash n dn s0 d d' same.rows (λ p _. ap (find p) same.files_are)
        (λ h _ k. subst (Healthy hash n h) (sym same.files_are) k) g

  NoStaged-SameFiles : (d d' : Disk) → SameFiles d.files d d' → NoStaged n d → NoStaged n d'
  NoStaged-SameFiles d d' same clear p s = ap (find p) same.files_are ∙ clear p s

  missed-After :
      (path : String) (d d' : Disk)
      → Inv d
      → SameFiles d.files d d'
      → find path d.files ≡ none
      → After path d d'
  missed-After path d d' g same e = (
    (Settling-SameFiles d d' same g.0, NoStaged-SameFiles d d' same g.1),
    (ap (find path) same.files_are ∙ e, λ p _ z. ap (find p) same.files_are ∙ z),
  )

  restored-After :
      (path h b : String) (d d' : Disk)
      → IsParked n path
      → Inv d
      → committed n s0 ≡ some h
      → find path d.files ≡ some b
      → d' ≡ moved path (json_path n) b d
      → After path d d'
  restored-After path h b d d' k g q f eq = subst (After path d) (sym eq) (
    (
      Settling-touch hash n dn s0 d (moved path (json_path n) b d)
          (record { db = refl; saved = refl; unlisted = refl })
          (promoted_same n path b d (is_parked k))
          (λ h ch healthy.
            Healthy-promoted hash n h d.files path b (is_parked k) (healthy.parked_agree path b k f)
              healthy)
          g.0,
      NoStaged-promoted n path b d g.1,
    ),
    (
      promoted_gone n path b d (final_ne_parked n path k),
      λ p parked z. promoted_keeps_none n path b d p (final_ne_parked n p parked) z,
    ),
  )

  finished-After :
      (path : String) (d d' : Disk)
      → IsParked n path
      → Inv d
      → committed n s0 ≡ none
      → SameFiles (erase path d.files) d d'
      → After path d d'
  finished-After path d d' k g q same = (
    (
      Settling-touch hash n dn s0 d d' same.rows
          (λ p np. ap (find p) same.files_are ∙ removed_same n path d (is_parked k) p np)
          (λ h ch healthy. cc (q, ch)) g.0,
      λ p s. ap (find p) same.files_are ∙ removed_keeps_none path d p (g.1 p s),
    ),
    (
      ap (find path) same.files_are ∙ find-erase_self path d.files,
      λ p _ z. ap (find p) same.files_are ∙ removed_keeps_none path d p z,
    ),
  )

  -- The two bodies of the loop.
  abbrev restoring : String → Settled → Exec Settled
  restoring path out = do
    r ← attempt (rename path (json_path n))
    or_missing r (record out { restored = out.restored + 1 }) out

  abbrev finishing : String → String → Settled → Exec Settled
  finishing path time out = do
    r ← attempt (finish_delete path n time)
    or_missing r (record out { completed = out.completed + 1 }) out

  Ends-restore :
      (path h : String) (out : Settled) (w : World)
      → IsParked n path
      → Inv w.disk
      → committed n s0 ≡ some h
      → Ends (λ _ d. After path w.disk d) (λ _ d. Settling hash s0 d) (restoring path out w)
  Ends-restore path h out w k g q =
      Ends-or_missing (After path w.disk) (λ _ d. Settling hash s0 d) _ out
        (rename path (json_path n)) w
        (Ends-mono (λ _ d (b, f, eq). restored-After path h b w.disk d k g q f eq)
          (λ f d (e, miss). (
            subst (Settling hash s0) (sym e) g.0,
            λ m. missed-After path w.disk d g (SameFiles-self w.disk d e) (miss m),
          ))
          (Ends-rename path (json_path n) w))

  Ends-finish :
      (path time : String) (out : Settled) (w : World)
      → IsParked n path
      → Inv w.disk
      → committed n s0 ≡ none
      → Ends (λ _ d. After path w.disk d) (λ _ d. Settling hash s0 d) (finishing path time out w)
  Ends-finish path time out w k g q =
      Ends-or_missing (After path w.disk) (λ _ d. Settling hash s0 d) _ out
        (finish_delete path n time) w
        (Ends-mono (λ _ d same. finished-After path w.disk d k g q same)
          (λ f d (same, miss).
            (Settling-SameFiles w.disk d same g.0, λ m. missed-After path w.disk d g same (miss m)))
          (Ends-finish_delete path w.disk n time w (SameFiles-self w.disk w.disk refl)))

  Ends-settle_deleted_files :
      (paths : List String) (row : Option CategoryMeta) (time : String) (out : Settled) (w : World)
      → committed n s0 ≡ hash_of_row row
      → All (IsParked n) paths
      → Ready paths w.disk
      → Ends
          (λ _ d. Inv d × NoParked n d)
          (λ _ d. Settling hash s0 d)
          (settle_deleted_files paths n (is_some row) time out w)
  unfolding settle_deleted_files
  Ends-settle_deleted_files [] row time out w q a (g, covered) =
      Ends-pure out w (g, λ p s. elim (covered p s) [ inl e ↦ e | inr m ↦ elim m [ ] ])
  Ends-settle_deleted_files (path ∷ paths) (some row) time out w q (k, a) ready =
      Ends-assoc (attempt (rename path (json_path n)))
        (λ r. or_missing r (record out { restored = out.restored + 1 }) out)
        (settle_deleted_files paths n true time) w
        (Ends-bind (restoring path out) _ w (Ends-restore path row.content_hash out w k ready.0 q)
          (λ next v after.
            Ends-settle_deleted_files paths (some row) time next v q a
              (Ready-step (deleted_prefix n) Inv path paths w.disk v.disk ready after)))
  Ends-settle_deleted_files (path ∷ paths) none time out w q (k, a) ready =
      Ends-assoc (attempt (finish_delete path n time))
        (λ r. or_missing r (record out { completed = out.completed + 1 }) out)
        (settle_deleted_files paths n false time) w
        (Ends-bind (finishing path time out) _ w (Ends-finish path time out w k ready.0 q)
          (λ next v after.
            Ends-settle_deleted_files paths none time next v q a
              (Ready-step (deleted_prefix n) Inv path paths w.disk v.disk ready after)))

  -- With the row that is committed, settling the parked deletes keeps the store recoverable whatever
  -- fails. Where it returns, no parked file is left, and no staged one if none was there.
  pub Ends-settle_deleted :
      (row : Option CategoryMeta) (time : String) (w : World)
      → committed n s0 ≡ hash_of_row row
      → Inv w.disk
      → Ends
          (λ _ d. Inv d × NoParked n d)
          (λ _ d. Settling hash s0 d)
          (settle_deleted n (is_some row) time w)
  unfolding settle_deleted deleted_files
  Ends-settle_deleted row time w q g =
      Ends-bind (files_with_prefix (deleted_prefix n)) _ w
        (Ends-mono (λ _ d h. h) (λ _ d h. h.0) (Ends-listed (deleted_prefix n) Inv w g))
        (λ paths u h. Ends-settle_deleted_files paths row time nothing_settled u q h.0 h.1)
