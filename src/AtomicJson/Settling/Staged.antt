-- ===== src/AtomicJson/Settling/Staged.antt =====
-- `settle_staged` of src/store/atomic_json.rs: a staged file is promoted or discarded.
use mathlib.Core.Option.{some-injective}
use mcp_memory_rs.Common.{
  String, ◌≡◌, refl, ◌∙◌, ap, sym, subst, inl, inr, true, false, some, List, [], ◌∷◌, arith,
  Bool-cases, eq_iff, ◌+◌, is_text, is_text→eq, All,
}
use mcp_memory_rs.Common.Map.{find, find-erase_self}
use mcp_memory_rs.Common.Text.{dot_free}
use mcp_memory_rs.Error.{io, missing, other_io}
use mcp_memory_rs.Db.{Tables}
use mcp_memory_rs.World.{
  Disk, World, Attempt, got, threw, attempt, moved, removed, rename, remove_file, read_to_string,
  files_with_prefix,
}
use mcp_memory_rs.World.Ends.{
  Ends, Ends-mono, Ends-bind, Ends-pure, Ends-throw, Ends-caught, Attempted,
}
use mcp_memory_rs.World.Accesses.{Ends-rename, Ends-remove_file, Ends-read_to_string, Missed}
use mcp_memory_rs.AtomicJson.{
  Settled, nothing_settled, json_path, staged_prefix, staged_files, settle_read,
  settle_staged_files, settle_staged,
}
use mcp_memory_rs.AtomicJson.Paths.{IsStaged, is_staged}
use mcp_memory_rs.AtomicJson.Recoverable.{Healthy-promoted, Healthy-discarded, final_ne_staged}
use mcp_memory_rs.AtomicJson.Settling.Listing
use mcp_memory_rs.AtomicJson.Settling.Listing.{After-missed, Ready-step, Ends-listed}
use mcp_memory_rs.AtomicJson.Settling.{
  removed_same, removed_keeps_none, Ends-or_missing, Settling, Settling-touch, NoStaged, committed,
  promoted_same, promoted_gone, promoted_keeps_none,
}

module _ (hash : String → String) (n : String) (dn : dot_free n ≡ true) (s0 : Tables) where
  abbrev After : String → Disk → Disk → Type 0
  After path d d' = Listing.After (staged_prefix n) (Settling hash s0) path d d'

  abbrev Ready : List String → Disk → Type 0
  Ready paths d = Listing.Ready (staged_prefix n) (Settling hash s0) paths d

  promoted-After :
      (path c : String) (d : Disk)
      → IsStaged n path
      → Settling hash s0 d
      → find path d.files ≡ some c
      → committed n s0 ≡ some (hash c)
      → (d' : Disk)
      → (b : String) × (find path d.files ≡ some b) × (d' ≡ moved path (json_path n) b d)
      → After path d d'
  promoted-After path c d s g e q d' (b, f, eq) =
      let bc : b ≡ c = some-injective _ _ (sym f ∙ e) in
      subst (After path d) (sym eq) (
        Settling-touch hash n dn s0 d (moved path (json_path n) b d)
            (record { db = refl; saved = refl; unlisted = refl })
            (promoted_same n path b d (is_staged s))
            (λ h ch healthy.
              Healthy-promoted hash n h d.files path b (is_staged s)
                (ap hash bc ∙ some-injective _ _ (sym q ∙ ch)) healthy)
            g,
        (
          promoted_gone n path b d (final_ne_staged n path s),
          λ p k z. promoted_keeps_none n path b d p (final_ne_staged n p k) z,
        ),
      )

  removed-After :
      (path c : String) (d : Disk)
      → IsStaged n path
      → Settling hash s0 d
      → find path d.files ≡ some c
      → is_text (committed n s0) (hash c) ≡ false
      → (d' : Disk) → d' ≡ removed path d
      → After path d d'
  removed-After path c d s g e q d' eq = subst (After path d) (sym eq) (
    Settling-touch hash n dn s0 d (removed path d)
        (record { db = refl; saved = refl; unlisted = refl }) (removed_same n path d (is_staged s))
        (λ h ch healthy.
          Healthy-discarded hash n h d.files path c s e
            (λ hc. ground (arith, eq_iff (hash c) h, eq_iff h (hash c))) healthy)
        g,
    (find-erase_self path d.files, λ p k z. removed_keeps_none path d p z),
  )

  -- One staged file.
  Ends-settle_read :
      (path : String) (r : Attempt String) (out : Settled) (w : World)
      → IsStaged n path
      → Settling hash s0 w.disk
      → Attempted (λ c d. find path d.files ≡ some c) (λ f d. Missed path d f) r w.disk
      → Ends
          (λ _ d'. After path w.disk d')
          (λ _ d'. Settling hash s0 d')
          (settle_read hash r path n (committed n s0) out w)
  unfolding settle_read
  Ends-settle_read path (got c) out w s g e =
      elim (Bool-cases (is_text (committed n s0) (hash c))) [
        | inl q ↦ rw q (
            Ends-or_missing (After path w.disk) (λ _ d. Settling hash s0 d)
              (record out { promoted = out.promoted + 1 }) out (rename path (json_path n)) w
              (Ends-mono
                (λ _ d h.
                  promoted-After path c w.disk s g e (is_text→eq (committed n s0) (hash c) q) d h)
                (λ f d h. (
                  subst (Settling hash s0) (sym h.0) g,
                  λ miss.
                      After-missed (staged_prefix n) (Settling hash s0) path w.disk g (h.1 miss) d
                        h.0,
                ))
                (Ends-rename path (json_path n) w)))
        | inr q ↦ rw q (
            Ends-or_missing (After path w.disk) (λ _ d. Settling hash s0 d)
              (record out { discarded = out.discarded + 1 }) out (remove_file path) w
              (Ends-mono (λ _ d h. removed-After path c w.disk s g e q d h)
                (λ f d h. (
                  subst (Settling hash s0) (sym h.0) g,
                  λ miss.
                      After-missed (staged_prefix n) (Settling hash s0) path w.disk g (h.1 miss) d
                        h.0,
                ))
                (Ends-remove_file path w)))
      ]
  Ends-settle_read path (threw (io missing)) out w s g e = Ends-pure out w (g, (e refl, λ p _ z. z))
  Ends-settle_read path (threw (io other_io)) out w s g e = Ends-throw _ w g
  Ends-settle_read path (threw x) out w s g e = Ends-throw _ w g

  split_read :
      (path : String) (paths : List String) (r : Attempt String) (d : Disk)
      → Attempted
          (λ c d. Ready paths d × (find path d.files ≡ some c))
          (λ f d. Ready paths d × Missed path d f)
          r
          d
      → Ready paths d × Attempted (λ c d. find path d.files ≡ some c) (λ f d. Missed path d f) r d
  split_read path paths (got c) d h = h
  split_read path paths (threw e) d h = h

  Ends-settle_staged_files :
      (paths : List String) (out : Settled) (w : World)
      → All (IsStaged n) paths
      → Ready paths w.disk
      → Ends
          (λ _ d. Settling hash s0 d × NoStaged n d)
          (λ _ d. Settling hash s0 d)
          (settle_staged_files hash paths n (committed n s0) out w)
  unfolding settle_staged_files
  Ends-settle_staged_files [] out w a (g, covered) =
      Ends-pure out w (g, λ p s. elim (covered p s) [ inl e ↦ e | inr m ↦ elim m [ ] ])
  Ends-settle_staged_files (path ∷ paths) out w (s, a) ready =
      Ends-bind
        {Q = λ r d.
          Ready (path ∷ paths) d
          × Attempted (λ c d. find path d.files ≡ some c) (λ f d. Missed path d f) r d}
        (attempt (read_to_string path)) _ w
        (Ends-mono (λ r d h. split_read path (path ∷ paths) r d h) (λ _ d h. h)
          (Ends-caught (λ c d. Ready (path ∷ paths) d × (find path d.files ≡ some c))
            (λ f d. Ready (path ∷ paths) d × Missed path d f) (λ _ d. Settling hash s0 d)
            (read_to_string path) w
            (Ends-mono
              (λ c d h.
                subst (λ x. Ready (path ∷ paths) x × (find path x.files ≡ some c)) (sym h.0)
                  (ready, h.1))
              (λ f d h.
                subst (λ x. Ready (path ∷ paths) x × Missed path x f) (sym h.0) (ready, h.1))
              (Ends-read_to_string path w))
            (λ d h. h.0.0)))
        (λ r u h.
          Ends-bind {Q = λ _ d. After path u.disk d}
            (settle_read hash r path n (committed n s0) out)
            (settle_staged_files hash paths n (committed n s0)) u
            (Ends-settle_read path r out u s h.0.0 h.1)
            (λ next v k.
              Ends-settle_staged_files paths next v a
                (Ready-step (staged_prefix n) (Settling hash s0) path paths u.disk v.disk h.0 k)))

  pub Ends-settle_staged :
      (w : World)
      → Settling hash s0 w.disk
      → Ends
          (λ _ d. Settling hash s0 d × NoStaged n d)
          (λ _ d. Settling hash s0 d)
          (settle_staged hash n (committed n s0) w)
  unfolding settle_staged staged_files
  Ends-settle_staged w g =
      Ends-bind (files_with_prefix (staged_prefix n)) _ w
        (Ends-listed (staged_prefix n) (Settling hash s0) w g)
        (λ paths u h. Ends-settle_staged_files paths nothing_settled u h.0 h.1)
