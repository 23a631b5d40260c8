-- ===== src/AtomicJson/Settling/Listing.antt =====
-- The files of a category that are still to be settled: those of a listing that are left.
use mcp_memory_rs.Common.{String, ◌≡◌, sym, subst, ◌⊎◌, inl, inr, true, none, List, ◌∷◌, All}
use mcp_memory_rs.Common.Among.{Among, Among-keep, Among-keys, All-keep}
use mcp_memory_rs.Common.Map.{find, keys}
use mcp_memory_rs.Common.Text.{starts_with}
use mcp_memory_rs.World.{Disk, World, files_with_prefix}
use mcp_memory_rs.World.Ends.{Ends, Ends-mono}
use mcp_memory_rs.World.Accesses.{Ends-files_with_prefix}

module _ (prefix : String) (Inv : Disk → Type 0) where
  -- The file is gone, and no other file with the prefix has come up.
  abbrev pub Gone : String → Disk → Disk → Type 0
  Gone path d d' =
      (find path d'.files ≡ none)
      × ((p : String)
          → starts_with p prefix ≡ true
          → find p d.files ≡ none
          → find p d'.files ≡ none)

  abbrev pub After : String → Disk → Disk → Type 0
  After path d d' = Inv d' × Gone path d d'

  pub After-missed :
      (path : String) (d : Disk)
      → Inv d
      → find path d.files ≡ none
      → (d' : Disk) → d' ≡ d
      → After path d d'
  After-missed path d g e d' q = subst (After path d) (sym q) (g, (e, λ _ _ z. z))

  -- Every file with the prefix is one of those that are still to come.
  abbrev pub Ready : List String → Disk → Type 0
  Ready paths d =
      Inv d × ((p : String) → starts_with p prefix ≡ true → (find p d.files ≡ none) ⊎ Among p paths)

  pub Ready-step :
      (path : String) (paths : List String) (d d' : Disk)
      → Ready (path ∷ paths) d
      → After path d d'
      → Ready paths d'
  Ready-step path paths d d' ready after = (
    after.0,
    λ p s. elim (ready.1 p s) [
      | inl e ↦ inl (after.1.1 p s e)
      | inr (inl q) ↦ inl (subst (λ x. find x d'.files ≡ none) (sym q) after.1.0)
      | inr (inr m) ↦ inr m
    ],
  )

  pub Ends-listed :
      (w : World)
      → Inv w.disk
      → Ends
          (λ paths d. All (λ p. starts_with p prefix ≡ true) paths × Ready paths d)
          (λ _ d. Inv d)
          (files_with_prefix prefix w)
  Ends-listed w g =
      Ends-mono
        (λ paths d h.
          subst (λ l. All (λ p. starts_with p prefix ≡ true) l × Ready l d) (sym h.1)
            (
              All-keep (λ f. starts_with f prefix) (keys w.files),
              (
                subst Inv (sym h.0) g,
                λ p s. elim (Among-keys p w.files) [
                  | inl e ↦ inl (subst (λ x. find p x.files ≡ none) (sym h.0) e)
                  | inr m ↦ inr (Among-keep (λ f. starts_with f prefix) p (keys w.files) s m)
                ],
              ),
            ))
        (λ _ d h. subst Inv (sym h) g) (Ends-files_with_prefix prefix w)
