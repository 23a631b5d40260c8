-- ===== src/Store/Settle.antt =====
-- `settle_locked` of src/store/mod.rs: what a mutation finds after it took the lock.
use mcp_memory_rs.Common.{String, ◌≡◌, refl, ◌∙◌, ap, sym, subst, Bool, true, false, is_some}
use mcp_memory_rs.Common.Map.{find}
use mcp_memory_rs.Common.Text.{dot_free}
use mcp_memory_rs.Db.{Tables, hash_of_row}
use mcp_memory_rs.World.{Disk, World}
use mcp_memory_rs.World.Ends.{Ends, Ends-mono, Ends-bind, Ends-pure}
use mcp_memory_rs.World.Accesses.{Ends-query}
use mcp_memory_rs.AtomicJson.{settle_staged, settle_deleted}
use mcp_memory_rs.AtomicJson.Settling.{Settling, NoStaged, NoParked}
use mcp_memory_rs.AtomicJson.Settling.Pending.{pending, has_pending_lem, nothing-pending}
use mcp_memory_rs.AtomicJson.Settling.Staged.{Ends-settle_staged}
use mcp_memory_rs.AtomicJson.Settling.Parked.{Ends-settle_deleted}
use mcp_memory_rs.Codec.{Codec, Times}
use mcp_memory_rs.Store.Read.{get_meta, settle_pending, settle_locked}

module _ (c : Codec) (n : String) (dn : dot_free n ≡ true) (s0 : Tables) where
  -- Settled: the final file is the only file of the category.
  abbrev pub Clean : Disk → Type 0
  Clean d = Settling c.hash s0 d × (NoStaged n d × NoParked n d)

  Ends-settle_pending :
      (b : Bool) (t : Times) (w : World)
      → Settling c.hash s0 w.disk
      → (b ≡ false → NoStaged n w.disk × NoParked n w.disk)
      → Ends (λ _ d. Clean d) (λ _ d. Settling c.hash s0 d) (settle_pending c b n t w)
  unfolding settle_pending get_meta
  Ends-settle_pending false t w g h = Ends-pure tt w (g, h refl)
  Ends-settle_pending true t w g h =
      Ends-bind {Q = λ row d. Settling c.hash s0 d × (row ≡ find n s0.category)} (get_meta n) _ w
        (Ends-mono
          (λ row d k.
            (subst (Settling c.hash s0) (sym k.0) g, k.1 ∙ ap (λ t. find n t.category) g.db_is))
          (λ _ d k. subst (Settling c.hash s0) (sym k) g) (Ends-query (λ t. find n t.category) w))
        (λ row u k.
          Ends-bind (settle_staged c.hash n (hash_of_row row)) _ u
            (subst
              (λ o.
                Ends (λ _ d. Settling c.hash s0 d × NoStaged n d) (λ _ d. Settling c.hash s0 d)
                  (settle_staged c.hash n (hash_of_row o) u))
              (sym k.1) (Ends-settle_staged c.hash n dn s0 u k.0))
            (λ _ v g'.
              Ends-bind (settle_deleted n (is_some row) t.settled_at) _ v
                (Ends-settle_deleted c.hash n dn s0 row t.settled_at v (ap hash_of_row (sym k.1))
                  g')
                (λ _ x (i, parked). Ends-pure tt x (i.0, (i.1, parked)))))

  pub Ends-settle_locked :
      (t : Times) (w : World)
      → Settling c.hash s0 w.disk
      → Ends (λ _ d. Clean d) (λ _ d. Settling c.hash s0 d) (settle_locked c n t w)
  unfolding settle_locked
  Ends-settle_locked t w g =
      rw (has_pending_lem n w g.recoverable.is_listed)
        (Ends-settle_pending (pending n w) t w g (nothing-pending n w))
