-- ===== src/Store/Open.antt =====
-- `reconcile_on_open` of src/store/mod.rs: what a process does with the files that an interrupted one left.
use mcp_memory_rs.Common.{ℕ, ◌+◌, String, ◌≡◌, Bool, true, false, List, [], ◌∷◌, All, is_nil}
use mcp_memory_rs.Common.Text.{dot_free}
use mcp_memory_rs.Error.{sqlite}
use mcp_memory_rs.Db.{Tables}
use mcp_memory_rs.World.{Disk, World, Exec, pure, ◌>>=◌, ◌>>◌, access, transaction}
use mcp_memory_rs.World.Ends.{Ends, Ends-mono, Ends-bind, Ends-pure}
use mcp_memory_rs.World.Accesses.{Back}
use mcp_memory_rs.AtomicJson.Names.{pending_names}
use mcp_memory_rs.AtomicJson.Recoverable.{Recoverable}
use mcp_memory_rs.AtomicJson.Settling.{Settling}
use mcp_memory_rs.Codec.{Codec, Times}
use mcp_memory_rs.Store.Read.{settle_locked}
use mcp_memory_rs.Store.Settle.{Ends-settle_locked}
use mcp_memory_rs.Store.Landing.{Recoverable-Back}

-- `WriteTxn::rollback`
unfoldable pub rollback : Exec (Unit {0})
rollback = access sqlite (λ d. record d { db = d.saved })

module _ (c : Codec) where
  -- The loop over the names; `clock i` is what the i-th call takes from the clock.
  unfoldable pub settle_names : List String → (ℕ → Times) → ℕ → Exec (Unit {0})
  settle_names [] clock i = pure tt
  settle_names (name ∷ names) clock i = do
    settle_locked c name (clock i)
    settle_names names clock (i + 1)

  unfoldable pub reconcile_names : Bool → List String → (ℕ → Times) → Exec (Unit {0})
  reconcile_names true names clock = pure tt
  reconcile_names false names clock = transaction (do settle_names names clock 0; rollback)

  unfoldable pub reconcile_on_open : (ℕ → Times) → Exec (Unit {0})
  reconcile_on_open clock = do names ← pending_names; reconcile_names (is_nil names) names clock

  -- The committed tables are as they were, and their content can be read.
  pub record Reconciled (s0 : Tables) (d : Disk) : Type 0 where
    pub recoverable : Recoverable c.hash d
    pub saved_is : d.saved ≡ s0

  abbrev pub DotFree : List String → Type 0
  DotFree names = All (λ n. dot_free n ≡ true) names

  module _ (s0 : Tables) where
    pub Ends-settle_names :
        (names : List String) (clock : ℕ → Times) (i : ℕ) (w : World)
        → DotFree names
        → Settling c.hash s0 w.disk
        → Ends
            (λ _ d. Settling c.hash s0 d)
            (λ _ d. Settling c.hash s0 d)
            (settle_names names clock i w)
    unfolding settle_names
    Ends-settle_names [] clock i w a g = Ends-pure tt w g
    Ends-settle_names (name ∷ names) clock i w (dn, a) g =
        Ends-bind (settle_locked c name (clock i)) _ w
          (Ends-mono (λ _ d h. h.0) (λ _ d h. h) (Ends-settle_locked c name dn s0 (clock i) w g))
          (λ _ u h. Ends-settle_names names clock (i + 1) u a h)

    pub Reconciled-Back : (d : Disk) → Settling c.hash s0 d → Reconciled s0 (Back d)
    Reconciled-Back d g = record {
      recoverable = Recoverable-Back c.hash d g.recoverable;
      saved_is = g.saved_is;
    }
