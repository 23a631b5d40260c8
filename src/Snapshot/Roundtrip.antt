-- ===== src/Snapshot/Roundtrip.antt =====
-- A snapshot that was created, restored.
use mcp_memory_rs.Common.{ℕ, String, ◌≡◌, ◌∙◌, false, Option, none, some, length, ◌≤◌}
use mcp_memory_rs.Error.{MemoryError, ok}
use mcp_memory_rs.World.{World}
use mcp_memory_rs.World.Ends.{Ends-returned}
use mcp_memory_rs.AtomicJson.Names.{pending_in}
use mcp_memory_rs.AtomicJson.Recoverable.{Recoverable}
use mcp_memory_rs.Codec.{Codec, Times}
use mcp_memory_rs.Store.Open.{DotFree}
use mcp_memory_rs.Snapshot.Verify.{Manifest, Dir}
use mcp_memory_rs.Snapshot.Restore.{Site, restore_steps, restore}
use mcp_memory_rs.Snapshot.Create.{Options, Origin, create}
use mcp_memory_rs.Snapshot.Creating.{Created, Ends-create}
use mcp_memory_rs.Snapshot.Endings.{Replaced}
use mcp_memory_rs.Snapshot.Completing.{restore-Replaced}

module _ (c : Codec) (o : Origin) where
  -- A snapshot without backups that is reported for a fresh directory is restored if no step of the swap
  -- fails, and the live database then has the rows that were committed in the store it was taken of. That
  -- store was recoverable, and the names of its pending files have no dot.
  pub create-restore :
      (dest : Dir) (options : Options) (clock : ℕ → Times) (w : World) (m : Manifest) (d : Dir)
      (n : ℕ) (stop : Option MemoryError) (s : Site)
      → DotFree c (pending_in w.files)
      → Recoverable c.hash w.disk
      → dest.categories ≡ none
      → options.with_backups ≡ false
      → (create c o dest options clock w).0 ≡ ok (m, d)
      → length (restore_steps m) ≤ n
      → ((restore c.hash d n stop s).result ≡ ok m)
        × Replaced c.hash d s m (restore c.hash d n stop s).site
        × (i : String) × ((restore c.hash d n stop s).site.live.database
            ≡ some (record { integrity = i; tables = w.saved }))
  create-restore dest options clock w m d n stop s a r fresh lean ran enough =
      let (_, made) =
        Ends-returned (create c o dest options clock w) (m, d)
          (Ends-create c o dest options clock w a r) ran in
      let created : Created c o w.saved dest options m d = made.0 in
      let (files, copied) = created.copyable fresh in
      let (done, replaced) =
        restore-Replaced c.hash d m files n stop s created.accepted (created.covers ∙ lean) copied
          enough in
      let (i, rows) = created.rows_are in (done, replaced, i, replaced.live_database ∙ rows)
