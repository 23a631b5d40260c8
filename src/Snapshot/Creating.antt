-- ===== src/Snapshot/Creating.antt =====
-- What `snapshot` of src/store/mod.rs returns, and what it leaves of the store.
use mcp_memory_rs.Common.{
  ℕ, String, ◌≡◌, refl, ◌∙◌, ap, sym, subst, Bool, if◌then◌else◌, true, false, Option, none, some,
  List,
}
use mcp_memory_rs.Common.Map.{Map}
use mcp_memory_rs.Error.{sqlite, io, other_io, other, Result, ok, err, crashed}
use mcp_memory_rs.Db.{Tables}
use mcp_memory_rs.World.{Disk, World, throw, ◌>>◌, access, transaction}
use mcp_memory_rs.World.Ends.{Ends, Ends-mono, Ends-bind, Ends-pure, Ends-throw}
use mcp_memory_rs.World.Accesses.{Back, Ends-access, Ends-reading, Ends-transaction}
use mcp_memory_rs.AtomicJson.Names.{json_names, pending_in, pending_names-listed}
use mcp_memory_rs.AtomicJson.Recoverable.{Recoverable}
use mcp_memory_rs.AtomicJson.Settling.{Settling}
use mcp_memory_rs.Codec.{Codec, Times}
use mcp_memory_rs.Store.Landing.{Recoverable-Back}
use mcp_memory_rs.Store.Open.{
  settle_names, rollback, DotFree, Reconciled, Ends-settle_names, Reconciled-Back,
}
use mcp_memory_rs.Snapshot.Verify.{Manifest, Node, Database, Dir, holds, verify}
use mcp_memory_rs.Snapshot.Verifying.{IsSound, verify-IsSound}
use mcp_memory_rs.Snapshot.Restore.{copy_categories}
use mcp_memory_rs.Snapshot.Create.{
  Options, Origin, has_manifest, nodes, vacuum_into, copy_files, Copied, copy_all_backups,
  manifest_of, created_dir, when_accepted, read_back, write_snapshot, create_locked, create,
}
use mcp_memory_rs.Snapshot.Copying.{
  Same, Same-access, AllRegular, copy_nodes-AllRegular, Ends-copy_files, Same-copy_all_backups,
  Same-json_names,
}

module _ (c : Codec) (o : Origin) (s0 : Tables) (dest : Dir) (options : Options) where
  -- The snapshot has the committed rows, and passes the checks.
  pub record Created (m : Manifest) (d : Dir) : Type 0 where
    pub accepted : verify c.hash d ≡ ok m
    pub covers : m.includes_backups ≡ options.with_backups
    pub rows_are : (i : String) × (d.database ≡ some (record { integrity = i; tables = s0 }))
    pub sound : IsSound c.hash m d
    pub copyable :
        dest.categories ≡ none → (files : Map Node) × (copy_categories d.categories ≡ some files)

  Ends-vacuum_into :
      (db : Option Database) (w : World)
      → w.saved ≡ s0
      → Ends (λ t d. (d ≡ w.disk) × (t ≡ s0)) (Same w.disk) (vacuum_into db w)
  unfolding vacuum_into
  Ends-vacuum_into none w e =
      Ends-mono (λ _ d h. (h.0, h.1 ∙ e)) (λ _ d h. h) (Ends-reading sqlite (λ d. d.saved) w)
  Ends-vacuum_into (some db) w e = Ends-throw sqlite w refl

  -- What is put together before it is read back.
  record Assembled (m : Manifest) (d : Dir) : Type 0 where
    held : d.manifest ≡ holds m
    covering : m.includes_backups ≡ options.with_backups
    its_rows : (i : String) × (d.database ≡ some (record { integrity = i; tables = s0 }))
    can_copy :
        dest.categories ≡ none → (files : Map Node) × (copy_categories d.categories ≡ some files)

  Ends-read_back :
      (m : Manifest) (d : Dir) (r : Result Manifest) (w : World)
      → verify c.hash d ≡ r
      → Assembled m d
      → Ends (λ x e. Created x.0 x.1 × (e ≡ w.disk)) (Same w.disk) (when_accepted r m d w)
  Ends-read_back m d (err e) w v h = Ends-throw e w refl
  Ends-read_back m d crashed w v h = record { holds = refl }
  Ends-read_back m d (ok k) w v h =
      let (held, _, sound) = verify-IsSound c.hash d k v in
      let same : k ≡ m = cc (sym held ∙ h.held) in
      Ends-pure (m, d) w
        (
          record {
            accepted = v ∙ ap (λ k. ok k) same;
            covers = h.covering;
            rows_are = h.its_rows;
            sound = subst (λ k. IsSound c.hash k d) same sound;
            copyable = h.can_copy;
          },
          refl,
        )

  AllRegular-nodes : (o : Option (Map Node)) → o ≡ none → AllRegular (nodes o)
  AllRegular-nodes none e = tt
  AllRegular-nodes (some files) e = cc

  copied :
      (files : Map Node)
      → AllRegular files
      → (copy : Map Node) × (copy_categories (some files) ≡ some copy)
  unfolding copy_categories
  copied files a = (files, copy_nodes-AllRegular files a)

  Ends-written :
      (tables : Tables) (names : List String) (files : Map Node)
      (backups : Copied × Option (Map Node)) (d0 : Disk) (w : World)
      → tables ≡ s0
      → (AllRegular (nodes dest.categories) → AllRegular files)
      → w.disk ≡ d0
      → Settling c.hash s0 d0
      → Ends
          (λ x d. Created x.0 x.1 × Reconciled c s0 (Back d))
          (λ _ d. Reconciled c s0 (Back d))
          ((do
            access (io other_io) (λ d. d)
            rollback
            read_back c o
                (manifest_of o options names backups.0)
                (created_dir o (manifest_of o options names backups.0) tables dest files backups.1))
            w)
  unfolding rollback
  Ends-written tables names files backups d0 w t r e g =
      let kept : (d : Disk) → d ≡ d0 → Reconciled c s0 (Back d) =
        λ d e. Reconciled-Back c s0 d (subst (Settling c.hash s0) (sym e) g) in
      Ends-bind (access (io other_io) (λ d. d)) _ w
        (Ends-mono (λ _ d h. h ∙ e) (λ _ d h. kept d (h ∙ e)) (Same-access w))
        (λ _ u h.
          Ends-bind (access sqlite (λ d. record d { db = d.saved })) _ u
            (Ends-mono (λ _ d k. k) (λ _ d k. kept d (k.0 ∙ h))
              (Ends-access sqlite (λ d. record d { db = d.saved }) u))
            (λ _ v k.
              let rolled : Reconciled c s0 (Back v.disk) =
                subst (λ x. Reconciled c s0 (Back x)) (sym k) (kept u.disk h) in
              Ends-mono (λ _ d q. (q.0, subst (λ x. Reconciled c s0 (Back x)) (sym q.1) rolled))
                (λ _ d q. subst (λ x. Reconciled c s0 (Back x)) (sym q) rolled)
                (Ends-read_back _ _ _ v refl (record {
                  held = refl;
                  covering = refl;
                  its_rows = (
                    o.integrity,
                    ap (λ t. some (record { integrity = o.integrity; tables = t })) t,
                  );
                  can_copy = λ e. copied files (r (AllRegular-nodes dest.categories e));
                }))))

  Ends-write_snapshot :
      (w : World)
      → Settling c.hash s0 w.disk
      → Ends
          (λ x d. Created x.0 x.1 × Reconciled c s0 (Back d))
          (λ _ d. Reconciled c s0 (Back d))
          (write_snapshot c o dest options w)
  unfolding write_snapshot
  Ends-write_snapshot w g =
      let kept : (d : Disk) → d ≡ w.disk → Reconciled c s0 (Back d) =
        λ d e. Reconciled-Back c s0 d (subst (Settling c.hash s0) (sym e) g) in
      Ends-bind (vacuum_into dest.database) _ w
        (Ends-mono (λ _ d h. h) (λ _ d h. kept d h) (Ends-vacuum_into dest.database w g.saved_is))
        (λ tables u h.
          Ends-bind json_names _ u
            (Ends-mono (λ _ d k. k ∙ h.0) (λ _ d k. kept d (k ∙ h.0)) (Same-json_names u))
            (λ names v k.
              Ends-bind (copy_files names (nodes dest.categories)) _ v
                (Ends-mono (λ _ d q. q) (λ _ d q. kept d q) (Ends-copy_files names _ w.disk v k))
                (λ files x q.
                  Ends-bind (copy_all_backups c.hash options.with_backups dest.backups) _ x
                    (Ends-mono (λ _ d l. l) (λ _ d l. kept d l)
                      (Same-copy_all_backups c.hash options.with_backups dest.backups w.disk x q.0))
                    (λ backups y l. Ends-written tables names files backups w.disk y h.1 q.1 l g))))

  Ends-create_locked :
      (clock : ℕ → Times) (w : World)
      → DotFree c (pending_in w.files)
      → Settling c.hash s0 w.disk
      → Ends
          (λ x d. Created x.0 x.1 × Reconciled c s0 (Back d))
          (λ _ d. Reconciled c s0 (Back d))
          (create_locked c o dest options clock w)
  unfolding create_locked
  Ends-create_locked clock w a g = rw (pending_names-listed w g.recoverable.is_listed) (
      Ends-bind (settle_names c (pending_in w.files) clock 0) _ w
        (Ends-mono (λ _ d h. h) (λ _ d h. Reconciled-Back c s0 d h)
          (Ends-settle_names c s0 (pending_in w.files) clock 0 w a g))
        (λ _ u h. Ends-write_snapshot u h))

module _ (c : Codec) (o : Origin) where
  Reconciled-self : (d : Disk) → Recoverable c.hash d → Reconciled c d.saved d
  Reconciled-self d r = record { recoverable = r; saved_is = refl }

  Ends-create_in :
      (b : Bool) (dest : Dir) (options : Options) (clock : ℕ → Times) (w : World)
      → DotFree c (pending_in w.files)
      → Recoverable c.hash w.disk
      → Ends
          (λ x d. Created c o w.saved dest options x.0 x.1 × Reconciled c w.saved d)
          (λ _ d. Reconciled c w.saved d)
          ((if b
              then throw (other "snapshot destination already holds a snapshot")
              else transaction (create_locked c o dest options clock))
            w)
  Ends-create_in true dest options clock w a r =
      Ends-throw (other "snapshot destination already holds a snapshot") w
        (Reconciled-self w.disk r)
  Ends-create_in false dest options clock w a r =
      Ends-transaction (create_locked c o dest options clock) w
        (λ _. record { recoverable = Recoverable-Back c.hash w.disk r; saved_is = refl })
        (λ u e.
          Ends-create_locked c o w.saved dest options clock u
            (subst (λ (d : Disk). DotFree c (pending_in d.files)) (sym e) a)
            (subst (Settling c.hash w.saved) (sym e) (record {
              recoverable = Recoverable-Back c.hash w.disk r;
              db_is = refl;
              saved_is = refl;
            })))

  -- A snapshot that is reported has the committed rows, its manifest is the one reported, and it passes
  -- the checks; the store it is taken of stays recoverable with the same committed tables, however the
  -- call ends. The store is recoverable before, and the names of the pending files have no dot.
  pub Ends-create :
      (dest : Dir) (options : Options) (clock : ℕ → Times) (w : World)
      → DotFree c (pending_in w.files)
      → Recoverable c.hash w.disk
      → Ends
          (λ x d. Created c o w.saved dest options x.0 x.1 × Reconciled c w.saved d)
          (λ _ d. Reconciled c w.saved d)
          (create c o dest options clock w)
  unfolding create
  Ends-create dest options clock w a r =
      Ends-create_in (has_manifest dest.manifest) dest options clock w a r
