-- ===== src/Store/Locked.antt =====
-- What the mutations of src/store/mod.rs share: the lock, the settling, the read of the current state,
-- and a local write with its commit.
use mcp_memory_rs.Common.{String, ◌≡◌, refl, ◌∙◌, ap, sym, subst, true, Option, none, some}
use mcp_memory_rs.Common.Map.{Map, find}
use mcp_memory_rs.Common.Text.{dot_free}
use mcp_memory_rs.Json.{Value}
use mcp_memory_rs.Db.{CategoryMeta, Tables}
use mcp_memory_rs.World.{Disk, World, Exec, pure, ◌>>=◌, ◌>>◌, commit, transaction}
use mcp_memory_rs.World.Ends.{Fault, Ends, Ends-mono, Ends-bind, Ends-both}
use mcp_memory_rs.World.Accesses.{Ends-query, Back, Ends-transaction}
use mcp_memory_rs.AtomicJson.{json_path, promote}
use mcp_memory_rs.AtomicJson.Recoverable.{Recoverable}
use mcp_memory_rs.AtomicJson.Settling.{Settling}
use mcp_memory_rs.Codec.{Codec, Times}
use mcp_memory_rs.Store.Read.{get_meta, settle_locked, current_value}
use mcp_memory_rs.Store.Rows.{new_meta, stage_local_write}
use mcp_memory_rs.Store.Settle.{Clean, Ends-settle_locked}
use mcp_memory_rs.Store.Orphan.{Ends-settled_orphan}
use mcp_memory_rs.Store.Current.{Current, committed, orphan, absent, Ends-current_value}
use mcp_memory_rs.Store.Tables.{RowSet-written_tables}
use mcp_memory_rs.Store.Staging.{Before, Before-Clean}
use mcp_memory_rs.Store.Upserting.{path, meta, written, Ends-stage_local_write}
use mcp_memory_rs.Store.Landing.{Atomic, Landed, Recoverable-Back, Atomic-Before, Ends-land}

-- A store between two operations of its process.
pub record AtRest (hash : String → String) (d : Disk) : Type 0 where
  pub recoverable : Recoverable hash d
  pub no_change_open : d.db ≡ d.saved

-- The value that a change starts from: that of the committed bytes, if the category has a row, and
-- otherwise that of the final file, if there is one.
pub data Basis (c : Codec) (n : String) (s0 : Tables) (f0 : Map String) (o : Option Value)
    : Type 0 where
  of_row :
      (row : CategoryMeta) (content : String) (v : Value)
      → find n s0.category ≡ some row
      → c.hash content ≡ row.content_hash
      → c.from_str content ≡ some v
      → o ≡ some v
      → Basis c n s0 f0 o
  of_file :
      (content : String) (v : Value)
      → find n s0.category ≡ none
      → find (json_path n) f0 ≡ some content
      → c.from_str content ≡ some v
      → o ≡ some v
      → Basis c n s0 f0 o
  of_nothing :
      find n s0.category ≡ none → find (json_path n) f0 ≡ none → o ≡ none → Basis c n s0 f0 o

-- Without a row, the final file is the one of `f0`.
abbrev pub Untouched : String → Tables → Map String → Disk → Type 0
Untouched n s0 f0 d = find n s0.category ≡ none → find (json_path n) d.files ≡ find (json_path n) f0

pub Basis-Current :
    (c : Codec) (n : String) (s0 : Tables) (f0 : Map String) (d : Disk) (o : Option Value)
    → d.db ≡ s0
    → Untouched n s0 f0 d
    → Current c n d o
    → Basis c n s0 f0 o
Basis-Current c n s0 f0 d o e k (committed row content v f h p q) =
    of_row row content v (ap (λ t. find n t.category) (sym e) ∙ f) h p q
Basis-Current c n s0 f0 d o e k (orphan content v f h p q) =
    let gone : find n s0.category ≡ none = ap (λ t. find n t.category) (sym e) ∙ f in
    of_file content v gone (sym (k gone) ∙ h) p q
Basis-Current c n s0 f0 d o e k (absent f h q) =
    let gone : find n s0.category ≡ none = ap (λ t. find n t.category) (sym e) ∙ f in
    of_nothing gone (sym (k gone) ∙ h) q

Settling-AtRest :
    (hash : String → String) (d : Disk) → AtRest hash d → Settling hash d.saved (Back d)
Settling-AtRest hash d r = record {
  recoverable = Recoverable-Back hash d r.recoverable;
  db_is = refl;
  saved_is = refl;
}

Before-Settling :
    (hash : String → String) (s0 : Tables) (d : Disk) → Settling hash s0 d → Before hash s0 d
Before-Settling hash s0 d g = record { recoverable = g.recoverable; saved_is = g.saved_is }

module _ (c : Codec) (n : String) (dn : dot_free n ≡ true) where
  Untouched-settled :
      (w u : World) (d : Disk)
      → u.disk ≡ Back w.disk
      → (find n u.db.category ≡ none → find (json_path n) d.files ≡ find (json_path n) u.files)
      → Untouched n w.saved w.files d
  Untouched-settled w u d e k gone =
      k (ap (λ x. find n x.db.category) e ∙ gone) ∙ ap (λ x. find (json_path n) x.files) e

  -- A transaction that settles the category first.
  pub Ends-settled :
      {A : Type 0} (Q : A → Disk → Type 0) (New : Tables → Type 0) (t : Times) (body : Exec A)
      (w : World)
      → AtRest c.hash w.disk
      → ((u : World)
          → Clean c n dn w.saved u.disk
          → Untouched n w.saved w.files u.disk
          → Ends (λ a d. Q a (Back d)) (λ _ d. Atomic c.hash w.saved New (Back d)) (body u))
      → Ends Q (λ _ d. Atomic c.hash w.saved New d) (transaction (do settle_locked c n t; body) w)
  Ends-settled Q New t body w r k =
      Ends-transaction (do settle_locked c n t; body) w
        (λ _.
          Atomic-Before c.hash w.saved New w.disk
            (record { recoverable = r.recoverable; saved_is = refl }))
        (λ u e.
          let g : Settling c.hash w.saved u.disk =
            subst (Settling c.hash w.saved) (sym e) (Settling-AtRest c.hash w.disk r) in
          Ends-bind {Q = λ _ d. Clean c n dn w.saved d × Untouched n w.saved w.files d}
            (settle_locked c n t) (λ _. body) u
            (Ends-mono (λ _ d h. (h.0, Untouched-settled w u d e h.1))
              (λ _ d g. Atomic-Before c.hash w.saved New d (Before-Settling c.hash w.saved d g.0))
              (Ends-both (settle_locked c n t u) (Ends-settle_locked c n dn w.saved t u g)
                (Ends-settled_orphan c n t u g.recoverable.is_listed)))
            (λ _ v h. k v h.0 h.1))

  module _ (s0 : Tables) (New : Tables → Type 0) where
    abbrev GoneBack : Fault → Disk → Type 0
    GoneBack _ d = Atomic c.hash s0 New (Back d)

    pub GoneBack-Clean : (d : Disk) → Clean c n dn s0 d → Atomic c.hash s0 New (Back d)
    GoneBack-Clean d k = Atomic-Before c.hash s0 New d (Before-Clean c n dn s0 d k)

    -- The category is settled, and without a row its final file is the one of `f0`.
    abbrev pub Readied : Map String → Disk → Type 0
    Readied f0 d = Clean c n dn s0 d × Untouched n s0 f0 d

    pub Ends-get_meta :
        (f0 : Map String) (u : World)
        → Readied f0 u.disk
        → Ends (λ o d. Readied f0 d × (o ≡ find n s0.category)) GoneBack (get_meta n u)
    unfolding get_meta
    Ends-get_meta f0 u k =
        Ends-mono
          (λ o d h. (subst (Readied f0) (sym h.0) k, h.1 ∙ ap (λ t. find n t.category) k.0.0.db_is))
          (λ _ d e. GoneBack-Clean d (subst (Clean c n dn s0) (sym e) k.0))
          (Ends-query (λ t. find n t.category) u)

    pub Ends-Basis :
        (f0 : Map String) (u : World)
        → Readied f0 u.disk
        → Ends (λ o d. Readied f0 d × Basis c n s0 f0 o) GoneBack (current_value c n u)
    Ends-Basis f0 u k =
        Ends-mono
          (λ o d h.
            (subst (Readied f0) (sym h.0) k, Basis-Current c n s0 f0 u.disk o k.0.0.db_is k.1 h.1))
          (λ _ d e. GoneBack-Clean d (subst (Clean c n dn s0) (sym e) k.0))
          (Ends-current_value c n u.disk u refl)

    -- A local write to the end.
    pub Ends-write_through :
        {A : Type 0} (f : CategoryMeta → A) (value : Value) (content by : String)
        (reason : Option String) (t : Times) (u : World)
        → Clean c n dn s0 u.disk
        → New (written c n dn s0 value content t.now by reason t)
        → Ends
            (λ x d.
              (x ≡ f (meta c n dn s0 value content t.now by reason t))
              × Landed c.hash n content
                  (written c n dn s0 value content t.now by reason t)
                  (Back d))
            GoneBack
            ((do
              r ← stage_local_write c n value content reason by t
              commit
              promote r.1
              pure (f r.0))
              u)
    unfolding new_meta
    Ends-write_through f value content by reason t u k new =
        let m = meta c n dn s0 value content t.now by reason t in
        let s1 = written c n dn s0 value content t.now by reason t in
        Ends-bind (stage_local_write c n value content reason by t) _ u
          (Ends-mono (λ _ d h. h) (λ _ d b. Atomic-Before c.hash s0 New d b)
            (Ends-stage_local_write c n dn s0 value content t.now by reason t u k refl))
          (λ r v (e, g).
            subst
              (λ r.
                Ends (λ x d. (x ≡ f m) × Landed c.hash n content s1 (Back d)) GoneBack
                  ((do commit; promote r.1; pure (f r.0)) v))
              (sym e)
              (Ends-land c.hash n dn s0 s1 (path c n dn s0 value content t.now by reason t) content
                (RowSet-written_tables c m value reason t.version_at s0 t.marked_at) New new (f m) v
                g))
