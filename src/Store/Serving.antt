-- ===== src/Store/Serving.antt =====
-- What `read_consistent` of src/store/mod.rs serves.
use mcp_memory_rs.Common.{String, ◌≡◌, refl, ◌∙◌, ap, sym, subst, true, Option, none, some}
use mathlib.Core.Option.{some-injective}
use mcp_memory_rs.Common.Map.{find}
use mcp_memory_rs.Common.Text.{dot_free}
use mcp_memory_rs.Db.{CategoryMeta}
use mcp_memory_rs.World.{Disk, World, Exec}
use mcp_memory_rs.World.Ends.{Ends, Ends-mono, Ends-bind, Ends-pure, Ends-both}
use mcp_memory_rs.World.Accesses.{Ends-query}
use mcp_memory_rs.World.Plain.{Plain-query}
use mcp_memory_rs.AtomicJson.{Source, committed_content}
use mcp_memory_rs.AtomicJson.Recoverable.{Recoverable}
use mcp_memory_rs.AtomicJson.Reading.{Unread, Matched, Ends-committed_content}
use mcp_memory_rs.Codec.{Codec}
use mcp_memory_rs.Store.Read.{get_meta, serve, read_round, read_rounds, read_consistent}

module _ (c : Codec) (name : String) (row : CategoryMeta) (d : Disk) where
  abbrev pub Served : (String × Option CategoryMeta) → Disk → Type 0
  Served r x = (x ≡ d) × (r.1 ≡ some row) × (c.hash r.0 ≡ row.content_hash)

  Ends-serve :
      (r : Option (String × Source)) (later : Exec (String × Option CategoryMeta)) (u : World)
      → u.disk ≡ d
      → Matched c.hash row.content_hash d r
      → Ends Served (Unread d) (serve c r row later u)
  unfolding serve
  Ends-serve none later u e m = absurd (cc m.returned)
  Ends-serve (some (content, source)) later u e m =
      Ends-pure _ u (e, refl, ap (λ p. c.hash p.0) (some-injective _ _ m.returned) ∙ m.agrees)

  pub Ends-read_round :
      (o : Option CategoryMeta) (later : Exec (String × Option CategoryMeta)) (u : World)
      → dot_free name ≡ true
      → Recoverable c.hash d
      → d.saved ≡ d.db
      → find name d.db.category ≡ some row
      → u.disk ≡ d
      → o ≡ some row
      → Ends Served (Unread d) (read_round c o name later u)
  unfolding read_round
  Ends-read_round o later u dn rec at_rest f e q =
      subst (λ o. Ends Served (Unread d) (read_round c o name later u)) (sym q)
        (Ends-bind (committed_content c.hash name row.content_hash) _ u
          (Ends-committed_content c.hash row.content_hash d name u e
            (rec.healthy name row dn (ap (λ t. find name t.category) at_rest ∙ f)))
          (λ r v h. Ends-serve r later v h.0 h.1))

  -- While no other process changes the store, and outside a transaction, a reader of a category
  -- that has a row gets content with the hash of that row and the row itself, or an error other
  -- than `NotFound`, and changes nothing. The store is recoverable and the name has no dot.
  pub Ends-read_consistent :
      (w : World)
      → w.disk ≡ d
      → dot_free name ≡ true
      → Recoverable c.hash d
      → d.saved ≡ d.db
      → find name d.db.category ≡ some row
      → Ends Served (Unread d) (read_consistent c name w)
  unfolding read_consistent read_rounds get_meta
  Ends-read_consistent w e dn rec at_rest f =
      Ends-bind {Q = λ o x. (x ≡ d) × (o ≡ some row)} (get_meta name) _ w
        (Ends-mono (λ o x h. (h.0.0 ∙ e, h.0.1 ∙ (ap (λ y. find name y.db.category) e ∙ f)))
          (λ _ x h. (h.0 ∙ e, h.1))
          (Ends-both (get_meta name w) (Ends-query (λ t. find name t.category) w)
            (Plain-query (λ t. find name t.category) w)))
        (λ o u h. Ends-read_round o _ u dn rec at_rest f h.0 h.1)
