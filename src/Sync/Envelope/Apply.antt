-- ===== src/Sync/Envelope/Apply.antt =====
-- The import of a transfer envelope of src/sync.rs with the strategy `local_wins`.
use mcp_memory_rs.Common.{
  ℕ, ◌+◌, String, ◌≡◌, refl, ◌∙◌, ap, Bool, true, false, Option, none, some, List, [], ◌∷◌, All,
  arith, Bool-cases, inl, inr, ◌==◌,
}
use mcp_memory_rs.Common.Map.{find}
use mcp_memory_rs.World.{Disk, World, Exec, pure, ◌>>=◌, Attempt, got, threw, attempt, query}
use mcp_memory_rs.World.Ends.{
  Ends, Ends-mono, Ends-bind, Ends-pure, Ends-throw, Ends-attempt, Attempted,
}
use mcp_memory_rs.World.Accesses.{Ends-query}
use mcp_memory_rs.Error.{json}
use mcp_memory_rs.Json.{Value}
use mcp_memory_rs.Store.Write.{remote_hash_key}
use mcp_memory_rs.Db.{CategoryMeta}
use mcp_memory_rs.Codec.{Codec, Times}
use mcp_memory_rs.Store.Read.{get_meta, or_throw}
use mcp_memory_rs.Store.Remote.{holds_remote_version, get_sync_state, decoded}
use mcp_memory_rs.Sync.{resolve_conflict, local_wins}
use mcp_memory_rs.Sync.Envelope.{
  SyncTransferEntry, SyncResult, apply_known, apply_found, apply_resolved, apply_entries,
}

module _ (c : Codec) (d : Disk) where
  -- The result and the fault are free, the disk is as it was.
  abbrev pub Untouched : {A : Type 0} → (Exec A) → World → Type 0
  Untouched m w = Ends (λ _ x. x ≡ d) (λ _ x. x ≡ d) (m w)

  Untouched-decoded : (raw : Option String) (w : World) → w.disk ≡ d → Untouched (decoded c raw) w
  Untouched-decoded none w e = Ends-pure none w e
  Untouched-decoded (some raw) w e = Untouched-parsed (c.from_str raw)
    where
      Untouched-parsed : (o : Option Value) → Untouched (or_throw o json >>= λ v. pure (some v)) w
      Untouched-parsed none = Ends-throw json w e
      Untouched-parsed (some v) = Ends-pure (some v) w e

  Untouched-holds :
      (name : String) (here : CategoryMeta) (hash device : String) (w : World)
      → w.disk ≡ d
      → Untouched (holds_remote_version c name here hash device) w
  unfolding holds_remote_version get_sync_state
  Untouched-holds name here hash device w e = elim (Bool-cases (here.content_hash == hash)) [
    | inl q ↦ rw q (Ends-pure true w e)
    | inr q ↦ rw q (
        Ends-bind (get_sync_state c (remote_hash_key name)) _ w
          (Ends-bind (query (λ t. find (remote_hash_key name) t.sync_state)) _ w
            (Ends-mono (λ _ x h. h.0 ∙ e) (λ _ x h. h ∙ e)
              (Ends-query (λ t. find (remote_hash_key name) t.sync_state) w))
            (λ raw u h. Untouched-decoded raw u h))
          (λ alias u h. Ends-pure _ u h))
  ]

  resolve_local : (a b : String) → resolve_conflict a b "local_wins" ≡ local_wins
  unfolding resolve_conflict
  resolve_local a b = refl

  Untouched-known :
      (r : Attempt Bool) (source : String) (entry : SyncTransferEntry) (here : CategoryMeta)
      (t : Times) (out : SyncResult) (w : World)
      → w.disk ≡ d
      → Untouched (apply_known c r source "local_wins" entry here t out) w
  unfolding apply_known apply_resolved
  Untouched-known (got true) source entry here t out w e = Ends-pure out w e
  Untouched-known (got false) source entry here t out w e =
      rw (resolve_local here.updated_at entry.updated_at) (Ends-pure _ w e)
  Untouched-known (threw _) source entry here t out w e =
      rw (resolve_local here.updated_at entry.updated_at) (Ends-pure _ w e)

  -- A row that the query cannot miss.
  abbrev Known : Attempt (Option CategoryMeta) → Type 0
  Known (got none) = ⊥
  Known _ = Unit {0}

  Untouched-found :
      (meta : Attempt (Option CategoryMeta)) (source : String) (entry : SyncTransferEntry)
      (t : Times) (out : SyncResult) (w : World)
      → w.disk ≡ d
      → Known meta
      → Untouched (apply_found c meta source "local_wins" entry t out) w
  unfolding apply_found
  Untouched-found (threw x) source entry t out w e k = Ends-pure _ w e
  Untouched-found (got none) source entry t out w e k = absurd k
  Untouched-found (got (some here)) source entry t out w e k =
      Ends-bind
        (attempt (holds_remote_version c entry.name here entry.content_hash entry.updated_by)) _ w
        (Ends-mono (λ r x h. unattempted r x h) (λ _ x h. h)
          (Ends-attempt (holds_remote_version c entry.name here entry.content_hash entry.updated_by)
            w (Untouched-holds entry.name here entry.content_hash entry.updated_by w e)))
        (λ r u h. Untouched-known r source entry here t out u h)
    where
      unattempted :
          (r : Attempt Bool) (x : Disk) → Attempted (λ _ y. y ≡ d) (λ _ y. y ≡ d) r x → x ≡ d
      unattempted (got _) x h = h
      unattempted (threw _) x h = h

  Known-Attempted :
      (name : String) (m : CategoryMeta) (r : Attempt (Option CategoryMeta)) (x : Disk)
      → find name d.db.category ≡ some m
      → Attempted (λ o y. (y ≡ d) × (o ≡ find name d.db.category)) (λ _ y. y ≡ d) r x
      → (x ≡ d) × Known r
  Known-Attempted name m (got none) x f h = absurd (ground (arith, h.1))
  Known-Attempted name m (got (some _)) x f h = (h.0, tt)
  Known-Attempted name m (threw _) x f h = (h, tt)

  abbrev pub InStore : SyncTransferEntry → Type 0
  InStore entry = (m : CategoryMeta) × (find entry.name d.db.category ≡ some m)

  -- With the strategy `local_wins`, an import of categories that the store has all of leaves the
  -- disk and the tables as they are, whatever fails.
  pub Ends-apply_entries :
      (entries : List SyncTransferEntry) (source : String) (clock : ℕ → Times) (i : ℕ)
      (r : SyncResult) (w : World)
      → w.disk ≡ d
      → All InStore entries
      → Ends (λ _ x. x ≡ d) (λ _ x. x ≡ d) (apply_entries c entries source "local_wins" clock i r w)
  unfolding apply_entries get_meta
  Ends-apply_entries [] source clock i r w e a = Ends-pure r w e
  Ends-apply_entries (entry ∷ entries) source clock i r w e ((m, f), a) =
      Ends-bind {Q = λ o x. (x ≡ d) × Known o} (attempt (get_meta entry.name)) _ w
        (Ends-mono (λ o x h. Known-Attempted entry.name m o x f h) (λ _ x h. h)
          (Ends-attempt (get_meta entry.name) w (
            Ends-mono (λ o x h. (h.0 ∙ e, h.1 ∙ ap (λ y. find entry.name y.db.category) e))
              (λ _ x h. h ∙ e) (Ends-query (λ t. find entry.name t.category) w))))
        (λ o u h.
          Ends-bind (apply_found c o source "local_wins" entry (clock i) r) _ u
            (Untouched-found o source entry (clock i) r u h.0 h.1)
            (λ next v k. Ends-apply_entries entries source clock (i + 1) next v k a))
