-- ===== src/Store/Returning.antt =====
-- `write_with` of src/store/mod.rs in a process where no access fails.
use mcp_memory_rs.Common.{
  String, ◌≡◌, refl, ◌∙◌, ap, sym, subst, true, false, ◌||◌, Option, none, some, [], ◌==◌, eq_iff,
}
use mcp_memory_rs.Common.Map.{find}
use mcp_memory_rs.Common.Text.{dot_free, contains}
use mcp_memory_rs.Json.{Value}
use mcp_memory_rs.Log.{is_log}
use mcp_memory_rs.Error.{ok}
use mcp_memory_rs.Db.{CategoryMeta, Tables}
use mcp_memory_rs.World.{Disk, World, commit}
use mcp_memory_rs.World.Accesses.{Back, Ends-query, Ends-commit}
use mcp_memory_rs.World.Completes.{
  Completes, Completes-pure, Completes-bind, Completes-then, Completes-query, Completes-commit,
  Completes-transaction, returned-Completes,
}
use mcp_memory_rs.AtomicJson.{validate_name, promote}
use mcp_memory_rs.AtomicJson.Settling.Pending.{nothing-pending}
use mcp_memory_rs.Codec.{Codec, Times}
use mcp_memory_rs.Store.Read.{get_meta, current_value}
use mcp_memory_rs.Store.Rows.{stage_local_write}
use mcp_memory_rs.Store.Write.{
  WriteMode, new_value, guard_kind, guard_hash, write_current, write_locked, write_with,
}
use mcp_memory_rs.Store.Settle.{Clean}
use mcp_memory_rs.Store.Current.{Ends-current_value}
use mcp_memory_rs.Store.Guards.{Expected}
use mcp_memory_rs.Store.Upserting.{Ends-stage_local_write}
use mcp_memory_rs.Store.Landing.{Recoverable-Back}
use mcp_memory_rs.Store.Writing.{Wrote, Ends-write_with}
use mcp_memory_rs.Store.Progress.{Completes-stage_local_write, Completes-promote}
use mcp_memory_rs.Store.Completing.{
  Calm, settle_locked-calm, not_pending, current-calm, Completes-current_value,
}

Calm-Back :
    (c : Codec) (n : String) (row : CategoryMeta) (bytes : String) (v : Value) (d : Disk)
    → Calm c n row bytes v d
    → Calm c n row bytes v (Back d)
Calm-Back c n row bytes v d k = record {
  recoverable = Recoverable-Back c.hash d k.recoverable;
  at_rest = refl;
  none_staged = k.none_staged;
  none_parked = k.none_parked;
  has_row = ap (λ s. find n s.category) k.at_rest ∙ k.has_row;
  has_file = k.has_file;
  has_hash = k.has_hash;
  readable = k.readable;
}

module _ (c : Codec) (n : String) (dn : dot_free n ≡ true) (mode : WriteMode)
    (reason : Option String) (actor : String) (expected : Option String) (t : Times)
    (row : CategoryMeta) (v : Value) (not_log : is_log v ≡ false)
    (met : Expected expected (some row)) where
  guard_kind-passes : (w : World) → guard_kind (some v) n w ≡ (ok tt, w)
  unfolding guard_kind
  guard_kind-passes w = rw not_log refl

  guard_hash-passes :
      (o : Option String) (w : World) → o ≡ expected → guard_hash o (some row) w ≡ (ok tt, w)
  unfolding guard_hash
  guard_hash-passes none w e = refl
  guard_hash-passes (some h) w e =
      let q : (row.content_hash == h) ≡ true =
        (eq_iff row.content_hash h).1 (met h row (sym e) refl) in
      rw q refl

  Completes-write_current :
      (s0 : Tables) (w : World)
      → w.faults ≡ []
      → Clean c n dn s0 w.disk
      → Completes (write_current c n mode reason actor expected t (some row) (some v) w)
  unfolding write_current
  Completes-write_current s0 w calm k =
      let value : Value = new_value mode (some v) in
      let content : String = c.to_string_pretty value in
      rw (guard_kind-passes w, guard_hash-passes expected w refl)
        (Completes-bind (stage_local_write c n value content reason actor t) _ w
          (Ends-stage_local_write c n dn s0 value content t.now actor reason t w k refl)
          (Completes-stage_local_write c n value content t.now actor reason t w calm refl)
          (λ r u calm1 (e, g).
            Completes-bind commit _ u (Ends-commit u) (Completes-commit u calm1) (λ _ x calm2 e2.
              let f : find r.1.staged x.files ≡ some content =
                ap (λ y. find r.1.staged y.files) e2
                ∙ (ap (λ q. find q.1.staged u.files) e ∙ g.found) in
              Completes-then (promote r.1) _ x (Completes-promote r.1 content x calm2 f)
                (λ _ y calm3. Completes-pure _ y calm3))))

  validate_name-passes :
      (w : World)
      → (n == "" || contains n "/" || contains n "\\" || contains n "..") ≡ false
      → validate_name n w ≡ (ok tt, w)
  unfolding validate_name
  validate_name-passes w e = rw e refl

  module _ (bytes : String) where
    Clean-Calm : (d : Disk) → Calm c n row bytes v d → Clean c n dn d.db d
    Clean-Calm d k =
        let x : World = record { disk = d; faults = [] } in
        (
          record { recoverable = k.recoverable; db_is = refl; saved_is = k.at_rest },
          nothing-pending n x (not_pending c n dn row bytes v d k x refl),
        )

    Completes-write_locked :
        (d : Disk) (w : World)
        → w.faults ≡ []
        → w.disk ≡ d
        → Calm c n row bytes v d
        → Completes (write_locked c n mode reason actor expected t w)
    unfolding write_locked get_meta
    Completes-write_locked d w calm e k = rw (settle_locked-calm c n dn row bytes v d k t w e) (
        Completes-bind (get_meta n) _ w (Ends-query (λ s. find n s.category) w)
          (Completes-query w calm (λ s. find n s.category))
          (λ o u calm1 (e1, q).
            Completes-bind (current_value c n) _ u (Ends-current_value c n d u (e1 ∙ e))
              (Completes-current_value c n dn row bytes v d k u calm1 (e1 ∙ e))
              (λ old x calm2 (e2, b).
                let qo : o ≡ some row = q ∙ (ap (λ y. find n y.db.category) e ∙ k.has_row) in
                let qv : old ≡ some v = current-calm c n dn row bytes v d k old b in
                rw (qo, qv)
                  (Completes-write_current d.db x calm2
                    (subst (Clean c n dn d.db) (sym e2) (Clean-Calm d k))))))

    -- A write returns, and has written, if no access fails, the store is recoverable with no change
    -- open, nothing of the category is pending, its row and its final file agree, every text with the
    -- committed hash is parsed to one value that is no log, the expected hash, if any, is that of the
    -- row, and the name passes `validate_name` and has no dot.
    pub write_with-returns :
        (w : World)
        → w.faults ≡ []
        → (n == "" || contains n "/" || contains n "\\" || contains n "..") ≡ false
        → Calm c n row bytes v w.disk
        → (r : Option String × CategoryMeta) × (u : World) × (write_with c n mode reason actor
              expected t w
            ≡ (ok r, u))
          × Wrote c n dn mode reason actor expected t w.files w.saved r u.disk
    unfolding write_with
    write_with-returns w calm valid k =
        returned-Completes (write_with c n mode reason actor expected t w)
          (Ends-write_with c n dn mode reason actor expected t w
            (record { recoverable = k.recoverable; no_change_open = sym k.at_rest }))
          (rw (validate_name-passes w valid) (
            Completes-transaction (write_locked c n mode reason actor expected t) w calm
              (λ u calm1 e.
                Completes-write_locked (Back w.disk) u calm1 e
                  (Calm-Back c n row bytes v w.disk k))))
