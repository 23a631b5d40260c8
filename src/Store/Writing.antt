-- ===== src/Store/Writing.antt =====
-- `write_with` of src/store/mod.rs, from the check of the name to the promotion of the file.
use mcp_memory_rs.Common.{String, ◌≡◌, refl, ap, sym, subst, true, Option, inl}
use mcp_memory_rs.Common.Map.{Map, find}
use mcp_memory_rs.Common.Text.{dot_free}
use mcp_memory_rs.Json.{Value}
use mcp_memory_rs.Db.{CategoryMeta, Tables, hash_of_row}
use mcp_memory_rs.World.{Disk, World}
use mcp_memory_rs.World.Ends.{Ends, Ends-mono, Ends-bind}
use mcp_memory_rs.World.Accesses.{Back}
use mcp_memory_rs.Codec.{Codec, Times}
use mcp_memory_rs.Store.Read.{get_meta, current_value}
use mcp_memory_rs.Store.Write.{
  WriteMode, new_value, guard_kind, guard_hash, write_current, write_locked, write_with,
}
use mcp_memory_rs.Store.Guards.{Expected, NoLog, Ends-guard_kind, Ends-guard_hash, Ends-validated}
use mcp_memory_rs.Store.Upserting.{meta, written}
use mcp_memory_rs.Store.Landing.{Atomic, Landed}
use mcp_memory_rs.Store.Locked.{
  AtRest, Basis, Readied, Ends-settled, Ends-get_meta, Ends-Basis, Ends-write_through,
  GoneBack-Clean,
}

module _ (c : Codec) (n : String) (dn : dot_free n ≡ true) (mode : WriteMode)
    (reason : Option String) (actor : String) (expected : Option String) (t : Times) where
  abbrev value_of : Option Value → Value
  value_of old = new_value mode old

  -- The tables that a write from the value `old` commits.
  abbrev pub tables_of : Tables → Option Value → Tables
  tables_of s0 old =
      written c n dn s0 (value_of old) (c.to_string_pretty (value_of old)) t.now actor reason t

  module _ (f0 : Map String) where
    -- What a write that commits was given: the old value, which is no log, and the expected hash, if there
    -- is a row.
    pub record Granted (s0 : Tables) (old : Option Value) : Type 0 where
      pub basis : Basis c n s0 f0 old
      pub not_log : NoLog old
      pub expected_met : Expected expected (find n s0.category)

    abbrev pub Wanted : Tables → Tables → Type 0
    Wanted s0 s1 = (old : Option Value) × Granted s0 old × (s1 ≡ tables_of s0 old)

    pub record Wrote (s0 : Tables) (r : Option String × CategoryMeta) (d : Disk) : Type 0 where
      pub old : Option Value
      pub granted : Granted s0 old
      pub previous_hash : r.0 ≡ hash_of_row (find n s0.category)
      pub reported :
          r.1
          ≡ meta c n dn s0 (value_of old) (c.to_string_pretty (value_of old)) t.now actor reason t
      pub landed : Landed c.hash n (c.to_string_pretty (new_value mode old)) (tables_of s0 old) d

    Ends-write_current :
        (s0 : Tables) (old : Option Value) (u : World)
        → Readied c n dn s0 (Wanted s0) f0 u.disk
        → Basis c n s0 f0 old
        → Ends
            (λ r d. Wrote s0 r (Back d))
            (λ _ d. Atomic c.hash s0 (Wanted s0) (Back d))
            (write_current c n mode reason actor expected t (find n s0.category) old u)
    unfolding write_current
    Ends-write_current s0 old u k b =
        Ends-bind (guard_kind old n) _ u
          (Ends-guard_kind {P = Readied c n dn s0 (Wanted s0) f0} old n u k
            (λ d k. GoneBack-Clean c n dn s0 (Wanted s0) d k.0))
          (λ _ v (k1, nl).
            Ends-bind (guard_hash expected (find n s0.category)) _ v
              (Ends-guard_hash {P = Readied c n dn s0 (Wanted s0) f0} expected (find n s0.category)
                v k1 (λ d k. GoneBack-Clean c n dn s0 (Wanted s0) d k.0))
              (λ _ x (k2, ex).
                let g : Granted s0 old = record { basis = b; not_log = nl; expected_met = ex } in
                Ends-mono
                  (λ r d (e, l). record {
                    old = old;
                    granted = g;
                    previous_hash = ap (λ r. r.0) e;
                    reported = ap (λ r. r.1) e;
                    landed = l;
                  })
                  (λ _ d h. h)
                  (Ends-write_through c n dn s0 (Wanted s0)
                    (λ m. (hash_of_row (find n s0.category), m)) (value_of old)
                    (c.to_string_pretty (value_of old)) actor reason t x k2.0 (old, g, refl))))

  pub Ends-write_with :
      (w : World)
      → AtRest c.hash w.disk
      → Ends
          (λ r d. Wrote w.files w.saved r d)
          (λ _ d. Atomic c.hash w.saved (Wanted w.files w.saved) d)
          (write_with c n mode reason actor expected t w)
  unfolding write_with write_locked
  Ends-write_with w r =
      let New : Tables → Type 0 = Wanted w.files w.saved in
      Ends-validated n _ w
        (λ _. record { recoverable = r.recoverable; at_rest = r.no_change_open; either = inl refl })
        (Ends-settled c n dn (λ r d. Wrote w.files w.saved r d) New t _ w r
          (λ u k f.
            Ends-bind (get_meta n) _ u (Ends-get_meta c n dn w.saved New w.files u (k, f))
              (λ row v (k1, e).
                Ends-bind (current_value c n) _ v (Ends-Basis c n dn w.saved New w.files v k1)
                  (λ old x (k2, b).
                    subst
                      (λ row.
                        Ends (λ r d. Wrote w.files w.saved r (Back d))
                          (λ _ d. Atomic c.hash w.saved New (Back d))
                          (write_current c n mode reason actor expected t row old x))
                      (sym e) (Ends-write_current w.files w.saved old x k2 b)))))
