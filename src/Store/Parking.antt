-- ===== src/Store/Parking.antt =====
-- The first half of `delete` of src/store/mod.rs: the final file is parked.
use mcp_memory_rs.Common.{
  String, ◌<>◌, ◌≡◌, ◌≢◌, refl, ◌∙◌, ap, sym, subst, ◌⊎◌, inl, inr, true, false, Option, none, some,
  Bool-cases, eq_iff, ◌==◌, arith,
}
use mathlib.Core.Option.{some-injective}
use mcp_memory_rs.Common.Map.{find, erase, find-put_self}
use mcp_memory_rs.Common.Text.{dot_free}
use mcp_memory_rs.Error.{io, other_io}
use mcp_memory_rs.Db.{Tables}
use mcp_memory_rs.World.{Disk, World, access, moved, rename}
use mcp_memory_rs.World.Ends.{Ends, Ends-mono, Ends-bind, Ends-pure}
use mcp_memory_rs.World.Accesses.{Ends-access, Ends-rename}
use mcp_memory_rs.AtomicJson.{
  StagedDelete, json_path, deleted_prefix, park, stage_delete, fsync_dir_strict,
}
use mcp_memory_rs.AtomicJson.Paths.{
  Candidate, is_final, is_staged, is_parked, IsParked, IsParked-path,
}
use mcp_memory_rs.AtomicJson.Recoverable.{Healthy, Recoverable-touch, find-moved}
use mcp_memory_rs.Codec.{Codec}
use mcp_memory_rs.Store.Settle.{Clean}
use mcp_memory_rs.Store.Staging.{Before, Before-Clean}

-- No file of the category is left but `parked`.
abbrev pub OnlyFile : String → Option String → Disk → Type 0
OnlyFile n parked d = (p : String) → Candidate n p → (find p d.files ≡ none) ⊎ (some p ≡ parked)

-- The file is parked, if there was one, and the open transaction has the tables `t`.
pub record Parking (hash : String → String) (n : String) (s0 : Tables) (parked : Option String)
    (t : Tables) (d : Disk) : Type 0 where
  pub before : Before hash s0 d
  pub only : OnlyFile n parked d
  pub db_is : d.db ≡ t

module _ (c : Codec) (n : String) (dn : dot_free n ≡ true) (s0 : Tables) where
  -- After settling, the final file has the committed bytes.
  final-agrees :
      (d : Disk) (h b : String)
      → Clean c n dn s0 d
      → find (json_path n) d.files ≡ some b
      → Healthy c.hash n h d.files
      → c.hash b ≡ h
  final-agrees d h b k f healthy = by_carrier healthy.is_candidate
    where
      by_carrier : Candidate n healthy.carrier → c.hash b ≡ h
      by_carrier (is_final e) =
          ap c.hash
            (some-injective _ _ (sym f ∙ (ap (λ p. find p d.files) (sym e) ∙ healthy.found)))
          ∙ healthy.agrees
      by_carrier (is_staged s) = cc (k.1.0 healthy.carrier s, healthy.found)
      by_carrier (is_parked s) = cc (k.1.1 healthy.carrier s, healthy.found)

  module _ (parked b : String) (at : IsParked n parked) (d : Disk) (k : Clean c n dn s0 d)
      (f : find (json_path n) d.files ≡ some b) where
    abbrev away : Disk
    away = moved (json_path n) parked b d

    none_else : (p : String) → Candidate n p → (find p away.files ≡ none) ⊎ (some p ≡ some parked)
    none_else p is_c = elim (Bool-cases (parked == p)) [
      | inl q ↦ inr (ap (λ x. some x) (sym ((eq_iff parked p).0 q)))
      | inr q ↦ inl (by_kind is_c q)
    ]
      where
        by_kind : Candidate n p → (parked == p) ≡ false → find p away.files ≡ none
        by_kind (is_final e) q =
            ground
              (arith, find-moved (json_path n) parked b p d.files, eq_iff (json_path n) p, sym e)
        by_kind (is_staged s) q =
            ground (arith, find-moved (json_path n) parked b p d.files, k.1.0 p s)
        by_kind (is_parked s) q =
            ground (arith, find-moved (json_path n) parked b p d.files, k.1.1 p s)

    Healthy-parked : (h : String) → Healthy c.hash n h d.files → Healthy c.hash n h away.files
    Healthy-parked h healthy = record {
      parked_agree = λ p x s g. elim (none_else p (is_parked s)) [
        | inl e ↦ cc (e, g)
        | inr q ↦
            let xb : x ≡ b = some-injective _ _ (
              sym g
              ∙ (ap (λ y. find y away.files) (some-injective _ _ q)
                  ∙ find-put_self parked b (erase (json_path n) d.files))) in
            ap c.hash xb ∙ final-agrees d h b k f healthy
      ];
      carrier = parked;
      is_candidate = is_parked at;
      content = b;
      found = find-put_self parked b (erase (json_path n) d.files);
      agrees = final-agrees d h b k f healthy;
    }

    Parking-moved : Parking c.hash n s0 (some parked) s0 away
    Parking-moved = record {
      before = record {
        recoverable =
            Recoverable-touch c.hash n d away dn refl refl
              (λ p np.
                let a : json_path n ≢ p = λ e. np (is_final (sym e)) in
                let z : parked ≢ p = λ e. np (is_parked (subst (IsParked n) e at)) in
                ground (
                  arith,
                  find-moved (json_path n) parked b p d.files,
                  eq_iff (json_path n) p,
                  eq_iff parked p,
                ))
              (λ row e. Healthy-parked row.content_hash (k.0.recoverable.healthy n row dn e))
              k.0.recoverable;
        saved_is = k.0.saved_is;
      };
      only = none_else;
      db_is = k.0.db_is;
    }

  -- The path that a delete parks the file at.
  abbrev pub parked_at : String → String
  parked_at suffix = deleted_prefix n <> suffix

  -- What `stage_delete` returns, and the file it stands for.
  pub data ParkedAs (suffix : String) (o : Option StagedDelete) (p : Option String) : Type 0 where
    no_file : o ≡ none → p ≡ none → ParkedAs suffix o p
    a_file :
        o ≡ some (record { parked = parked_at suffix; name = n })
        → p ≡ some (parked_at suffix)
        → ParkedAs suffix o p

  abbrev pub StagedAway : String → Option StagedDelete → Disk → Type 0
  StagedAway suffix o d = (p : Option String) × ParkedAs suffix o p × Parking c.hash n s0 p s0 d

  Parking-none :
      (d : Disk)
      → Clean c n dn s0 d
      → find (json_path n) d.files ≡ none
      → Parking c.hash n s0 none s0 d
  Parking-none d k f = record {
    before = Before-Clean c n dn s0 d k;
    only = λ p is_c. inl (by_kind p is_c);
    db_is = k.0.db_is;
  }
    where
      by_kind : (p : String) → Candidate n p → find p d.files ≡ none
      by_kind p (is_final e) = ap (λ q. find q d.files) e ∙ f
      by_kind p (is_staged s) = k.1.0 p s
      by_kind p (is_parked s) = k.1.1 p s

  Ends-park :
      (o : Option String) (suffix : String) (w : World)
      → find (json_path n) w.files ≡ o
      → Clean c n dn s0 w.disk
      → Ends (λ r d. StagedAway suffix r d) (λ _ d. Before c.hash s0 d) (park o n suffix w)
  unfolding park fsync_dir_strict
  Ends-park none suffix w f k = Ends-pure none w (none, no_file refl refl, Parking-none w.disk k f)
  Ends-park (some b) suffix w f k =
      let p : String = parked_at suffix in
      let G : Disk → Type 0 = Parking c.hash n s0 (some p) s0 in
      Ends-bind (rename (json_path n) p) _ w
        (Ends-mono
          (λ _ d (x, g, e). subst G (sym e) (Parking-moved p x (IsParked-path n suffix) w.disk k g))
          (λ _ d (e, _). subst (Before c.hash s0) (sym e) (Before-Clean c n dn s0 w.disk k))
          (Ends-rename (json_path n) p w))
        (λ _ u g.
          Ends-bind (access (io other_io) (λ d. d)) _ u
            (Ends-mono (λ _ d e. subst G (sym e) g)
              (λ _ d (e, _). subst (Before c.hash s0) (sym e) g.before)
              (Ends-access (io other_io) (λ d. d) u))
            (λ _ v g2. Ends-pure _ v (some p, a_file refl refl, g2)))

  pub Ends-stage_delete :
      (suffix : String) (w : World)
      → Clean c n dn s0 w.disk
      → Ends (λ r d. StagedAway suffix r d) (λ _ d. Before c.hash s0 d) (stage_delete n suffix w)
  unfolding stage_delete
  Ends-stage_delete suffix w k = Ends-park (find (json_path n) w.files) suffix w refl k
