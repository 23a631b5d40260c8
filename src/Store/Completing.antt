-- ===== src/Store/Completing.antt =====
-- A write of src/store/mod.rs in a process where no access fails, on a category with nothing pending.
use mathlib.Core.Option.{some-injective}
use mcp_memory_rs.Common.{
  String, ◌≡◌, refl, ◌∙◌, ap, sym, subst, true, false, ◌||◌, not, Option, none, some, List, [], ◌∷◌,
  ◌==◌, eq_iff, keep, is_nil,
}
use mcp_memory_rs.Common.Map.{find, keys}
use mcp_memory_rs.Common.Text.{dot_free, starts_with}
use mcp_memory_rs.Json.{Value}
use mcp_memory_rs.Error.{ok, json}
use mcp_memory_rs.Db.{CategoryMeta}
use mcp_memory_rs.World.{Disk, World, Exec, got, read_to_string, files_with_prefix}
use mcp_memory_rs.World.Ends.{Ends-mono}
use mcp_memory_rs.World.Accesses.{Ends-query}
use mcp_memory_rs.World.Completes.{
  Completes, Completes-pure, Completes-attempt, Completes-bind, Completes-query,
  Completes-read_to_string, Completes-files_with_prefix,
}
use mcp_memory_rs.AtomicJson.{
  Source, final_file, json_path, staged_prefix, deleted_prefix, staged_files, deleted_files,
  match_read, first_matching, committed_content,
}
use mcp_memory_rs.AtomicJson.Settling.Pending.{pending, has_pending_lem}
use mcp_memory_rs.AtomicJson.Reading.{Matched, Ends-committed_content, Ends-listing, Ends-read}
use mcp_memory_rs.AtomicJson.Recoverable.{Recoverable}
use mcp_memory_rs.Codec.{Codec, Times}
use mcp_memory_rs.Store.Read.{
  get_meta, serve, read_round, read_rounds, read_consistent, decode, read, present, current_value,
  or_throw, settle_locked, settle_pending,
}
use mcp_memory_rs.Store.Serving.{Ends-read_consistent}
use mcp_memory_rs.Store.Current.{Ends-value, Current, committed, orphan, absent}

-- The state of a category before such a write.
pub record Calm (c : Codec) (n : String) (row : CategoryMeta) (bytes : String) (v : Value)
    (d : Disk) : Type 0 where
  pub recoverable : Recoverable c.hash d
  pub at_rest : d.saved ≡ d.db
  pub none_staged : is_nil (keep (λ f. starts_with f (staged_prefix n)) (keys d.files)) ≡ true
  pub none_parked : is_nil (keep (λ f. starts_with f (deleted_prefix n)) (keys d.files)) ≡ true
  pub has_row : find n d.db.category ≡ some row
  pub has_file : find (json_path n) d.files ≡ some bytes
  pub has_hash : c.hash bytes ≡ row.content_hash
  -- Texts with the committed hash are read as the value.
  pub readable : (b : String) → c.hash b ≡ row.content_hash → c.from_str b ≡ some v

module _ (c : Codec) (n : String) (dn : dot_free n ≡ true) (row : CategoryMeta) (bytes : String)
    (v : Value) (d : Disk) (k : Calm c n row bytes v d) where
  Completes-match_read :
      (b : String) (later : Exec (Option (String × Source))) (u : World)
      → u.faults ≡ []
      → b ≡ bytes
      → Completes (match_read c.hash (got b) final_file row.content_hash later u)
  unfolding match_read
  Completes-match_read b later u calm e =
      let q : (c.hash b == row.content_hash) ≡ true =
        (eq_iff (c.hash b) row.content_hash).1 (ap c.hash e ∙ k.has_hash) in
      rw q (Completes-pure _ u calm)

  Completes-first_matching :
      (rest : List (String × Source)) (w : World)
      → w.faults ≡ []
      → w.disk ≡ d
      → Completes (first_matching c.hash ((json_path n, final_file) ∷ rest) row.content_hash w)
  unfolding first_matching
  Completes-first_matching rest w calm e =
      Completes-attempt (read_to_string (json_path n)) _ w (Ends-read (json_path n) d w e)
        (Completes-read_to_string w calm (json_path n) bytes
          (ap (λ x. find (json_path n) x.files) e ∙ k.has_file))
        (λ b u calm1 (_, f).
          Completes-match_read b _ u calm1 (some-injective _ _ (sym f ∙ k.has_file)))

  Completes-committed_content :
      (w : World)
      → w.faults ≡ []
      → w.disk ≡ d
      → Completes (committed_content c.hash n row.content_hash w)
  unfolding committed_content staged_files deleted_files
  Completes-committed_content w calm e =
      Completes-bind (files_with_prefix (staged_prefix n)) _ w
        (Ends-listing (staged_prefix n) d w e)
        (Completes-files_with_prefix w calm (staged_prefix n)
          (ap (λ x. x.unlisted) e ∙ k.recoverable.is_listed))
        (λ staged u calm1 (e1, _).
          Completes-bind (files_with_prefix (deleted_prefix n)) _ u
            (Ends-listing (deleted_prefix n) d u e1)
            (Completes-files_with_prefix u calm1 (deleted_prefix n)
              (ap (λ x. x.unlisted) e1 ∙ k.recoverable.is_listed))
            (λ parked x calm2 (e2, _). Completes-first_matching _ x calm2 e2))

  Completes-serve :
      (r : Option (String × Source)) (later : Exec (String × Option CategoryMeta)) (u : World)
      → u.faults ≡ []
      → Matched c.hash row.content_hash d r
      → Completes (serve c r row later u)
  unfolding serve
  Completes-serve none later u calm m = absurd (cc m.returned)
  Completes-serve (some x) later u calm m = Completes-pure _ u calm

  Completes-read_round :
      (o : Option CategoryMeta) (later : Exec (String × Option CategoryMeta)) (u : World)
      → u.faults ≡ []
      → u.disk ≡ d
      → o ≡ some row
      → Completes (read_round c o n later u)
  unfolding read_round
  Completes-read_round o later u calm e q =
      subst (λ o. Completes (read_round c o n later u)) (sym q)
        (Completes-bind (committed_content c.hash n row.content_hash) _ u
          (Ends-committed_content c.hash row.content_hash d n u e
            (k.recoverable.healthy n row dn (ap (λ t. find n t.category) k.at_rest ∙ k.has_row)))
          (Completes-committed_content u calm e)
          (λ r x calm1 h. Completes-serve r later x calm1 h.1))

  Completes-read_consistent :
      (w : World) → w.faults ≡ [] → w.disk ≡ d → Completes (read_consistent c n w)
  unfolding read_consistent read_rounds get_meta
  Completes-read_consistent w calm e =
      Completes-bind {Q = λ o x. (x ≡ d) × (o ≡ some row)} (get_meta n) _ w
        (Ends-mono (λ o x h. (h.0 ∙ e, h.1 ∙ (ap (λ y. find n y.db.category) e ∙ k.has_row)))
          (λ _ x h. h) (Ends-query (λ t. find n t.category) w))
        (Completes-query w calm (λ t. find n t.category))
        (λ o u calm1 (e1, q). Completes-read_round o _ u calm1 e1 q)

  Completes-decode :
      (b : String) (u : World)
      → u.faults ≡ []
      → c.hash b ≡ row.content_hash
      → Completes (decode c b u)
  unfolding decode
  Completes-decode b u calm h =
      let q : c.from_str b ≡ some v = k.readable b h in
      subst (λ o. Completes (or_throw o json u)) (sym q) (Completes-pure v u calm)

  Completes-read : (w : World) → w.faults ≡ [] → w.disk ≡ d → Completes (read c n w)
  unfolding read
  Completes-read w calm e =
      Completes-bind (read_consistent c n) _ w
        (Ends-read_consistent c n row d w e dn k.recoverable k.at_rest k.has_row)
        (Completes-read_consistent w calm e) (λ r u calm1 h. Completes-decode r.0 u calm1 h.2)

  pub Completes-current_value :
      (w : World) → w.faults ≡ [] → w.disk ≡ d → Completes (current_value c n w)
  unfolding current_value present
  Completes-current_value w calm e =
      Completes-attempt (read c n) _ w (Ends-value c n d w e) (Completes-read w calm e)
        (λ a u calm1 _. Completes-pure (some a) u calm1)

  pub not_pending : (w : World) → w.disk ≡ d → pending n w ≡ false
  not_pending w e =
      subst
        (λ x.
          (not (is_nil (keep (λ f. starts_with f (staged_prefix n)) (keys x.files)))
            || not (is_nil (keep (λ f. starts_with f (deleted_prefix n)) (keys x.files))))
          ≡ false)
        (sym e) (rw (k.none_staged, k.none_parked) refl)

  -- The value that a mutation starts from.
  pub current-calm : (o : Option Value) → Current c n d o → o ≡ some v
  current-calm o (committed r b u f h p q) =
      let rows : r ≡ row = some-injective _ _ (sym f ∙ k.has_row) in
      q ∙ (sym p ∙ k.readable b (h ∙ ap (λ x. x.content_hash) rows))
  current-calm o (orphan b u f g p q) = cc (f, k.has_row)
  current-calm o (absent f g q) = cc (f, k.has_row)

  -- There is nothing to settle.
  pub settle_locked-calm : (t : Times) (w : World) → w.disk ≡ d → settle_locked c n t w ≡ (ok tt, w)
  unfolding settle_locked settle_pending
  settle_locked-calm t w e =
      rw (has_pending_lem n w (ap (λ x. x.unlisted) e ∙ k.recoverable.is_listed), not_pending w e)
        refl
