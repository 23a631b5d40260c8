-- ===== src/Store/Verified.antt =====
-- What a report of `verify_store` of src/store/mod.rs says of the store.
use mcp_memory_rs.Common.{
  String, ◌≡◌, ◌≢◌, refl, ◌∙◌, ap, sym, subst, ◌⊎◌, inl, inr, Bool, true, false, none, some, List,
  [], ◌∷◌, ◌==◌, is_nil, if◌then◌else◌, length, any, Bool-cases,
}
use mcp_memory_rs.Common.Among.{Among}
use mcp_memory_rs.Common.Map.{find}
use mcp_memory_rs.Error.{io, other_io, sqlite, not_found, ok, err}
use mcp_memory_rs.Db.{CategoryMeta, Tables}
use mcp_memory_rs.World.{Disk, World, throw, access}
use mcp_memory_rs.World.Ends.{Ends, Ends-mono, Ends-bind, Ends-pure, Ends-throw, Ends-returned}
use mcp_memory_rs.World.Accesses.{Ends-access, Ends-reading}
use mcp_memory_rs.AtomicJson.Names.{
  json_name, json_names, json_names_in, pending_in, pending_names, none-pending,
  Among-json_names_in,
}
use mcp_memory_rs.AtomicJson.Paths.{Candidate, IsStaged, IsParked}
use mcp_memory_rs.AtomicJson.Recoverable.{Healthy, Recoverable}
use mcp_memory_rs.AtomicJson.Searching.{Carried}
use mcp_memory_rs.Codec.{Codec}
use mcp_memory_rs.Store.Report.{
  StoreReport, is_clean, Probe, select, hashes, unknown, mismatched, report_of, verify_store,
}
use mcp_memory_rs.Store.Listed.{HasRow, HasRow-find, clean_parts, HasRow-any}
use mcp_memory_rs.Store.Mismatched.{Checked, Ends-mismatched}

module _ (c : Codec) (d : Disk) where
  -- Nothing is staged or parked for any category.
  abbrev pub NothingPending : Type 0
  NothingPending =
      ((n p : String) → IsStaged n p → find p d.files ≡ none)
      × ((n p : String) → IsParked n p → find p d.files ≡ none)

  -- What a report says of the store.
  pub record Reported (probe : Probe) (r : StoreReport) : Type 0 where
    pub integrity_is : r.integrity ≡ probe.integrity_check
    pub restore_is : r.interrupted_restore ≡ probe.restore_marker
    pub counted : r.categories ≡ length (hashes d.saved.category)
    pub carried :
        (n : String) (row : CategoryMeta)
        → find n d.saved.category ≡ some row
        → Among n r.mismatches ⊎ ((content : String) × Carried c.hash n row.content_hash d content)
    pub missed :
        (n : String)
        → Among n r.mismatches
        → (h : String) × HasRow n h (hashes d.saved.category)
          × ((p b : String) → Candidate n p → find p d.files ≡ some b → c.hash b ≢ h)
    pub pending_is : r.pending ≡ pending_in d.files
    pub orphans_are : r.orphan_files ≡ unknown (hashes d.saved.category) (json_names_in d.files)
    pub is_listed : d.unlisted ≡ false

  Carried-clean :
      (n : String) (row : CategoryMeta) (names : List String)
      → is_nil names ≡ true
      → Among n names ⊎ ((content : String) × Carried c.hash n row.content_hash d content)
      → (content : String) × Carried c.hash n row.content_hash d content
  Carried-clean n row [] e (inl a) = elim a [ ]
  Carried-clean n row (m ∷ names) e (inl a) = cc
  Carried-clean n row names e (inr k) = k

  pub Healthy-Carried :
      (n h content : String)
      → ((p : String) → IsParked n p → find p d.files ≡ none)
      → Carried c.hash n h d content
      → Healthy c.hash n h d.files
  Healthy-Carried n h content unparked k = record {
    parked_agree = λ p b s f. cc (unparked p s, f);
    carrier = k.path;
    is_candidate = k.is_candidate;
    content = content;
    found = k.found;
    agrees = k.agrees;
  }

  -- Every final file has a row.
  abbrev pub AllKnown : Type 0
  AllKnown =
      (n p b : String)
      → find p d.files ≡ some b
      → json_name p ≡ some n
      → (h : String) × HasRow n h (hashes d.saved.category)

  -- A final file that is not reported has a row.
  HasRow-known :
      (n : String) (rows : List (String × String)) (files : List String)
      → is_nil (unknown rows files) ≡ true
      → Among n files
      → (h : String) × HasRow n h rows
  HasRow-known n rows [] e m = elim m [ ]
  HasRow-known n rows (f ∷ files) e m =
      elim (Bool-cases (any (λ (r : String × String). r.0 == f) rows)) [
        | inl q ↦ elim m [
          | inl k ↦
              HasRow-any n rows
                (subst (λ f. any (λ (r : String × String). r.0 == f) rows ≡ true) (sym k) q)
          | inr later ↦ HasRow-known n rows files (rw q at e) later
        ]
        | inr q ↦ absurd (cc (rw q at e))
      ]

  pub Recoverable-Reported :
      (probe : Probe) (r : StoreReport)
      → Reported probe r
      → is_clean r ≡ true
      → Recoverable c.hash d × NothingPending × AllKnown
  Recoverable-Reported probe r k e =
      let quiet : NothingPending =
        none-pending d.files (subst (λ l. is_nil l ≡ true) k.pending_is (clean_parts r e).2) in
      (
        record {
          is_listed = k.is_listed;
          healthy = λ n row dn f.
              let (content, carried) =
                Carried-clean n row r.mismatches (clean_parts r e).0 (k.carried n row f) in
              Healthy-Carried n row.content_hash content (quiet.1 n) carried;
        },
        quiet,
        λ n p b f q.
            HasRow-known n (hashes d.saved.category) (json_names_in d.files)
              (subst (λ l. is_nil l ≡ true) k.orphans_are (clean_parts r e).1)
              (Among-json_names_in n p b d.files f q),
      )

  Ends-select :
      {A : Type 0} (f : Tables → A) (w : World)
      → w.disk ≡ d
      → Ends (λ a x. (x ≡ d) × (a ≡ f d.saved)) (λ _ x. x ≡ d) (select f w)
  unfolding select
  Ends-select f w e =
      Ends-mono (λ a x h. (h.0 ∙ e, h.1 ∙ ap (λ y. f y.saved) e)) (λ _ x h. h ∙ e)
        (Ends-reading sqlite (λ y. f y.saved) w)

  Ends-ask :
      (w : World) → w.disk ≡ d → Ends (λ _ x. x ≡ d) (λ _ x. x ≡ d) (access sqlite (λ x. x) w)
  Ends-ask w e = Ends-mono (λ _ x h. h ∙ e) (λ _ x h. h.0 ∙ e) (Ends-access sqlite (λ x. x) w)

  Ends-named :
      (b : Bool) (names : List String) (w : World)
      → w.disk ≡ d
      → d.unlisted ≡ b
      → Ends
          (λ l x. (x ≡ d) × (l ≡ names) × (d.unlisted ≡ false))
          (λ _ x. x ≡ d)
          (if b then (err (io other_io), w) else (ok names, w))
  Ends-named true names w e q = record { holds = e }
  Ends-named false names w e q = record { holds = (e, refl, q) }

  Ends-pending_names :
      (w : World)
      → w.disk ≡ d
      → Ends
          (λ l x. (x ≡ d) × (l ≡ pending_in d.files) × (d.unlisted ≡ false))
          (λ _ x. x ≡ d)
          (pending_names w)
  unfolding pending_names
  Ends-pending_names w e =
      Ends-mono (λ l x h. (h.0, h.1 ∙ ap (λ y. pending_in y.files) e, h.2)) (λ _ x h. h)
        (Ends-named w.unlisted (pending_in w.files) w e (ap (λ y. y.unlisted) (sym e)))

  Ends-json_names :
      (w : World)
      → w.disk ≡ d
      → Ends (λ l x. (x ≡ d) × (l ≡ json_names_in d.files)) (λ _ x. x ≡ d) (json_names w)
  unfolding json_names
  Ends-json_names w e =
      Ends-mono (λ l x h. (h.0, h.1 ∙ ap (λ y. json_names_in y.files) e)) (λ _ x h. h)
        (Ends-named w.unlisted (json_names_in w.files) w e (ap (λ y. y.unlisted) (sym e)))

  Ends-report_of :
      (probe : Probe) (w : World)
      → w.disk ≡ d
      → Ends (λ r x. (x ≡ d) × Reported probe r) (λ _ x. x ≡ d) (report_of c probe w)
  unfolding report_of
  Ends-report_of probe w e = Ends-bind (access sqlite (λ d. d)) _ w (Ends-ask w e) (λ _ w1 e1.
      Ends-bind (access sqlite (λ d. d)) _ w1 (Ends-ask w1 e1) (λ _ w2 e2.
        Ends-bind (select (λ _. probe.integrity_check)) _ w2 (Ends-select _ w2 e2) (λ i w3 h3.
          Ends-bind (select (λ _. probe.journal_mode)) _ w3 (Ends-select _ w3 h3.0) (λ j w4 h4.
            Ends-bind pending_names _ w4 (Ends-pending_names w4 h4.0) (λ pending w5 h5.
              Ends-bind (select (λ t. hashes t.category)) _ w5 (Ends-select _ w5 h5.0)
                (λ rows w6 h6.
                  Ends-bind (mismatched c rows) _ w6 (Ends-mismatched c d rows w6 h6.0)
                    (λ names w7 h7.
                      Ends-bind json_names _ w7 (Ends-json_names w7 h7.0) (λ files w8 h8.
                        let k : Checked c d (hashes d.saved.category) names =
                          subst (λ r. Checked c d r names) h6.1 h7.1 in
                        Ends-pure _ w8 (
                          h8.0,
                          record {
                            integrity_is = h3.1;
                            restore_is = refl;
                            counted = ap length h6.1;
                            carried = λ n row f.
                                k.carried n row.content_hash (HasRow-find n row d.saved.category f);
                            missed = k.missed;
                            pending_is = h5.1;
                            orphans_are = rw (h6.1, h8.1) refl;
                            is_listed = h5.2;
                          },
                        )))))))))

  Ends-verified :
      (probe : Probe) (b : Bool) (w : World)
      → w.disk ≡ d
      → Ends
          (λ r x. (x ≡ d) × Reported probe r)
          (λ _ x. x ≡ d)
          ((if b then report_of c probe else throw (not_found probe.db_path [] 0)) w)
  Ends-verified probe true w e = Ends-report_of probe w e
  Ends-verified probe false w e = Ends-throw (not_found probe.db_path [] 0) w e

-- A report on a store is right, whatever fails on the way, and making it changes nothing: it counts the
-- committed rows, its mismatches are categories that have a committed row and no file with bytes of
-- the hash of that row, and every other row has such a file; its pending names and its orphans are
-- those of the directory.
pub Ends-verify_store :
    (c : Codec) (probe : Probe) (w : World)
    → Ends
        (λ r d. (d ≡ w.disk) × Reported c w.disk probe r)
        (λ _ d. d ≡ w.disk)
        (verify_store c probe w)
unfolding verify_store
Ends-verify_store c probe w = Ends-verified c w.disk probe probe.db_exists w refl

-- If the report is clean, the store is recoverable, no file is staged or parked, and every final file
-- has a row.
pub verify_store-Recoverable :
    (c : Codec) (probe : Probe) (w : World) (r : StoreReport)
    → (verify_store c probe w).0 ≡ ok r
    → is_clean r ≡ true
    → Recoverable c.hash w.disk × NothingPending c w.disk × AllKnown c w.disk
verify_store-Recoverable c probe w r e k =
    Recoverable-Reported c w.disk probe r
      (Ends-returned (verify_store c probe w) r (Ends-verify_store c probe w) e).1.1 k
