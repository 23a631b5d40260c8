-- ===== src/Recovery/Recovered.antt =====
-- `adopt_plan` of src/store/recovery.rs to the end: what it leaves, and that it makes a store recoverable.
use mcp_memory_rs.Common.{
  ℕ, String, ◌≡◌, refl, ◌∙◌, ap, sym, subst, ◌⊎◌, inl, inr, true, false, Option, none, some, List,
  [], ◌∷◌, ◌==◌, eq_iff, is_nil, All, Bool-cases,
}
use mathlib.Core.Option.{some-injective}
use mcp_memory_rs.Common.Among.{Among}
use mcp_memory_rs.Common.Map.{Map, find}
use mcp_memory_rs.Error.{ok}
use mcp_memory_rs.Db.{CategoryMeta, Tables, hash_of_row}
use mcp_memory_rs.World.{Disk, World, pure, ◌>>◌, commit}
use mcp_memory_rs.World.Ends.{
  EndsBy, Ends, Ends-mono, Ends-bind, Ends-pure, Ends-throw, Ends-returned,
}
use mcp_memory_rs.World.Accesses.{Back, Ends-commit, Ends-transaction}
use mcp_memory_rs.AtomicJson.{json_path}
use mcp_memory_rs.AtomicJson.Recoverable.{Recoverable, Healthy, Healthy-final}
use mcp_memory_rs.AtomicJson.Paths.{IsParked}
use mcp_memory_rs.AtomicJson.Names.{none-pending}
use mcp_memory_rs.Codec.{Codec, Times}
use mcp_memory_rs.Store.Report.{Probe, StoreReport, verify_store}
use mcp_memory_rs.Store.Verified.{Reported, Ends-verify_store, Healthy-Carried}
use mcp_memory_rs.Recovery.Plan.{PlanEntry}
use mcp_memory_rs.Recovery.Adopt.{
  AdoptOutcome, Todo, guard_restore, check_entries, adopt_work, adopt_locked, adopt_plan, names_of,
  outcome_names, work_entries,
}
use mcp_memory_rs.Recovery.Checking.{Open, Undone, Undone-Open, AllChecked, Ends-check_entries}
use mcp_memory_rs.Recovery.Adopting.{Agrees, Advanced, Ends-adopt_work}

module _ (c : Codec) (f0 : Map String) (s0 : Tables) where
  -- The file of the entry is the one of the plan, and the committed row has its hash.
  abbrev pub Repaired : PlanEntry → Disk → Type 0
  Repaired e d =
      (content : String) × (find (json_path e.name) f0 ≡ some content)
      × (c.hash content ≡ e.file_hash)
      × (hash_of_row (find e.name d.saved.category) ≡ some e.file_hash)

  pub record AllAdopted (entries : List PlanEntry) (outcomes : List (String × AdoptOutcome))
      (d : Disk) : Type 0 where
    pub files_are : d.files ≡ f0
    pub at_rest : d.db ≡ d.saved
    pub is_listed : d.unlisted ≡ false
    pub named : outcome_names outcomes ≡ names_of entries
    pub repaired : All (λ e. Repaired e d) entries
    pub agree : (n : String) → Among n (names_of entries) → Agrees c f0 s0 n d.saved.category
    pub others :
        (n : String)
        → (Among n (names_of entries) → ⊥)
        → find n d.saved.category ≡ find n s0.category

  -- Nothing was changed but backups.
  pub record NoneAdopted (d : Disk) : Type 0 where
    pub files_are : d.files ≡ f0
    pub at_rest : d.db ≡ d.saved
    pub saved_is : d.saved ≡ s0

  All-Repaired :
      (work : List (PlanEntry × Todo)) (d : Disk)
      → AllChecked c f0 s0 work
      → ((n : String) → Among n (names_of (work_entries work)) → Agrees c f0 s0 n d.saved.category)
      → All (λ e. Repaired e d) (work_entries work)
  All-Repaired [] d a set = tt
  All-Repaired ((entry, todo) ∷ work) d (checked, a) set =
      let agrees : Agrees c f0 s0 entry.name d.saved.category = set entry.name (inl refl) in
      let same : agrees.content ≡ checked.content =
        some-injective _ _ (sym agrees.in_file ∙ checked.found) in
      (
        (
          checked.content,
          checked.found,
          checked.hash_is,
          agrees.in_row ∙ ap (λ x. some x) (ap c.hash same ∙ checked.hash_is),
        ),
        All-Repaired work d a (λ n m. set n (inr m)),
      )

  NoneAdopted-Undone : (d : Disk) → Undone c f0 s0 d → NoneAdopted (Back d)
  NoneAdopted-Undone d u = record { files_are = u.0; at_rest = refl; saved_is = u.1 }

  AllAdopted-committed :
      (work : List (PlanEntry × Todo)) (outcomes : List (String × AdoptOutcome)) (d : Disk)
      → AllChecked c f0 s0 work
      → outcome_names outcomes ≡ names_of (work_entries work)
      → Advanced c f0 s0 (names_of (work_entries work)) s0.category d
      → AllAdopted (work_entries work) outcomes (Back (record d { saved = d.db }))
  AllAdopted-committed work outcomes d a e h =
      let set : (n : String)
          → Among n (names_of (work_entries work))
          → Agrees c f0 s0 n d.db.category =
        λ n m. subst (λ k. Agrees c f0 s0 n k) (sym h.opened.rows_are) (h.stepped.set n m) in
      record {
        files_are = h.opened.files_are;
        at_rest = refl;
        is_listed = h.opened.is_listed;
        named = e;
        repaired = All-Repaired work (Back (record d { saved = d.db })) a set;
        agree = set;
        others = λ n apart. ap (λ k. find n k) h.opened.rows_are ∙ h.stepped.others n apart;
      }

  Ends-commit_adopted :
      (work : List (PlanEntry × Todo)) (outcomes : List (String × AdoptOutcome)) (w : World)
      → AllChecked c f0 s0 work
      → outcome_names outcomes ≡ names_of (work_entries work)
      → Advanced c f0 s0 (names_of (work_entries work)) s0.category w.disk
      → Ends
          (λ os d. AllAdopted (work_entries work) os (Back d))
          (λ _ d. NoneAdopted (Back d))
          ((do commit; pure outcomes) w)
  Ends-commit_adopted work outcomes w a e h =
      Ends-bind commit _ w
        (Ends-mono
          (λ _ d q.
            subst (λ x. AllAdopted (work_entries work) outcomes (Back x)) (sym q)
              (AllAdopted-committed work outcomes w.disk a e h))
          (λ _ d q.
            subst (λ x. NoneAdopted (Back x)) (sym q)
              (NoneAdopted-Undone w.disk (Undone-Open c f0 s0 w.disk h.opened)))
          (Ends-commit w))
        (λ _ u g. Ends-pure outcomes u g)

  Ends-adopt_locked :
      (entries : List PlanEntry) (clock : ℕ → Times) (w : World)
      → Open c f0 s0 s0.category w.disk
      → Ends
          (λ os d. AllAdopted entries os (Back d))
          (λ _ d. NoneAdopted (Back d))
          (adopt_locked c entries clock w)
  unfolding adopt_locked
  Ends-adopt_locked entries clock w o =
      Ends-bind (check_entries c entries) _ w
        (Ends-mono (λ _ d h. h) (λ _ d h. NoneAdopted-Undone d h)
          (Ends-check_entries c f0 s0 entries w o))
        (λ work w1 (o1, a, e).
          Ends-bind (adopt_work c work clock 0) _ w1
            (Ends-mono (λ _ d h. h) (λ _ d h. NoneAdopted-Undone d h)
              (Ends-adopt_work c f0 s0 work clock 0 s0.category w1 a (λ n. inr refl) o1))
            (λ outcomes w2 (q, h).
              subst
                (λ es.
                  Ends (λ os d. AllAdopted es os (Back d)) (λ _ d. NoneAdopted (Back d))
                    ((do commit; pure outcomes) w2))
                e (Ends-commit_adopted work outcomes w2 a q h)))

-- A plan is adopted as a whole or not at all. Where the call returns, every entry has an outcome, its
-- file is the one of the plan, and its committed row has the hash of that file; the rows of all other
-- categories are as before. Whatever fails or is cut short on the way, the committed tables are the
-- old ones. In both cases the category files are as they were. No change is open before, and the
-- directory can be listed.
pub Ends-adopt_plan :
    (c : Codec) (marker : Option String) (entries : List PlanEntry) (clock : ℕ → Times) (w : World)
    → w.db ≡ w.saved
    → w.unlisted ≡ false
    → Ends
        (λ os d. AllAdopted c w.files w.saved entries os d)
        (λ _ d. NoneAdopted c w.files w.saved d)
        (adopt_plan c marker entries clock w)
unfolding adopt_plan guard_restore
Ends-adopt_plan c (some m) entries clock w rest listed =
    Ends-throw _ w (record { files_are = refl; at_rest = rest; saved_is = refl })
Ends-adopt_plan c none entries clock w rest listed =
    Ends-transaction (adopt_locked c entries clock) w
      (λ _. record { files_are = refl; at_rest = refl; saved_is = refl })
      (λ u e. Ends-adopt_locked c w.files w.saved entries clock u (
        subst (Open c w.files w.saved w.saved.category) (sym e)
          (record { files_are = refl; saved_is = refl; is_listed = listed; rows_are = refl })))

Among-or : (n : String) (names : List String) → Among n names ⊎ (Among n names → ⊥)
Among-or n [] = inr (λ m. elim m [ ])
Among-or n (m ∷ names) = elim (Bool-cases (n == m)) [
  | inl e ↦ inl (inl ((eq_iff n m).0 e))
  | inr e ↦ elim (Among-or n names) [
    | inl a ↦ inl (inr a)
    | inr apart ↦ inr (λ a. elim a [ inl q ↦ cc (e, (eq_iff n m).1 q) | inr b ↦ apart b ])
  ]
]

module _ (c : Codec) (w : World) (entries : List PlanEntry) (d : Disk)
    (outcomes : List (String × AdoptOutcome))
    (a : AllAdopted c w.files w.saved entries outcomes d) where
  Healthy-Agrees :
      (n : String) (row : CategoryMeta)
      → ((p : String) → IsParked n p → find p w.files ≡ none)
      → Agrees c w.files w.saved n d.saved.category
      → find n d.saved.category ≡ some row
      → Healthy c.hash n row.content_hash d.files
  Healthy-Agrees n row unparked g e =
      subst (λ f. Healthy c.hash n row.content_hash f) (sym a.files_are)
        (Healthy-final c.hash n row.content_hash w.files g.content g.in_file
          (some-injective _ _ (sym g.in_row ∙ ap hash_of_row e)) (λ p b k f. cc (unparked p k, f)))

  Recoverable-AllAdopted :
      (probe : Probe) (r : StoreReport)
      → Reported c w.disk probe r
      → is_nil r.pending ≡ true
      → ((n : String) → Among n r.mismatches → Among n (names_of entries))
      → Recoverable c.hash d
  Recoverable-AllAdopted probe r k quiet named =
      let (_, unparked) = none-pending w.files (subst (λ l. is_nil l ≡ true) k.pending_is quiet) in
      record {
        is_listed = a.is_listed;
        healthy = λ n row dn e. elim (Among-or n (names_of entries)) [
          | inl m ↦ Healthy-Agrees n row (unparked n) (a.agree n m) e
          | inr apart ↦ elim (k.carried n row (sym (a.others n apart) ∙ e)) [
            | inl m ↦ absurd (apart (named n m))
            | inr (content, carried) ↦
                subst (λ f. Healthy c.hash n row.content_hash f) (sym a.files_are)
                  (Healthy-Carried c w.disk n row.content_hash content (unparked n) carried)
          ]
        ];
      }

-- A plan that names every mismatch of a report makes the store recoverable: if the report shows nothing
-- pending, and adopting the plan returns, then every committed row of a category whose name
-- has no dot has its content in a file again.
-- No change is open before.
pub adopt_plan-Recoverable :
    (c : Codec) (probe : Probe) (marker : Option String) (entries : List PlanEntry)
    (clock : ℕ → Times) (w u : World) (r : StoreReport) (outcomes : List (String × AdoptOutcome))
    → w.db ≡ w.saved
    → (verify_store c probe w).0 ≡ ok r
    → is_nil r.pending ≡ true
    → ((n : String) → Among n r.mismatches → Among n (names_of entries))
    → adopt_plan c marker entries clock w ≡ (ok outcomes, u)
    → Recoverable c.hash u.disk
adopt_plan-Recoverable c probe marker entries clock w u r outcomes rest verified quiet named e =
    let k : Reported c w.disk probe r =
      (Ends-returned (verify_store c probe w) r (Ends-verify_store c probe w) verified).1.1 in
    Recoverable-AllAdopted c w entries u.disk outcomes
      (subst
        (EndsBy (λ os d. AllAdopted c w.files w.saved entries os d)
          (λ _ d. NoneAdopted c w.files w.saved d))
        e (Ends-adopt_plan c marker entries clock w rest k.is_listed).holds)
      probe r k quiet named
