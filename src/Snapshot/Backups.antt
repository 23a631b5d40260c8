-- ===== src/Snapshot/Backups.antt =====
-- The backups of a snapshot that `verify` of src/store/snapshot.rs accepts.
use mcp_memory_rs.Common.{
  String, ◌≡◌, refl, sym, inl, inr, Bool, true, false, Option, none, some, List, [], ◌∷◌, ◌++◌,
  ◌==◌, eq_iff, nat_eq_iff, is_nil, is_some, length, subst,
}
use mcp_memory_rs.Common.Among.{Among}
use mcp_memory_rs.Common.Map.{Map, find, keys}
use mcp_memory_rs.Store.Listed.{HasRow}
use mcp_memory_rs.Snapshot.Verify.{
  Manifest, Node, regular, not_regular, Dir, Problem, complain, coverage_problems, backups_problems,
  backup_problem, listed_problems, unlisted_problem, unlisted_problems, no_backups,
}

pub nil-append :
    {A : Type 0} (xs ys : List A)
    → is_nil (xs ++ ys) ≡ true
    → (is_nil xs ≡ true) × (is_nil ys ≡ true)
nil-append [] ys h = (refl, h)
nil-append (x ∷ xs) ys h = cc

pub complain_met : (b : Bool) (p : Problem) → is_nil (complain b p) ≡ true → b ≡ true
complain_met true p h = refl
complain_met false p h = cc

module _ (hash : String → String) where
  -- A backup of the manifest, with its bytes.
  abbrev pub BackupInPlace : String → String → Map Node → Type 0
  BackupInPlace n h files =
      (content : String) × (find n files ≡ some (regular content)) × (hash content ≡ h)

  backup_problem_lem :
      (o : Option Node) (n h : String)
      → is_nil (backup_problem hash o n h) ≡ true
      → (content : String) × (o ≡ some (regular content)) × (hash content ≡ h)
  backup_problem_lem none n h e = cc
  backup_problem_lem (some not_regular) n h e = cc
  backup_problem_lem (some (regular content)) n h e =
      (content, refl, (eq_iff (hash content) h).0 (complain_met (hash content == h) _ e))

  BackupInPlace-listed_problems :
      (listed : Map String) (files : Map Node)
      → is_nil (listed_problems hash listed files) ≡ true
      → (n h : String) → HasRow n h listed
      → BackupInPlace n h files
  unfolding listed_problems
  BackupInPlace-listed_problems [] files e n h m = elim m [ ]
  BackupInPlace-listed_problems ((name, g) ∷ listed) files e n h m =
      let (here, later) = nil-append (backup_problem hash (find name files) name g) _ e in
      elim m [
        | inl (p, q) ↦
            subst (λ n. BackupInPlace n h files) (sym p)
              (subst (λ h. BackupInPlace name h files) (sym q) (backup_problem_lem _ name g here))
        | inr x ↦ BackupInPlace-listed_problems listed files later n h x
      ]

  unlisted_problem_lem :
      (node : Node) (name : String) (listed : Map String)
      → is_nil (unlisted_problem hash node name listed) ≡ true
      → is_some (find name listed) ≡ true
  unlisted_problem_lem not_regular name listed e = cc
  unlisted_problem_lem (regular _) name listed e = complain_met _ _ e

  unlisted_problems_lem :
      (files : Map Node) (listed : Map String)
      → is_nil (unlisted_problems hash files listed) ≡ true
      → (n : String) → Among n (keys files)
      → is_some (find n listed) ≡ true
  unfolding unlisted_problems keys
  unlisted_problems_lem [] listed e n m = elim m [ ]
  unlisted_problems_lem ((name, node) ∷ files) listed e n m =
      let (here, later) = nil-append (unlisted_problem hash node name listed) _ e in
      elim m [
        | inl p ↦
            subst (λ n. is_some (find n listed) ≡ true) (sym p)
              (unlisted_problem_lem node name listed here)
        | inr x ↦ unlisted_problems_lem files listed later n x
      ]

  -- Exactly the backups of the manifest are there, each with its bytes.
  pub record BackedUp (m : Manifest) (d : Dir) : Type 0 where
    pub copies : Map Node
    pub copies_are : d.backups ≡ some copies
    pub listed : (n h : String) → HasRow n h m.backups → BackupInPlace n h copies
    pub only : (n : String) → Among n (keys copies) → is_some (find n m.backups) ≡ true
    pub backups_counted : length m.backups ≡ m.backup_files

  pub BackedUp-coverage_problems :
      (m : Manifest) (d : Dir) (o : Option (Map Node))
      → d.backups ≡ o
      → is_nil (coverage_problems hash m o) ≡ true
      → m.includes_backups ≡ true
      → BackedUp m d
  unfolding coverage_problems backups_problems
  BackedUp-coverage_problems m d none a e i =
      let (both, _) =
        nil-append (listed_problems hash m.backups [] ++ no_backups ∷ []) _ (rw i at e) in
      let (_, never) = nil-append (listed_problems hash m.backups []) (no_backups ∷ []) both in cc
  BackedUp-coverage_problems m d (some files) a e i =
      let (those, count) =
        nil-append (backups_problems hash (some files) m.backups) _ (rw i at e) in
      let (these, others) = nil-append (listed_problems hash m.backups files) _ those in
      record {
        copies = files;
        copies_are = a;
        listed = BackupInPlace-listed_problems m.backups files these;
        only = unlisted_problems_lem files m.backups others;
        backups_counted = (nat_eq_iff _ _).0 (complain_met _ _ count);
      }
