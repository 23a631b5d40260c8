-- ===== src/Snapshot/Verifying.antt =====
-- What `verify` of src/store/snapshot.rs accepts.
use mcp_memory_rs.Common.{
  String, ◌≡◌, refl, ap, sym, inl, inr, Bool-cases, true, Option, none, some, List, [], ◌∷◌, ◌==◌,
  eq_iff, nat_eq, nat_eq_iff, is_nil, is_some, length, any, subst,
}
use mcp_memory_rs.Common.Among.{Among}
use mcp_memory_rs.Common.Map.{Map, find, keys}
use mcp_memory_rs.Error.{Result, ok, err, crashed}
use mcp_memory_rs.Db.{Tables}
use mcp_memory_rs.AtomicJson.{json_path}
use mcp_memory_rs.AtomicJson.Names.{final_names_in}
use mcp_memory_rs.Store.Report.{hashes}
use mcp_memory_rs.Store.Listed.{HasRow, HasRow-any}
use mcp_memory_rs.Snapshot.Verify.{
  Manifest, ManifestFile, absent, unparsed, holds, Node, regular, not_regular, Database, Dir,
  read_manifest, complain, row_problem, row_problems, unknown_problems, problems, verify_files,
  verify_database, verify_manifest, verify,
}
use mcp_memory_rs.Snapshot.Backups.{nil-append, complain_met, BackedUp, BackedUp-coverage_problems}

module _ (hash : String → String) where
  -- The file of the row is there and has its bytes.
  abbrev pub InPlace : String → String → Map Node → Type 0
  InPlace n h files =
      (content : String) × (find (json_path n) files ≡ some (regular content)) × (hash content ≡ h)

  InPlace-row_problem :
      (o : Option Node) (n h : String)
      → is_nil (row_problem hash o n h) ≡ true
      → (content : String) × (o ≡ some (regular content)) × (hash content ≡ h)
  InPlace-row_problem none n h e = cc
  InPlace-row_problem (some not_regular) n h e = cc
  InPlace-row_problem (some (regular content)) n h e =
      (content, refl, (eq_iff (hash content) h).0 (complain_met (hash content == h) _ e))

  InPlace-row_problems :
      (rows : List (String × String)) (files : Map Node)
      → is_nil (row_problems hash rows files) ≡ true
      → (n h : String) → HasRow n h rows
      → InPlace n h files
  unfolding row_problems
  InPlace-row_problems [] files e n h m = elim m [ ]
  InPlace-row_problems ((name, g) ∷ rows) files e n h m =
      let (here, later) = nil-append (row_problem hash (find (json_path name) files) name g) _ e in
      elim m [
        | inl (p, q) ↦
            subst (λ n. InPlace n h files) (sym p)
              (subst (λ h. InPlace name h files) (sym q) (InPlace-row_problem _ name g here))
        | inr x ↦ InPlace-row_problems rows files later n h x
      ]

  HasRow-unknown_problems :
      (files : List String) (rows : List (String × String))
      → is_nil (unknown_problems hash files rows) ≡ true
      → (n : String) → Among n files
      → (h : String) × HasRow n h rows
  unfolding unknown_problems
  HasRow-unknown_problems [] rows e n m = elim m [ ]
  HasRow-unknown_problems (f ∷ files) rows e n m =
      let (here, later) =
        nil-append (complain (any (λ (r : String × String). r.0 == f) rows) _) _ e in
      elim m [
        | inl p ↦
            subst (λ n. (h : String) × HasRow n h rows) (sym p)
              (HasRow-any f rows (complain_met _ _ here))
        | inr x ↦ HasRow-unknown_problems files rows later n x
      ]

  -- The rows, the files and the backups of a snapshot that has been verified.
  pub record IsSound (m : Manifest) (d : Dir) : Type 0 where
    pub database : Database
    pub files : Map Node
    pub database_is : d.database ≡ some database
    pub files_are : d.categories ≡ some files
    pub integral : database.integrity ≡ "ok"
    pub in_place : (n h : String) → HasRow n h (hashes database.tables.category) → InPlace n h files
    pub known :
        (n : String)
        → Among n (final_names_in (keys files))
        → (h : String) × HasRow n h (hashes database.tables.category)
    pub counted : length (hashes database.tables.category) ≡ m.categories
    pub backed_up : m.includes_backups ≡ true → BackedUp hash m d

  IsSound-problems :
      (m : Manifest) (d : Dir) (db : Database) (files : Map Node)
      → d.database ≡ some db
      → d.categories ≡ some files
      → db.integrity ≡ "ok"
      → is_nil (problems hash m (hashes db.tables.category) files d.backups) ≡ true
      → IsSound m d
  unfolding problems
  IsSound-problems m d db files a b i e =
      let (rows, e) = nil-append (row_problems hash (hashes db.tables.category) files) _ e in
      let (names, e) =
        nil-append (unknown_problems hash (final_names_in (keys files)) (hashes db.tables.category))
          _ e in
      let (count, coverage) =
        nil-append (complain (nat_eq (length (hashes db.tables.category)) m.categories) _) _ e in
      record {
        database = db;
        files = files;
        database_is = a;
        files_are = b;
        integral = i;
        in_place = InPlace-row_problems _ files rows;
        known = HasRow-unknown_problems _ _ names;
        counted = (nat_eq_iff _ _).0 (complain_met _ _ count);
        backed_up = BackedUp-coverage_problems hash m d d.backups refl coverage;
      }

  verify_files_lem :
      (m k : Manifest) (t : Tables) (o backups : Option (Map Node))
      → verify_files hash m t o backups ≡ ok k
      → (m ≡ k)
        × (files : Map Node) × (o ≡ some files)
        × (is_nil (problems hash m (hashes t.category) files backups) ≡ true)
  unfolding verify_files
  verify_files_lem m k t none backups e = cc
  verify_files_lem m k t (some files) backups e =
      elim (Bool-cases (is_nil (problems hash m (hashes t.category) files backups))) [
        | inl q ↦ (cc (rw q at e), files, refl, q)
        | inr q ↦ cc (rw q at e)
      ]

  pub verify_database_lem :
      (m k : Manifest) (o : Option Database) (d : Dir)
      → d.database ≡ o
      → verify_database hash m o d.categories d.backups ≡ ok k
      → (m ≡ k) × IsSound m d
  unfolding verify_database
  verify_database_lem m k none d a e = cc
  verify_database_lem m k (some db) d a e = elim (Bool-cases (db.integrity == "ok")) [
    | inl q ↦
        let (same, files, b, clean) =
          verify_files_lem m k db.tables d.categories d.backups (rw q at e) in
        (same, IsSound-problems m d db files a b ((eq_iff _ _).0 q) clean)
    | inr q ↦ cc (rw q at e)
  ]

  read_manifest-holds :
      (f : ManifestFile) (m : Manifest) (d : Dir)
      → d.manifest ≡ f
      → read_manifest d ≡ ok m
      → (f ≡ holds m) × (m.format ≡ 1)
  unfolding read_manifest
  read_manifest-holds absent m d a e = cc (rw a at e)
  read_manifest-holds unparsed m d a e = cc (rw a at e)
  read_manifest-holds (holds k) m d a e = elim (Bool-cases (nat_eq k.format 1)) [
    | inl q ↦ elim (Bool-cases (is_some d.database)) [
      | inl r ↦
          let same : k ≡ m = cc (rw r at rw q at rw a at e) in
          (
            ap (λ x. holds x) same,
            subst (λ (x : Manifest). x.format ≡ 1) same ((nat_eq_iff _ _).0 q),
          )
      | inr r ↦ cc (rw r at rw q at rw a at e)
    ]
    | inr q ↦ cc (rw q at rw a at e)
  ]

  IsSound-verify_manifest :
      (r : Result Manifest) (m : Manifest) (d : Dir)
      → read_manifest d ≡ r
      → verify_manifest hash r d ≡ ok m
      → (d.manifest ≡ holds m) × (m.format ≡ 1) × IsSound m d
  IsSound-verify_manifest (ok k) m d a e =
      let (same, sound) = verify_database_lem k m d.database d refl e in
      let (held, format) = read_manifest-holds d.manifest k d refl a in
      subst (λ m. (d.manifest ≡ holds m) × (m.format ≡ 1) × IsSound m d) same (held, format, sound)
  IsSound-verify_manifest (err x) m d a e = cc
  IsSound-verify_manifest crashed m d a e = cc

  -- When the verification accepts a directory, its manifest is the one returned and has format 1, the
  -- database passes its check, each row has its file with its hash, each final file has a row, the number
  -- of rows is the one of the manifest and, if backups are included, exactly those listed are there and
  -- each has its hash.
  pub verify-IsSound :
      (d : Dir) (m : Manifest)
      → verify hash d ≡ ok m
      → (d.manifest ≡ holds m) × (m.format ≡ 1) × IsSound m d
  unfolding verify
  verify-IsSound d m e = IsSound-verify_manifest (read_manifest d) m d refl e
