-- ===== src/AtomicJson/Searching.antt =====
-- What `committed_content` of src/store/atomic_json.rs says of any store, recoverable or not.
use mcp_memory_rs.Common.{
  String, ◌≡◌, ◌≢◌, refl, subst, inl, inr, true, Option, none, some, List, [], ◌∷◌, ◌++◌, map,
  arith, Bool-cases, eq_iff, ◌==◌, keep, All,
}
use mcp_memory_rs.Common.Among.{All-keep}
use mcp_memory_rs.Common.Map.{find, keys}
use mcp_memory_rs.Common.Text.{starts_with}
use mcp_memory_rs.Error.{io, missing, other_io}
use mcp_memory_rs.World.{
  Disk, World, Exec, Attempt, got, threw, attempt, read_to_string, files_with_prefix,
}
use mcp_memory_rs.World.Ends.{
  Ends, Ends-mono, Ends-bind, Ends-pure, Ends-throw, Ends-caught, NotAbsent,
}
use mcp_memory_rs.World.Accesses.{Missed}
use mcp_memory_rs.AtomicJson.{
  Source, final_file, staged_file, parked_file, json_path, staged_prefix, deleted_prefix,
  staged_files, deleted_files, match_read, first_matching, committed_content,
}
use mcp_memory_rs.AtomicJson.Paths.{Candidate, is_final, is_staged, is_parked}
use mcp_memory_rs.AtomicJson.Reading.{
  Tried, Tried-Candidate, Unread, Read, Read-Attempted, Ends-read, Ends-listing,
}

module _ (hash : String → String) (n h : String) (d : Disk) where
  -- A file of the category has bytes of the hash.
  pub record Carried (content : String) : Type 0 where
    pub path : String
    pub is_candidate : Candidate n path
    pub found : find path d.files ≡ some content
    pub agrees : hash content ≡ h

  -- What is found is such a file, and where nothing is, there is none.
  abbrev pub Searched : Option (String × Source) → Type 0
  Searched (some (content, _)) = Carried content
  Searched none = (p b : String) → Candidate n p → find p d.files ≡ some b → hash b ≢ h

  abbrev OfCategory : List (String × Source) → Type 0
  OfCategory paths = All (λ (p : String × Source). Candidate n p.0) paths

  -- The same for the files that are left to try.
  abbrev SearchedIn : List (String × Source) → Option (String × Source) → Type 0
  SearchedIn paths (some (content, _)) = Carried content
  SearchedIn paths none = (p b : String) → Tried p paths → find p d.files ≡ some b → hash b ≢ h

  SearchedIn-later :
      (path : String) (s : Source) (rest : List (String × Source)) (r : Option (String × Source))
      → ((b : String) → find path d.files ≡ some b → hash b ≢ h)
      → SearchedIn rest r
      → SearchedIn ((path, s) ∷ rest) r
  SearchedIn-later path s rest (some (content, t)) k x = x
  SearchedIn-later path s rest none k x = λ p b m f. elim m [
    | inl e ↦ k b (subst (λ q. find q d.files ≡ some b) e f)
    | inr later ↦ x p b later f
  ]

  Ends-match_read :
      (path : String) (s : Source) (rest : List (String × Source)) (r : Attempt String)
      (later : Exec (Option (String × Source))) (u : World)
      → u.disk ≡ d
      → Candidate n path
      → Read path d r
      → Ends (λ r x. (x ≡ d) × SearchedIn rest r) (Unread d) (later u)
      → Ends
          (λ r x. (x ≡ d) × SearchedIn ((path, s) ∷ rest) r)
          (Unread d)
          (match_read hash r s h later u)
  unfolding match_read
  Ends-match_read path s rest (got c) later u e k read next = elim (Bool-cases (hash c == h)) [
    | inl q ↦ rw q (
        Ends-pure _ u (
          e,
          record { path = path; is_candidate = k; found = read; agrees = (eq_iff (hash c) h).0 q },
        ))
    | inr q ↦ rw q (
        Ends-mono
          (λ r x a.
            (a.0, SearchedIn-later path s rest r (λ b f g. ground (arith, eq_iff (hash c) h)) a.1))
          (λ _ x a. a) next)
  ]
  Ends-match_read path s rest (threw (io missing)) later u e k read next =
      Ends-mono (λ r x a. (a.0, SearchedIn-later path s rest r (λ b f g. cc (f, read.0 refl)) a.1))
        (λ _ x a. a) next
  Ends-match_read path s rest (threw (io other_io)) later u e k read next = Ends-throw _ u (e, tt)
  Ends-match_read path s rest (threw x) later u e k read next = Ends-throw _ u (e, read.1)

  Ends-first_matching :
      (paths : List (String × Source)) (w : World)
      → w.disk ≡ d
      → OfCategory paths
      → Ends (λ r x. (x ≡ d) × SearchedIn paths r) (Unread d) (first_matching hash paths h w)
  unfolding first_matching
  Ends-first_matching [] w e a = Ends-pure none w (e, λ p b m. elim m [ ])
  Ends-first_matching ((path, s) ∷ rest) w e (k, a) =
      Ends-bind {Q = λ r x. (x ≡ d) × Read path d r} (attempt (read_to_string path)) _ w
        (Ends-mono (λ r x a. Read-Attempted path d x r a) (λ _ x a. a)
          (Ends-caught (λ c x. (x ≡ d) × (find path d.files ≡ some c))
            (λ f x. (x ≡ d) × (Missed path d f × NotAbsent f)) (Unread d) (read_to_string path) w
            (Ends-read path d w e) (λ x a. (a.0, tt))))
        (λ r u b.
          Ends-match_read path s rest r (first_matching hash rest h) u b.0 k b.1
            (Ends-first_matching rest u b.0 a))

  All-map :
      (s : Source) (xs : List String)
      → All (λ p. Candidate n p) xs
      → OfCategory (map (λ p. (p, s)) xs)
  All-map s [] a = tt
  All-map s (x ∷ xs) (k, a) = (k, All-map s xs a)

  All-both :
      (xs ys : List (String × Source)) → OfCategory xs → OfCategory ys → OfCategory (xs ++ ys)
  All-both [] ys a b = b
  All-both (x ∷ xs) ys (k, a) b = (k, All-both xs ys a b)

  All-prefix :
      (q : String) (xs : List String)
      → ((p : String) → starts_with p q ≡ true → Candidate n p)
      → All (λ p. starts_with p q ≡ true) xs
      → All (λ p. Candidate n p) xs
  All-prefix q [] k a = tt
  All-prefix q (x ∷ xs) k (s, a) = (k x s, All-prefix q xs k a)

  listed-OfCategory :
      (staged parked : List String)
      → staged ≡ keep (λ f. starts_with f (staged_prefix n)) (keys d.files)
      → parked ≡ keep (λ f. starts_with f (deleted_prefix n)) (keys d.files)
      → OfCategory (
          (json_path n, final_file)
          ∷ (map (λ p. (p, staged_file)) staged ++ map (λ p. (p, parked_file)) parked))
  listed-OfCategory staged parked es ep =
      let of_staged : All (λ p. starts_with p (staged_prefix n) ≡ true) staged =
        rw es (All-keep (λ f. starts_with f (staged_prefix n)) (keys d.files)) in
      let of_parked : All (λ p. starts_with p (deleted_prefix n) ≡ true) parked =
        rw ep (All-keep (λ f. starts_with f (deleted_prefix n)) (keys d.files)) in
      (
        is_final refl,
        All-both (map (λ p. (p, staged_file)) staged) (map (λ p. (p, parked_file)) parked)
            (All-map staged_file staged (All-prefix _ staged (λ p s. is_staged s) of_staged))
            (All-map parked_file parked (All-prefix _ parked (λ p s. is_parked s) of_parked)),
      )

  Searched-listed :
      (staged parked : List String) (r : Option (String × Source))
      → staged ≡ keep (λ f. starts_with f (staged_prefix n)) (keys d.files)
      → parked ≡ keep (λ f. starts_with f (deleted_prefix n)) (keys d.files)
      → SearchedIn
          ((json_path n, final_file)
            ∷ (map (λ p. (p, staged_file)) staged ++ map (λ p. (p, parked_file)) parked))
          r
      → Searched r
  Searched-listed staged parked (some (content, s)) es ep x = x
  Searched-listed staged parked none es ep x =
      λ p b k f e. x p b (Tried-Candidate hash h d p b f e n staged parked k es ep) f e

  -- A reader of the category with the hash finds bytes of the hash in a file of the category, final,
  -- staged or parked, or finds nothing, and then no such file has bytes of the hash. Any access may
  -- fail: the reader then fails with an error that is no `NotFound`. The disk is left as it is.
  pub Ends-search :
      (w : World)
      → w.disk ≡ d
      → Ends (λ r x. (x ≡ d) × Searched r) (Unread d) (committed_content hash n h w)
  unfolding committed_content staged_files deleted_files
  Ends-search w e =
      Ends-bind (files_with_prefix (staged_prefix n)) _ w (Ends-listing (staged_prefix n) d w e)
        (λ staged u a.
          Ends-bind (files_with_prefix (deleted_prefix n)) _ u
            (Ends-listing (deleted_prefix n) d u a.0)
            (λ parked v b.
              Ends-mono (λ r x f. (f.0, Searched-listed staged parked r a.1 b.1 f.1)) (λ _ x f. f)
                (Ends-first_matching _ v b.0 (listed-OfCategory staged parked a.1 b.1))))
