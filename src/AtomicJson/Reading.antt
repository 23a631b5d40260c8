-- ===== src/AtomicJson/Reading.antt =====
-- `committed_content` of src/store/atomic_json.rs.
use mathlib.Core.Option.{some-injective}
use mcp_memory_rs.Common.{
  String, ◌≡◌, refl, ◌∙◌, ap, sym, subst, ◌⊎◌, inl, inr, true, Option, some, List, [], ◌∷◌, ◌++◌,
  map, arith, Bool-cases, eq_iff, ◌==◌, keep,
}
use mcp_memory_rs.Common.Among.{Among, Among-keep, Among-keys}
use mcp_memory_rs.Common.Map.{find, keys}
use mcp_memory_rs.Common.Text.{starts_with}
use mcp_memory_rs.Error.{io, missing, other_io}
use mcp_memory_rs.World.{
  Disk, World, Exec, Attempt, got, threw, attempt, read_to_string, files_with_prefix,
}
use mcp_memory_rs.World.Ends.{
  by_error, Ends, Ends-mono, Ends-bind, Ends-pure, Ends-throw, Ends-caught, Ends-both, Attempted,
  Fault, NotAbsent,
}
use mcp_memory_rs.World.Accesses.{Ends-read_to_string, Ends-files_with_prefix, Missed}
use mcp_memory_rs.World.Plain.{Plain-read_to_string, Plain-files_with_prefix}
use mcp_memory_rs.AtomicJson.{
  Source, final_file, staged_file, parked_file, json_path, staged_prefix, deleted_prefix,
  staged_files, deleted_files, match_read, first_matching, committed_content,
}
use mcp_memory_rs.AtomicJson.Paths.{Candidate, is_final, is_staged, is_parked}
use mcp_memory_rs.AtomicJson.Recoverable.{Healthy}

-- The files that are tried.
abbrev pub Tried : String → List (String × Source) → Type 0
Tried p [] = ⊥
Tried p ((q, _) ∷ rest) = (p ≡ q) ⊎ Tried p rest

Tried-map :
    (p : String) (s : Source) (xs : List String) (rest : List (String × Source))
    → Among p xs
    → Tried p (map (λ x. (x, s)) xs ++ rest)
Tried-map p s [] rest m = elim m [ ]
Tried-map p s (x ∷ xs) rest (inl e) = inl e
Tried-map p s (x ∷ xs) rest (inr m) = inr (Tried-map p s xs rest m)

Tried-later :
    (p : String) (s : Source) (xs : List String) (rest : List (String × Source))
    → Tried p rest
    → Tried p (map (λ x. (x, s)) xs ++ rest)
Tried-later p s [] rest m = m
Tried-later p s (x ∷ xs) rest m = inr (Tried-later p s xs rest m)

Tried-last :
    (p : String) (s : Source) (xs : List String) → Among p xs → Tried p (map (λ x. (x, s)) xs)
Tried-last p s [] m = elim m [ ]
Tried-last p s (x ∷ xs) (inl e) = inl e
Tried-last p s (x ∷ xs) (inr m) = inr (Tried-last p s xs m)

abbrev pub Read : String → Disk → Attempt String → Type 0
Read path d (got c) = find path d.files ≡ some c
Read path d (threw e) = Missed path d (by_error e) × NotAbsent (by_error e)

-- A fault of a reader: the disk is as it was, and the category was not called absent.
abbrev pub Unread : Disk → Fault → Disk → Type 0
Unread d f x = (x ≡ d) × NotAbsent f

pub Ends-read :
    (path : String) (d : Disk) (w : World)
    → w.disk ≡ d
    → Ends
        (λ c x. (x ≡ d) × (find path d.files ≡ some c))
        (λ f x. (x ≡ d) × (Missed path d f × NotAbsent f))
        (read_to_string path w)
Ends-read path d w e =
    Ends-mono (λ c x h. (h.0.0 ∙ e, subst (λ y. find path y.files ≡ some c) e h.0.1))
      (λ f x h. (h.0.0 ∙ e, (subst (λ y. Missed path y f) e h.0.1, h.1)))
      (Ends-both (read_to_string path w) (Ends-read_to_string path w) (Plain-read_to_string path w))

pub Read-Attempted :
    (path : String) (d d' : Disk) (r : Attempt String)
    → Attempted
        (λ c x. (x ≡ d) × (find path d.files ≡ some c))
        (λ f x. (x ≡ d) × (Missed path d f × NotAbsent f))
        r
        d'
    → (d' ≡ d) × Read path d r
Read-Attempted path d d' (got c) h = h
Read-Attempted path d d' (threw e) h = h

pub Ends-listing :
    (q : String) (d : Disk) (w : World)
    → w.disk ≡ d
    → Ends
        (λ paths x. (x ≡ d) × (paths ≡ keep (λ f. starts_with f q) (keys d.files)))
        (Unread d)
        (files_with_prefix q w)
Ends-listing q d w e =
    Ends-mono
      (λ paths x h. (h.0.0 ∙ e, h.0.1 ∙ ap (λ y. keep (λ f. starts_with f q) (keys y.files)) e))
      (λ f x h. (h.0 ∙ e, h.1))
      (Ends-both (files_with_prefix q w) (Ends-files_with_prefix q w) (Plain-files_with_prefix q w))

module _ (hash : String → String) (h : String) (d : Disk) where
  -- Content with the committed hash was found.
  pub record Matched (r : Option (String × Source)) : Type 0 where
    pub content : String
    pub source : Source
    pub returned : r ≡ some (content, source)
    pub agrees : hash content ≡ h

  abbrev Answer : Option (String × Source) → Disk → Type 0
  Answer r x = (x ≡ d) × Matched r

  module _ (carrier content : String) (found : find carrier d.files ≡ some content)
      (agrees : hash content ≡ h) where
    Ends-match_read :
        (path : String) (s : Source) (rest : List (String × Source)) (r : Attempt String)
        (later : Exec (Option (String × Source))) (u : World)
        → (u.disk ≡ d)
        → Read path d r
        → Tried carrier ((path, s) ∷ rest)
        → (Tried carrier rest → Ends Answer (Unread d) (later u))
        → Ends Answer (Unread d) (match_read hash r s h later u)
    unfolding match_read
    Ends-match_read path s rest (got c) later u e read tried k = elim (Bool-cases (hash c == h)) [
      | inl q ↦ rw q (
          Ends-pure _ u (
            e,
            record { content = c; source = s; returned = refl; agrees = (eq_iff (hash c) h).0 q },
          ))
      | inr q ↦ rw q (
          k (elim tried [
            | inl t ↦
                let cc' : content ≡ c =
                  some-injective _ _ (sym found ∙ ap (λ x. find x d.files) t ∙ read) in
                absurd (ground (arith, eq_iff (hash c) h, ap hash cc'))
            | inr t ↦ t
          ]))
    ]
    Ends-match_read path s rest (threw (io missing)) later u e read tried k = k (elim tried [
      | inl t ↦ absurd (cc (read.0 refl, ap (λ x. find x d.files) t, found))
      | inr t ↦ t
    ])
    Ends-match_read path s rest (threw (io other_io)) later u e read tried k =
        Ends-throw _ u (e, tt)
    Ends-match_read path s rest (threw x) later u e read tried k = Ends-throw _ u (e, read.1)

    Ends-first_matching :
        (paths : List (String × Source)) (w : World)
        → w.disk ≡ d
        → Tried carrier paths
        → Ends Answer (Unread d) (first_matching hash paths h w)
    unfolding first_matching
    Ends-first_matching [] w e tried = elim tried [ ]
    Ends-first_matching ((path, s) ∷ rest) w e tried =
        Ends-bind {Q = λ r x. (x ≡ d) × Read path d r} (attempt (read_to_string path)) _ w
          (Ends-mono (λ r x a. Read-Attempted path d x r a) (λ _ x a. a)
            (Ends-caught (λ c x. (x ≡ d) × (find path d.files ≡ some c))
              (λ f x. (x ≡ d) × (Missed path d f × NotAbsent f)) (Unread d) (read_to_string path) w
              (Ends-read path d w e) (λ x a. (a.0, tt))))
          (λ r u a.
            Ends-match_read path s rest r (first_matching hash rest h) u a.0 a.1 tried
              (λ t. Ends-first_matching rest u a.0 t))

    found-Among :
        (q : String)
        → starts_with carrier q ≡ true
        → Among carrier (keep (λ f. starts_with f q) (keys d.files))
    found-Among q s = elim (Among-keys carrier d.files) [
      | inl e ↦ absurd (cc (e, found))
      | inr m ↦ Among-keep (λ f. starts_with f q) carrier (keys d.files) s m
    ]

    pub Tried-Candidate :
        (n : String) (staged parked : List String)
        → Candidate n carrier
        → staged ≡ keep (λ f. starts_with f (staged_prefix n)) (keys d.files)
        → parked ≡ keep (λ f. starts_with f (deleted_prefix n)) (keys d.files)
        → Tried carrier (
            (json_path n, final_file)
            ∷ (map (λ p. (p, staged_file)) staged ++ map (λ p. (p, parked_file)) parked))
    Tried-Candidate n staged parked (is_final e) es ep = inl e
    Tried-Candidate n staged parked (is_staged s) es ep = inr (
        Tried-map carrier staged_file staged _
          (subst (Among carrier) (sym es) (found-Among (staged_prefix n) s)))
    Tried-Candidate n staged parked (is_parked s) es ep = inr (
        Tried-later carrier staged_file staged _ (
          Tried-last carrier parked_file parked
            (subst (Among carrier) (sym ep) (found-Among (deleted_prefix n) s))))

  -- If the category is healthy, `committed_content` returns content with the hash, or fails with an
  -- error that is no `NotFound`; it leaves the disk as it is.
  pub Ends-committed_content :
      (n : String) (w : World)
      → w.disk ≡ d
      → Healthy hash n h d.files
      → Ends (λ r x. (x ≡ d) × Matched r) (Unread d) (committed_content hash n h w)
  unfolding committed_content staged_files deleted_files
  Ends-committed_content n w e healthy =
      Ends-bind (files_with_prefix (staged_prefix n)) _ w (Ends-listing (staged_prefix n) d w e)
        (λ staged u a.
          Ends-bind (files_with_prefix (deleted_prefix n)) _ u
            (Ends-listing (deleted_prefix n) d u a.0)
            (λ parked v b.
              Ends-first_matching healthy.carrier healthy.content healthy.found healthy.agrees _ v
                b.0
                (Tried-Candidate healthy.carrier healthy.content healthy.found healthy.agrees n
                  staged parked healthy.is_candidate a.1 b.1)))
