-- ===== src/Store/Readers.antt =====
-- `read_consistent` of src/store/mod.rs beside other processes: it takes no lock, and they may change the
-- store while it runs.
use mcp_memory_rs.Common.{
  ℕ, zero, suc, String, ◌≡◌, refl, ◌∙◌, ap, sym, subst, ◌⊎◌, inl, inr, Option, none, some, List,
}
use mcp_memory_rs.Common.Map.{find}
use mcp_memory_rs.Error.{io, missing, other_io, inconsistent}
use mcp_memory_rs.Db.{CategoryMeta}
use mcp_memory_rs.World.{Disk, World, Exec, Attempt, got, threw, attempt, read_to_string}
use mcp_memory_rs.World.Ends.{
  Fault, NotAbsent, Ends, Ends-mono, Ends-bind, Ends-pure, Ends-throw, Ends-caught, Ends-both,
  Attempted,
}
use mcp_memory_rs.World.Accesses.{Ends-query, Missed}
use mcp_memory_rs.World.Plain.{Plain-query}
use mcp_memory_rs.AtomicJson.{Source, json_path, committed_content}
use mcp_memory_rs.AtomicJson.Reading.{Read, Read-Attempted, Ends-read}
use mcp_memory_rs.AtomicJson.Searching.{Carried, Searched, Ends-search}
use mcp_memory_rs.Codec.{Codec}
use mcp_memory_rs.Store.Read.{
  Others, get_meta, list, missing_category, read_orphan, serve, read_round, read_rounds,
  read_consistent_among,
}

-- A round of a reader that starts at `d`: the disk when the row is read, and when the files are.
pub data Round (others : Others) : ℕ → Disk → Disk → Disk → Type 0 where
  first : (n : ℕ) (d : Disk) → Round others (suc n) d d ((others n).0 d)
  later :
      (n : ℕ) (d d1 d2 : Disk)
      → Round others n ((others n).1 ((others n).0 d)) d1 d2
      → Round others (suc n) d d1 d2

-- A disk that the reader meets.
pub data Met (others : Others) : ℕ → Disk → Disk → Type 0 where
  at_row : (n : ℕ) (d : Disk) → Met others n d d
  at_files : (n : ℕ) (d : Disk) → Met others (suc n) d ((others n).0 d)
  next :
      (n : ℕ) (d x : Disk) → Met others n ((others n).1 ((others n).0 d)) x → Met others (suc n) d x

module _ (c : Codec) (name : String) where
  -- What was served was read in one round: with a row, its bytes from a file of the category; without
  -- one, those of the final file.
  abbrev pub ReadAt : Disk → Disk → (String × Option CategoryMeta) → Type 0
  ReadAt d1 d2 (content, some row) =
      (find name d1.db.category ≡ some row) × Carried c.hash name row.content_hash d2 content
  ReadAt d1 d2 (content, none) =
      (find name d1.db.category ≡ none) × (find (json_path name) d2.files ≡ some content)

  abbrev pub Lacking : Disk → Disk → Type 0
  Lacking d1 d2 = (find name d1.db.category ≡ none) × (find (json_path name) d2.files ≡ none)

  module _ (others : Others) where
    pub record Served (n : ℕ) (d : Disk) (r : String × Option CategoryMeta) (x : Disk)
        : Type 0 where
      pub row_read : Disk
      pub files_read : Disk
      pub round : Round others n d row_read files_read
      pub left_at : x ≡ files_read
      pub is_read : ReadAt row_read files_read r

    -- In some round there was neither a row nor a final file.
    pub record Absent (n : ℕ) (d : Disk) : Type 0 where
      pub row_read : Disk
      pub files_read : Disk
      pub round : Round others n d row_read files_read
      pub lacking : Lacking row_read files_read

    abbrev pub Unserved : ℕ → Disk → Fault → Disk → Type 0
    Unserved n d f x = Met others n d x × (NotAbsent f ⊎ Absent n d)

    Served-later :
        (n : ℕ) (d : Disk) (r : String × Option CategoryMeta) (x : Disk)
        → Served n ((others n).1 ((others n).0 d)) r x
        → Served (suc n) d r x
    Served-later n d r x s = record {
      row_read = s.row_read;
      files_read = s.files_read;
      round = later n d s.row_read s.files_read s.round;
      left_at = s.left_at;
      is_read = s.is_read;
    }

    Unserved-later :
        (n : ℕ) (d : Disk) (f : Fault) (x : Disk)
        → Unserved n ((others n).1 ((others n).0 d)) f x
        → Unserved (suc n) d f x
    Unserved-later n d f x (m, inl q) = (next n d x m, inl q)
    Unserved-later n d f x (m, inr a) = (
      next n d x m,
      inr (record {
        row_read = a.row_read;
        files_read = a.files_read;
        round = later n d a.row_read a.files_read a.round;
        lacking = a.lacking;
      }),
    )

    module _ (n : ℕ) (d : Disk) where
      abbrev at : Disk
      at = (others n).0 d

      abbrev Failed : Fault → Disk → Type 0
      Failed f x = (x ≡ at) × (NotAbsent f ⊎ Absent (suc n) d)

      Unserved-Failed : (f : Fault) (x : Disk) → Failed f x → Unserved (suc n) d f x
      Unserved-Failed f x (e, k) = (subst (Met others (suc n) d) (sym e) (at_files n d), k)

      Ends-missing :
          {A : Type 0} (Q : A → Disk → Type 0) (u : World)
          → u.disk ≡ at
          → Absent (suc n) d
          → Ends Q Failed (missing_category {A = A} name u)
      unfolding missing_category list
      Ends-missing Q u e k =
          Ends-bind {Q = λ _ x. x ≡ at} (attempt list) _ u
            (Ends-mono (λ r x h. settled r x h) (λ f x h. h)
              (Ends-caught (λ _ x. x ≡ at) (λ _ x. x ≡ at) Failed list u
                (Ends-mono (λ _ x h. h.0 ∙ e) (λ _ x h. h ∙ e) (Ends-query _ u))
                (λ x h. (h, inl tt))))
            (λ r v h. Ends-throw _ v (h, inr k))
        where
          settled :
              (r : Attempt (List CategoryMeta)) (x : Disk)
              → Attempted (λ _ x. x ≡ at) (λ _ x. x ≡ at) r x
              → x ≡ at
          settled (got _) x h = h
          settled (threw _) x h = h

      Ends-orphan :
          (r : Attempt String) (u : World)
          → u.disk ≡ at
          → find name d.db.category ≡ none
          → Read (json_path name) at r
          → Ends (Served (suc n) d) Failed (read_orphan c name r u)
      unfolding read_orphan
      Ends-orphan (got content) u e g h = Ends-pure _ u (record {
        row_read = d;
        files_read = at;
        round = first n d;
        left_at = e;
        is_read = (g, h);
      })
      Ends-orphan (threw (io missing)) u e g h =
          Ends-missing _ u e
            (record { row_read = d; files_read = at; round = first n d; lacking = (g, h.0 refl) })
      Ends-orphan (threw (io other_io)) u e g h = Ends-throw _ u (e, inl tt)
      Ends-orphan (threw x) u e g h = Ends-throw _ u (e, inl h.1)

      Ends-serve :
          (row : CategoryMeta) (r : Option (String × Source))
          (rest : Exec (String × Option CategoryMeta)) (u : World)
          → u.disk ≡ at
          → find name d.db.category ≡ some row
          → Searched c.hash name row.content_hash at r
          → Ends (Served (suc n) d) (Unserved (suc n) d) (rest u)
          → Ends (Served (suc n) d) (Unserved (suc n) d) (serve c r row rest u)
      unfolding serve
      Ends-serve row none rest u e g h k = k
      Ends-serve row (some (content, source)) rest u e g h k = Ends-pure _ u (record {
        row_read = d;
        files_read = at;
        round = first n d;
        left_at = e;
        is_read = (g, h);
      })

      Ends-round :
          (o : Option CategoryMeta) (rest : Exec (String × Option CategoryMeta)) (u : World)
          → u.disk ≡ at
          → find name d.db.category ≡ o
          → ((v : World) → v.disk ≡ at → Ends (Served (suc n) d) (Unserved (suc n) d) (rest v))
          → Ends (Served (suc n) d) (Unserved (suc n) d) (read_round c o name rest u)
      unfolding read_round
      Ends-round (some row) rest u e g k =
          Ends-bind (committed_content c.hash name row.content_hash) _ u
            (Ends-mono (λ _ x h. h) (λ f x h. Unserved-Failed f x (h.0, inl h.1))
              (Ends-search c.hash name row.content_hash at u e))
            (λ r v h. Ends-serve row r rest v h.0 g h.1 (k v h.0))
      Ends-round none rest u e g k =
          Ends-mono (λ _ _ h. h) (λ f x h. Unserved-Failed f x h)
            (Ends-bind (attempt (read_to_string (json_path name))) _ u
              (Ends-mono (λ r x a. Read-Attempted (json_path name) at x r a) (λ _ x a. a)
                (Ends-caught (λ b x. (x ≡ at) × (find (json_path name) at.files ≡ some b))
                  (λ f x. (x ≡ at) × (Missed (json_path name) at f × NotAbsent f)) Failed
                  (read_to_string (json_path name)) u (Ends-read (json_path name) at u e)
                  (λ x a. (a.0, inl tt))))
              (λ r v h. Ends-orphan r v h.0 g h.1))

    pub Ends-read_rounds :
        (n : ℕ) (d : Disk) (w : World)
        → w.disk ≡ d
        → Ends (Served n d) (Unserved n d) (read_rounds c others n name w)
    unfolding read_rounds get_meta
    Ends-read_rounds zero d w e =
        Ends-throw (inconsistent name) w (subst (Met others zero d) (sym e) (at_row zero d), inl tt)
    Ends-read_rounds (suc n) d w e =
        Ends-bind {Q = λ o x. (x ≡ d) × (o ≡ find name d.db.category)} (get_meta name) _ w
          (Ends-mono (λ o x h. (h.0.0 ∙ e, h.0.1 ∙ ap (λ y. find name y.db.category) e))
            (λ f x h. (subst (Met others (suc n) d) (sym (h.0 ∙ e)) (at_row (suc n) d), inl h.1))
            (Ends-both (get_meta name w) (Ends-query (λ t. find name t.category) w)
              (Plain-query (λ t. find name t.category) w)))
          (λ o u h.
            Ends-round n d o _ (record u { disk = (others n).0 u.disk }) (ap (others n).0 h.0)
              (sym h.1)
              (λ v k.
                Ends-mono (λ r x s. Served-later n d r x s) (λ f x s. Unserved-later n d f x s)
                  (Ends-read_rounds n ((others n).1 ((others n).0 d))
                    (record v { disk = (others n).1 v.disk }) (ap (others n).1 k))))

    -- Whatever other processes do to the store between the read of the row and that of the files, and
    -- between the rounds, a reader serves a row together with bytes of its hash from a file of the
    -- category, final, staged or parked, both read in one of the 40 rounds; or, where there was no row
    -- in that round, the bytes of the final file without a row. It fails with `NotFound` only where in
    -- some round there was neither a row nor a final file, and it changes nothing itself. The store need
    -- not be recoverable, and any access may fail.
    pub Ends-read_consistent_among :
        (w : World)
        → Ends (Served 40 w.disk) (Unserved 40 w.disk) (read_consistent_among c others name w)
    unfolding read_consistent_among
    Ends-read_consistent_among w = Ends-read_rounds 40 w.disk w refl
