-- ===== src/Recovery/Checking.antt =====
-- The preflight of `adopt_plan` of src/store/recovery.rs.
use mcp_memory_rs.Common.{
  String, ◌≡◌, refl, ◌∙◌, ap, sym, subst, ◌⊎◌, inl, inr, Bool, true, false, Option, none, some,
  List, [], ◌∷◌, ◌==◌, eq_iff, is_text, is_text→eq, opt_text_eq, opt_text_eq→eq, All, Bool-cases,
}
use mcp_memory_rs.Common.Map.{Map, find}
use mcp_memory_rs.Json.{Value}
use mcp_memory_rs.Error.{json}
use mcp_memory_rs.Db.{CategoryMeta, Tables, hash_of_row}
use mcp_memory_rs.World.{Disk, World, ◌>>=◌, ◌>>◌, read_to_string}
use mcp_memory_rs.World.Ends.{Ends, Ends-mono, Ends-bind, Ends-pure, Ends-throw}
use mcp_memory_rs.World.Accesses.{Ends-query}
use mcp_memory_rs.AtomicJson.{json_path}
use mcp_memory_rs.AtomicJson.Paths.{IsStaged, IsParked}
use mcp_memory_rs.AtomicJson.Reading.{Ends-read}
use mcp_memory_rs.AtomicJson.Settling.Pending.{pending, has_pending_lem, nothing-pending}
use mcp_memory_rs.Codec.{Codec}
use mcp_memory_rs.Store.Read.{get_meta, or_throw}
use mcp_memory_rs.Store.Guards.{Ends-validated}
use mcp_memory_rs.Recovery.Plan.{PlanEntry}
use mcp_memory_rs.Recovery.Adopt.{
  Todo, guard_valid, guard_pending, guard_file, work_entries, todo_of, check_entry, check_entries,
}

module _ (c : Codec) (f0 : Map String) (s0 : Tables) where
  -- Inside the transaction: the rows are `k`.
  pub record Open (k : Map CategoryMeta) (d : Disk) : Type 0 where
    pub files_are : d.files ≡ f0
    pub saved_is : d.saved ≡ s0
    pub is_listed : d.unlisted ≡ false
    pub rows_are : d.db.category ≡ k

  -- The transaction can still be given up.
  abbrev pub Undone : Disk → Type 0
  Undone d = (d.files ≡ f0) × (d.saved ≡ s0)

  pub Undone-Open : {k : Map CategoryMeta} (d : Disk) → Open k d → Undone d
  Undone-Open d o = (o.files_are, o.saved_is)

  -- The file of an entry is as the plan says, nothing is staged or parked for it, and what is left to
  -- do is what its row says.
  pub record Checked (entry : PlanEntry) (todo : Todo) : Type 0 where
    pub content : String
    pub found : find (json_path entry.name) f0 ≡ some content
    pub hash_is : c.hash content ≡ entry.file_hash
    pub unstaged : (p : String) → IsStaged entry.name p → find p f0 ≡ none
    pub unparked : (p : String) → IsParked entry.name p → find p f0 ≡ none
    pub left :
        ((todo ≡ none) × (hash_of_row (find entry.name s0.category) ≡ some entry.file_hash))
        ⊎ ((v : Value) × (todo ≡ some (content, v, hash_of_row (find entry.name s0.category)))
            × (hash_of_row (find entry.name s0.category) ≡ entry.db_hash))

  module _ {P : Disk → Type 0} (undone : (d : Disk) → P d → Undone d) where
    Ends-guard_valid :
        (entry : PlanEntry) (w : World)
        → P w.disk
        → Ends (λ _ d. P d) (λ _ d. Undone d) (guard_valid entry w)
    unfolding guard_valid
    Ends-guard_valid entry w p = elim (Bool-cases (entry.kind == "invalid")) [
      | inl e ↦ rw e (Ends-throw _ w (undone w.disk p))
      | inr e ↦ rw e (Ends-pure tt w p)
    ]

    Ends-guard_pending :
        (b : Bool) (name : String) (w : World)
        → P w.disk
        → Ends (λ _ d. P d × (b ≡ false)) (λ _ d. Undone d) (guard_pending b name w)
    unfolding guard_pending
    Ends-guard_pending true name w p = Ends-throw _ w (undone w.disk p)
    Ends-guard_pending false name w p = Ends-pure tt w (p, refl)

    Ends-guard_file :
        (entry : PlanEntry) (hash : String) (w : World)
        → P w.disk
        → Ends (λ _ d. P d × (hash ≡ entry.file_hash)) (λ _ d. Undone d) (guard_file entry hash w)
    unfolding guard_file
    Ends-guard_file entry hash w p = elim (Bool-cases (hash == entry.file_hash)) [
      | inl e ↦ rw e (Ends-pure tt w (p, (eq_iff hash entry.file_hash).0 e))
      | inr e ↦ rw e (Ends-throw _ w (undone w.disk p))
    ]

    Ends-or_throw :
        (o : Option Value) (w : World)
        → P w.disk
        → Ends (λ _ d. P d) (λ _ d. Undone d) (or_throw o json w)
    Ends-or_throw none w p = Ends-throw json w (undone w.disk p)
    Ends-or_throw (some v) w p = Ends-pure v w p

  Ends-todo_of :
      (entry : PlanEntry) (content : String) (v : Value) (h : Option String) (w : World)
      → Open s0.category w.disk
      → h ≡ hash_of_row (find entry.name s0.category)
      → find (json_path entry.name) f0 ≡ some content
      → c.hash content ≡ entry.file_hash
      → ((p : String) → IsStaged entry.name p → find p f0 ≡ none)
      → ((p : String) → IsParked entry.name p → find p f0 ≡ none)
      → Ends
          (λ todo d. Open s0.category d × Checked entry todo)
          (λ _ d. Undone d)
          (todo_of entry content v (c.hash content) h w)
  unfolding todo_of
  Ends-todo_of entry content v h w o e f hash staged parked =
      elim (Bool-cases (is_text h (c.hash content))) [
        | inl q ↦ rw q (
            Ends-pure none w (
              o,
              record {
                content = content;
                found = f;
                hash_is = hash;
                unstaged = staged;
                unparked = parked;
                left = inl (refl, sym e ∙ is_text→eq h (c.hash content) q ∙ ap (λ x. some x) hash);
              },
            ))
        | inr q ↦ elim (Bool-cases (opt_text_eq h entry.db_hash)) [
          | inl s ↦
              rw (q, s)
                (Ends-pure (some (content, v, h)) w (
                  o,
                  record {
                    content = content;
                    found = f;
                    hash_is = hash;
                    unstaged = staged;
                    unparked = parked;
                    left = inr (
                      v,
                      ap (λ x. some (content, v, x)) e,
                      sym e ∙ opt_text_eq→eq h entry.db_hash s,
                    );
                  },
                ))
          | inr s ↦ rw (q, s) (Ends-throw _ w (Undone-Open w.disk o))
        ]
      ]

  Ends-get_meta :
      (n : String) (w : World)
      → Open s0.category w.disk
      → Ends
          (λ row d. Open s0.category d × (hash_of_row row ≡ hash_of_row (find n s0.category)))
          (λ _ d. Undone d)
          (get_meta n w)
  unfolding get_meta
  Ends-get_meta n w o =
      Ends-mono
        (λ row d h. (
          subst (Open s0.category) (sym h.0) o,
          ap hash_of_row (h.1 ∙ ap (λ k. find n k) o.rows_are),
        ))
        (λ _ d e. subst Undone (sym e) (Undone-Open w.disk o))
        (Ends-query (λ t. find n t.category) w)

  Ends-read-Open :
      (path : String) (w : World)
      → Open s0.category w.disk
      → Ends
          (λ content d. Open s0.category d × (find path f0 ≡ some content))
          (λ _ d. Undone d)
          (read_to_string path w)
  Ends-read-Open path w o =
      Ends-mono
        (λ content d h.
          (subst (Open s0.category) (sym h.0) o, ap (λ f. find path f) (sym o.files_are) ∙ h.1))
        (λ _ d h. subst Undone (sym h.0) (Undone-Open w.disk o)) (Ends-read path w.disk w refl)

  -- The rest of the preflight of an entry, once nothing is pending.
  Ends-check_file :
      (entry : PlanEntry) (w : World)
      → Open s0.category w.disk
      → ((p : String) → IsStaged entry.name p → find p f0 ≡ none)
      → ((p : String) → IsParked entry.name p → find p f0 ≡ none)
      → Ends
          (λ todo d. Open s0.category d × Checked entry todo)
          (λ _ d. Undone d)
          ((do
            content ← read_to_string (json_path entry.name)
            value ← or_throw (c.from_str content) json
            guard_file entry (c.hash content)
            row ← get_meta entry.name
            todo_of entry content value (c.hash content) (hash_of_row row))
            w)
  Ends-check_file entry w o staged parked =
      Ends-bind (read_to_string (json_path entry.name)) _ w
        (Ends-read-Open (json_path entry.name) w o)
        (λ content w1 h1.
          Ends-bind (or_throw (c.from_str content) json) _ w1
            (Ends-or_throw Undone-Open (c.from_str content) w1 h1.0)
            (λ v w2 o2.
              Ends-bind (guard_file entry (c.hash content)) _ w2
                (Ends-guard_file Undone-Open entry (c.hash content) w2 o2)
                (λ _ w3 h3.
                  Ends-bind (get_meta entry.name) _ w3 (Ends-get_meta entry.name w3 h3.0)
                    (λ row w4 h4.
                      Ends-todo_of entry content v (hash_of_row row) w4 h4.0 h4.1 h1.1 h3.1 staged
                        parked))))

  pub Ends-check_entry :
      (entry : PlanEntry) (w : World)
      → Open s0.category w.disk
      → Ends
          (λ todo d. Open s0.category d × Checked entry todo)
          (λ _ d. Undone d)
          (check_entry c entry w)
  unfolding check_entry
  Ends-check_entry entry w o =
      Ends-validated entry.name _ w (λ _. Undone-Open w.disk o)
        (Ends-bind (guard_valid entry) _ w (Ends-guard_valid Undone-Open entry w o) (λ _ w1 o1.
          rw (has_pending_lem entry.name w1 o1.is_listed) (
            Ends-bind (guard_pending (pending entry.name w1) entry.name) _ w1
              (Ends-guard_pending Undone-Open (pending entry.name w1) entry.name w1 o1)
              (λ _ w2 h2.
                let (staged, parked) = nothing-pending entry.name w1 h2.1 in
                Ends-check_file entry w2 h2.0
                  (λ p s. ap (λ f. find p f) (sym o1.files_are) ∙ staged p s)
                  (λ p s. ap (λ f. find p f) (sym o1.files_are) ∙ parked p s)))))

  -- The work of a plan.
  abbrev pub AllChecked : List (PlanEntry × Todo) → Type 0
  AllChecked work = All (λ (p : PlanEntry × Todo). Checked p.0 p.1) work

  pub Ends-check_entries :
      (entries : List PlanEntry) (w : World)
      → Open s0.category w.disk
      → Ends
          (λ work d. Open s0.category d × AllChecked work × (work_entries work ≡ entries))
          (λ _ d. Undone d)
          (check_entries c entries w)
  unfolding check_entries
  Ends-check_entries [] w o = Ends-pure [] w (o, tt, refl)
  Ends-check_entries (entry ∷ entries) w o =
      Ends-bind (check_entry c entry) _ w (Ends-check_entry entry w o) (λ todo w1 h1.
        Ends-bind (check_entries c entries) _ w1 (Ends-check_entries entries w1 h1.0) (λ work w2 h2.
          Ends-pure ((entry, todo) ∷ work) w2 (h2.0, (h1.1, h2.1), ap (λ es. entry ∷ es) h2.2)))
