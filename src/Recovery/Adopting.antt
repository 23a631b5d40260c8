-- ===== src/Recovery/Adopting.antt =====
-- The application of a checked plan by `adopt_plan` of src/store/recovery.rs: one row after the other.
use mcp_memory_rs.Common.{
  ℕ, ◌+◌, String, ◌≡◌, refl, ◌∙◌, ap, sym, subst, ◌⊎◌, inl, inr, Option, none, some, List, [], ◌∷◌,
  ◌==◌, eq_iff, Bool-cases,
}
use mathlib.Core.Path.{ap₂}
use mcp_memory_rs.Common.Among.{Among}
use mcp_memory_rs.Common.Map.{Map, find}
use mcp_memory_rs.Json.{Value}
use mcp_memory_rs.Db.{CategoryMeta, Tables, hash_of_row}
use mcp_memory_rs.World.{Disk, World}
use mcp_memory_rs.World.Ends.{Ends, Ends-mono, Ends-bind, Ends-pure}
use mcp_memory_rs.AtomicJson.{json_path, copy_out}
use mcp_memory_rs.Codec.{Codec, Times}
use mcp_memory_rs.Store.Rows.{new_meta}
use mcp_memory_rs.Recovery.Plan.{PlanEntry}
use mcp_memory_rs.Recovery.Adopt.{
  AdoptOutcome, adopted, Todo, adopt_reason, adopted_copy, adopt_row, adopt_entry, adopt_work,
  names_of, outcome_names, work_entries,
}
use mcp_memory_rs.Recovery.Checking.{Checked, AllChecked}
use mcp_memory_rs.Recovery.Entry.{
  Opened, GivenUp, Ends-adopted_rows, Moved, Ends-adopt_row, Ends-copy_found,
}

module _ (c : Codec) (f0 : Map String) (s0 : Tables) where
  -- The row of a category has the hash of its file.
  pub record Agrees (n : String) (k : Map CategoryMeta) : Type 0 where
    pub content : String
    pub in_file : find (json_path n) f0 ≡ some content
    pub in_row : hash_of_row (find n k) ≡ some (c.hash content)

  abbrev pub Progress : Map CategoryMeta → Type 0
  Progress k = (n : String) → Agrees n k ⊎ (find n k ≡ find n s0.category)

  -- From the rows `k` to `k'` only the named categories change, and they agree then.
  pub record Stepped (names : List String) (k k' : Map CategoryMeta) : Type 0 where
    pub set : (n : String) → Among n names → Agrees n k'
    pub others : (n : String) → (Among n names → ⊥) → find n k' ≡ find n k
    pub stays : (n : String) → Agrees n k → Agrees n k'

  pub record Advanced (names : List String) (k : Map CategoryMeta) (d : Disk) : Type 0 where
    pub rows : Map CategoryMeta
    pub opened : Opened c f0 s0 rows d
    pub progress : Progress rows
    pub stepped : Stepped names k rows

  Agrees-same :
      (n : String) (k k' : Map CategoryMeta) → find n k' ≡ find n k → Agrees n k → Agrees n k'
  Agrees-same n k k' e a = record {
    content = a.content;
    in_file = a.in_file;
    in_row = ap hash_of_row e ∙ a.in_row;
  }

  -- One row was set to the hash of its file.
  Advanced-Moved :
      (n content : String) (k k' : Map CategoryMeta) (d : Disk)
      → find (json_path n) f0 ≡ some content
      → Progress k
      → Opened c f0 s0 k' d
      → Moved c f0 s0 n (c.hash content) k k'
      → Advanced (n ∷ []) k d
  Advanced-Moved n content k k' d f p o m =
      let here : Agrees n k' = record { content = content; in_file = f; in_row = m.found } in
      let at : (j : String) → j ≡ n → Agrees j k' = λ j e. subst (λ x. Agrees x k') (sym e) here in
      record {
        rows = k';
        opened = o;
        progress = λ j. elim (Bool-cases (j == n)) [
          | inl e ↦ inl (at j ((eq_iff j n).0 e))
          | inr e ↦
              let same : find j k' ≡ find j k = m.others j (λ q. cc (e, (eq_iff j n).1 q)) in
              elim (p j) [ inl a ↦ inl (Agrees-same j k k' same a) | inr a ↦ inr (same ∙ a) ]
        ];
        stepped = record {
          set = λ j a. elim a [ inl e ↦ at j e | inr x ↦ elim x [ ] ];
          others = λ j apart. m.others j (λ e. apart (inl e));
          stays = λ j a. elim (Bool-cases (j == n)) [
            | inl e ↦ at j ((eq_iff j n).0 e)
            | inr e ↦ Agrees-same j k k' (m.others j (λ q. cc (e, (eq_iff j n).1 q))) a
          ];
        };
      }

  -- The row agreed before.
  Advanced-same :
      (n : String) (k : Map CategoryMeta) (d : Disk)
      → Progress k
      → Opened c f0 s0 k d
      → Agrees n k
      → Advanced (n ∷ []) k d
  Advanced-same n k d p o a = record {
    rows = k;
    opened = o;
    progress = p;
    stepped = record {
      set = λ j m. elim m [ inl e ↦ subst (λ x. Agrees x k) (sym e) a | inr x ↦ elim x [ ] ];
      others = λ j apart. refl;
      stays = λ j b. b;
    };
  }

  Agrees-Progress :
      (entry : PlanEntry) (content : String) (k : Map CategoryMeta)
      → Progress k
      → find (json_path entry.name) f0 ≡ some content
      → hash_of_row (find entry.name s0.category) ≡ some (c.hash content)
      → Agrees entry.name k
  Agrees-Progress entry content k p f e = elim (p entry.name) [
    | inl a ↦ a
    | inr same ↦ record { content = content; in_file = f; in_row = ap hash_of_row same ∙ e }
  ]

  row_there :
      (o : Option CategoryMeta) (h : String)
      → hash_of_row o ≡ some h
      → (row : CategoryMeta) × (o ≡ some row)
  row_there none h e = cc
  row_there (some row) h e = (row, refl)

  has_row :
      (n h : String) (k : Map CategoryMeta)
      → Progress k
      → hash_of_row (find n s0.category) ≡ some h
      → (row : CategoryMeta) × (find n k ≡ some row)
  has_row n h k p e = elim (p n) [
    | inl a ↦ row_there (find n k) _ a.in_row
    | inr same ↦ row_there (find n k) h (ap hash_of_row same ∙ e)
  ]

  -- What an entry that is not done yet comes to.
  Ends-adopt_some :
      (entry : PlanEntry) (content : String) (v : Value) (h : Option String) (t : Times)
      (k : Map CategoryMeta) (w : World)
      → find (json_path entry.name) f0 ≡ some content
      → h ≡ hash_of_row (find entry.name s0.category)
      → Progress k
      → Opened c f0 s0 k w.disk
      → Ends
          (λ o d. (o.0 ≡ entry.name) × Advanced (entry.name ∷ []) k d)
          (λ _ d. GivenUp c f0 s0 d)
          (adopt_entry c entry (some (content, v, h)) t w)
  unfolding adopt_entry copy_out new_meta
  Ends-adopt_some entry content v h t k w f e p o =
      let name : String = entry.name in
      let m : CategoryMeta = new_meta c name content (c.hash content) t.now "recovery" in
      let result : String × AdoptOutcome =
        (name, adopted h (c.hash content) (adopted_copy c name t.backup_at)) in
      Ends-bind (copy_out (json_path name) (adopted_copy c name t.backup_at)) _ w
        (Ends-copy_found c f0 s0 (find (json_path name) w.files) (adopted_copy c name t.backup_at) k
          w o)
        (λ _ w1 o1.
          Ends-bind (adopt_row c h m) _ w1
            (Ends-adopt_row c f0 s0 h m k w1 (λ x q. has_row name x k p (sym e ∙ q)) o1)
            (λ _ w2 r.
              Ends-mono
                (λ x d y. (
                  ap (λ (z : String × AdoptOutcome). z.0) y.0,
                  Advanced-Moved name content k r.0 d f p y.1 r.2,
                ))
                (λ _ d x. x)
                (Ends-adopted_rows c f0 s0 name (c.hash content) (some (adopt_reason h)) v t result
                  r.0 w2 r.1)))

  Ends-adopt_entry :
      (entry : PlanEntry) (todo : Todo) (t : Times) (k : Map CategoryMeta) (w : World)
      → Checked c f0 s0 entry todo
      → Progress k
      → Opened c f0 s0 k w.disk
      → Ends
          (λ o d. (o.0 ≡ entry.name) × Advanced (entry.name ∷ []) k d)
          (λ _ d. GivenUp c f0 s0 d)
          (adopt_entry c entry todo t w)
  Ends-adopt_entry entry todo t k w checked p o = elim checked.left [
    | inl (e, same) ↦
        subst
          (λ todo.
            Ends (λ o d. (o.0 ≡ entry.name) × Advanced (entry.name ∷ []) k d)
              (λ _ d. GivenUp c f0 s0 d) (adopt_entry c entry todo t w))
          (sym e)
          (done (
            Agrees-Progress entry checked.content k p checked.found
              (same ∙ ap (λ x. some x) (sym checked.hash_is))))
    | inr (v, e, q) ↦
        subst
          (λ todo.
            Ends (λ o d. (o.0 ≡ entry.name) × Advanced (entry.name ∷ []) k d)
              (λ _ d. GivenUp c f0 s0 d) (adopt_entry c entry todo t w))
          (sym e) (Ends-adopt_some entry checked.content v _ t k w checked.found refl p o)
  ]
    where
      done :
          Agrees entry.name k
          → Ends
              (λ o d. (o.0 ≡ entry.name) × Advanced (entry.name ∷ []) k d)
              (λ _ d. GivenUp c f0 s0 d)
              (adopt_entry c entry none t w)
      done a = unfold adopt_entry in Ends-pure _ w (refl, Advanced-same entry.name k w.disk p o a)

  Stepped-cons :
      (n : String) (names : List String) (k k1 k2 : Map CategoryMeta)
      → Stepped (n ∷ []) k k1
      → Stepped names k1 k2
      → Stepped (n ∷ names) k k2
  Stepped-cons n names k k1 k2 a b = record {
    set = λ j m. elim m [ inl e ↦ b.stays j (a.set j (inl e)) | inr x ↦ b.set j x ];
    others = λ j apart.
        b.others j (λ x. apart (inr x))
        ∙ a.others j (λ x. apart (elim x [ inl e ↦ inl e | inr y ↦ elim y [ ] ]));
    stays = λ j x. b.stays j (a.stays j x);
  }

  pub Ends-adopt_work :
      (work : List (PlanEntry × Todo)) (clock : ℕ → Times) (i : ℕ) (k : Map CategoryMeta)
      (w : World)
      → AllChecked c f0 s0 work
      → Progress k
      → Opened c f0 s0 k w.disk
      → Ends
          (λ os d.
            (outcome_names os ≡ names_of (work_entries work))
            × Advanced (names_of (work_entries work)) k d)
          (λ _ d. GivenUp c f0 s0 d)
          (adopt_work c work clock i w)
  unfolding adopt_work
  Ends-adopt_work [] clock i k w a p o = Ends-pure [] w (
    refl,
    record {
      rows = k;
      opened = o;
      progress = p;
      stepped = record { set = λ j m. elim m [ ]; others = λ j apart. refl; stays = λ j x. x };
    },
  )
  Ends-adopt_work ((entry, todo) ∷ work) clock i k w (checked, a) p o =
      Ends-bind (adopt_entry c entry todo (clock i)) _ w
        (Ends-adopt_entry entry todo (clock i) k w checked p o)
        (λ x w1 (e, h).
          Ends-bind (adopt_work c work clock (i + 1)) _ w1
            (Ends-adopt_work work clock (i + 1) h.rows w1 a h.progress h.opened)
            (λ xs w2 (es, g). Ends-pure (x ∷ xs) w2 (
              ap₂ (λ y ys. y ∷ ys) e es,
              record {
                rows = g.rows;
                opened = g.opened;
                progress = g.progress;
                stepped = Stepped-cons entry.name _ k h.rows g.rows h.stepped g.stepped;
              },
            )))
