-- ===== src/Store/Mismatched.antt =====
-- The mismatches in a report of `verify_store` of src/store/mod.rs.
use mcp_memory_rs.Common.{
  String, ◌≡◌, refl, sym, subst, ◌⊎◌, inl, inr, Option, none, some, List, [], ◌∷◌,
}
use mcp_memory_rs.Common.Among.{Among}
use mcp_memory_rs.World.{Disk, World}
use mcp_memory_rs.World.Ends.{Ends, Ends-mono, Ends-bind, Ends-pure}
use mcp_memory_rs.AtomicJson.{Source, committed_content}
use mcp_memory_rs.AtomicJson.Searching.{Carried, Searched, Ends-search}
use mcp_memory_rs.Codec.{Codec}
use mcp_memory_rs.Store.Report.{with_mismatch, mismatched}
use mcp_memory_rs.Store.Listed.{HasRow}

module _ (c : Codec) (d : Disk) where
  -- The rows are told apart: those whose bytes a file of the category has, and the others.
  pub record Checked (rows : List (String × String)) (names : List String) : Type 0 where
    pub carried :
        (n h : String)
        → HasRow n h rows
        → Among n names ⊎ ((content : String) × Carried c.hash n h d content)
    pub missed :
        (n : String) → Among n names → (h : String) × HasRow n h rows × Searched c.hash n h d none

  Checked-cons :
      (m g : String) (rows : List (String × String)) (r : Option (String × Source))
      (names : List String)
      → Searched c.hash m g d r
      → Checked rows names
      → Checked ((m, g) ∷ rows) (with_mismatch r m names)
  Checked-cons m g rows (some (content, s)) names k x = record {
    carried = λ n h has. elim has [
      | inl (e, f) ↦ inr (
        content,
        subst (λ n. Carried c.hash n h d content) (sym e)
            (subst (λ h. Carried c.hash m h d content) (sym f) k),
      )
      | inr later ↦ x.carried n h later
    ];
    missed = λ n a. let (h, has, gone) = x.missed n a in (h, inr has, gone);
  }
  Checked-cons m g rows none names k x = record {
    carried = λ n h has. elim has [
      | inl (e, f) ↦ inl (inl e)
      | inr later ↦ elim (x.carried n h later) [ inl a ↦ inl (inr a) | inr b ↦ inr b ]
    ];
    missed = λ n a. elim a [
      | inl e ↦ (g, inl (e, refl), subst (λ n. Searched c.hash n g d none) (sym e) k)
      | inr later ↦ let (h, has, gone) = x.missed n later in (h, inr has, gone)
    ];
  }

  pub Ends-mismatched :
      (rows : List (String × String)) (w : World)
      → w.disk ≡ d
      → Ends (λ names x. (x ≡ d) × Checked rows names) (λ _ x. x ≡ d) (mismatched c rows w)
  unfolding mismatched
  Ends-mismatched [] w e =
      Ends-pure [] w (e, record { carried = λ n h has. elim has [ ]; missed = λ n a. elim a [ ] })
  Ends-mismatched ((name, hash) ∷ rows) w e =
      Ends-bind (committed_content c.hash name hash) _ w
        (Ends-mono (λ _ x a. a) (λ _ x a. a.0) (Ends-search c.hash name hash d w e))
        (λ r u a. Ends-bind (mismatched c rows) _ u (Ends-mismatched rows u a.0) (λ names v b.
          Ends-pure (with_mismatch r name names) v
            (b.0, Checked-cons name hash rows r names a.1 b.1)))
