-- ===== src/Store/Current.antt =====
-- What a mutation takes for the current value of a category (`read` and its `NotFound` in src/store/mod.rs).
use mcp_memory_rs.Common.{ℕ, String, ◌≡◌, refl, ◌∙◌, ap, sym, ◌⊎◌, inl, inr, Option, none, some}
use mcp_memory_rs.Common.Map.{find}
use mcp_memory_rs.Json.{Value}
use mcp_memory_rs.Error.{json, not_found}
use mcp_memory_rs.Db.{CategoryMeta}
use mcp_memory_rs.World.{Disk, World, Attempt, got, threw, attempt}
use mcp_memory_rs.World.Ends.{
  Fault, NotAbsent, Ends, Ends-mono, Ends-bind, Ends-pure, Ends-throw, Ends-caught, Attempted,
}
use mcp_memory_rs.AtomicJson.{json_path}
use mcp_memory_rs.Codec.{Codec}
use mcp_memory_rs.Store.Read.{
  quiet, read_consistent, decode, read, present, current_value, or_throw,
}
use mcp_memory_rs.Store.Readers.{Round, Met, ReadAt, Served, Unserved, Ends-read_rounds}

-- The value that a category has: that of the committed bytes, that of a final file without a row, or
-- none where there is neither.
pub data Current (c : Codec) (n : String) (d : Disk) (o : Option Value) : Type 0 where
  committed :
      (row : CategoryMeta) (content : String) (v : Value)
      → find n d.db.category ≡ some row
      → c.hash content ≡ row.content_hash
      → c.from_str content ≡ some v
      → o ≡ some v
      → Current c n d o
  orphan :
      (content : String) (v : Value)
      → find n d.db.category ≡ none
      → find (json_path n) d.files ≡ some content
      → c.from_str content ≡ some v
      → o ≡ some v
      → Current c n d o
  absent :
      find n d.db.category ≡ none → find (json_path n) d.files ≡ none → o ≡ none → Current c n d o

quiet-Round : {n : ℕ} {d d1 d2 : Disk} → Round quiet n d d1 d2 → (d1 ≡ d) × (d2 ≡ d)
quiet-Round (Round.first n d) = (refl, refl)
quiet-Round (Round.later n d d1 d2 r) = quiet-Round r

quiet-Met : {n : ℕ} {d x : Disk} → Met quiet n d x → x ≡ d
quiet-Met (Met.at_row n d) = refl
quiet-Met (Met.at_files n d) = refl
quiet-Met (Met.next n d x m) = quiet-Met m

module _ (c : Codec) (n : String) (d : Disk) where
  -- The bytes behind the value.
  abbrev Bytes : (String × Option CategoryMeta) → Type 0
  Bytes r =
      ((row : CategoryMeta) × (find n d.db.category ≡ some row) × (c.hash r.0 ≡ row.content_hash))
      ⊎ ((find n d.db.category ≡ none) × (find (json_path n) d.files ≡ some r.0))

  -- `NotFound` only where the category is absent.
  abbrev Told : Fault → Disk → Type 0
  Told f x = (x ≡ d) × (NotAbsent f ⊎ Current c n d none)

  Bytes-ReadAt :
      (d1 d2 : Disk) (r : String × Option CategoryMeta)
      → d1 ≡ d
      → d2 ≡ d
      → ReadAt c n d1 d2 r
      → Bytes r
  Bytes-ReadAt d1 d2 (content, some row) e f (g, k) =
      inl (row, ap (λ x. find n x.db.category) (sym e) ∙ g, k.agrees)
  Bytes-ReadAt d1 d2 (content, none) e f (g, k) =
      inr (
        ap (λ x. find n x.db.category) (sym e) ∙ g,
        ap (λ x. find (json_path n) x.files) (sym f) ∙ k,
      )

  Bytes-Served :
      (k : ℕ) (r : String × Option CategoryMeta) (x : Disk)
      → Served c n quiet k d r x
      → (x ≡ d) × Bytes r
  Bytes-Served k r x s =
      let (e, f) = quiet-Round s.round in
      (s.left_at ∙ f, Bytes-ReadAt s.row_read s.files_read r e f s.is_read)

  Told-Unserved : (k : ℕ) (f : Fault) (x : Disk) → Unserved c n quiet k d f x → Told f x
  Told-Unserved k f x (m, inl q) = (quiet-Met m, inl q)
  Told-Unserved k f x (m, inr a) =
      let (e, g) = quiet-Round a.round in
      (
        quiet-Met m,
        inr (
            absent (ap (λ x. find n x.db.category) (sym e) ∙ a.lacking.0)
              (ap (λ x. find (json_path n) x.files) (sym g) ∙ a.lacking.1) refl),
      )

  Ends-Bytes :
      (w : World) → w.disk ≡ d → Ends (λ r x. (x ≡ d) × Bytes r) Told (read_consistent c n w)
  unfolding read_consistent
  Ends-Bytes w e =
      Ends-mono (λ r x s. Bytes-Served 40 r x s) (λ f x s. Told-Unserved 40 f x s)
        (Ends-read_rounds c n quiet 40 d w e)

  Current-Bytes :
      (r : String × Option CategoryMeta) (v : Value)
      → Bytes r
      → c.from_str r.0 ≡ some v
      → Current c n d (some v)
  Current-Bytes r v (inl (row, f, h)) e = committed row r.0 v f h e refl
  Current-Bytes r v (inr (f, h)) e = orphan r.0 v f h e refl

  Ends-decode :
      (r : String × Option CategoryMeta) (u : World)
      → u.disk ≡ d
      → Bytes r
      → Ends (λ v x. (x ≡ d) × Current c n d (some v)) Told (decode c r.0 u)
  unfolding decode
  Ends-decode r u e b = go (c.from_str r.0) refl
    where
      go :
          (o : Option Value)
          → c.from_str r.0 ≡ o
          → Ends (λ v x. (x ≡ d) × Current c n d (some v)) Told (or_throw o json u)
      go none q = Ends-throw json u (e, inl tt)
      go (some v) q = Ends-pure v u (e, Current-Bytes r v b q)

  pub Ends-value :
      (w : World) → w.disk ≡ d → Ends (λ v x. (x ≡ d) × Current c n d (some v)) Told (read c n w)
  unfolding read
  Ends-value w e =
      Ends-bind (read_consistent c n) _ w (Ends-Bytes w e) (λ r u h. Ends-decode r u h.0 h.1)

  Ends-present :
      (r : Attempt Value) (u : World)
      → Attempted (λ v x. (x ≡ d) × Current c n d (some v)) Told r u.disk
      → Ends (λ o x. (x ≡ d) × Current c n d o) (λ _ x. x ≡ d) (present c r u)
  unfolding present
  Ends-present (got v) u h = Ends-pure (some v) u h
  Ends-present (threw (not_found a b m)) u (e, inl q) = absurd q
  Ends-present (threw (not_found a b m)) u (e, inr k) = Ends-pure none u (e, k)
  Ends-present (threw x) u h = Ends-throw x u h.0

  pub Ends-current_value :
      (w : World)
      → w.disk ≡ d
      → Ends (λ o x. (x ≡ d) × Current c n d o) (λ _ x. x ≡ d) (current_value c n w)
  unfolding current_value
  Ends-current_value w e =
      Ends-bind (attempt (read c n)) _ w
        (Ends-caught (λ v x. (x ≡ d) × Current c n d (some v)) Told (λ _ x. x ≡ d) (read c n) w
          (Ends-value w e) (λ x h. h.0))
        (λ r u h. Ends-present r u h)
