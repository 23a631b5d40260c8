-- ===== src/Tests/Fixtures.antt =====
-- A codec, a calendar and a store on which the theorems are applied.
use Prim.Native.String.{count}
use mcp_memory_rs.Common.{
  ℕ, ◌+◌, ◌-◌, String, ◌<>◌, ◌≡◌, refl, true, false, ◌==◌, eq_iff, Option, some, List, [], ◌∷◌,
  arith, leb, Bool-cases, inl, inr, sym, ap, subst,
}
use mathlib.Core.Option.{some-injective}
use mcp_memory_rs.Common.Instant.{ℤ, pos, negsuc, Chrono, IsLawful}
use mcp_memory_rs.Common.Map.{find}
use mcp_memory_rs.Json.{Value, text}
use mcp_memory_rs.Codec.{Codec, Times}
use mcp_memory_rs.Db.{CategoryMeta, Tables}
use mcp_memory_rs.World.{Disk, World, Outcome}
use mcp_memory_rs.Store.Locked.{AtRest}
use mcp_memory_rs.Common.Text.{dot_free}
use mcp_memory_rs.AtomicJson.Paths.{is_final, IsParked}
use mcp_memory_rs.AtomicJson.Recoverable.{Recoverable, final_ne_parked}

abbrev shown : Value → String
shown (text s) = s
shown _ = "{}"

abbrev pub codec : Codec
codec = record {
  hash = λ s. s;
  to_string_pretty = shown;
  to_string = shown;
  from_str = λ s. some (text s);
  number_text = λ _. "0";
  max_versions = 2;
}

abbrev pub times : Times
times = record {
  now = "2026-01-02";
  version_at = "2026-01-02";
  marked_at = "2026-01-02";
  state_at = "2026-01-02";
  backup_at = "2026-01-02";
  deleted_at = "2026-01-02";
  settled_at = "2026-01-02";
  suffix = "1-1";
}

-- A day is a number, and the text of a day has as many characters.
abbrev moved_days : ℕ → ℤ → Option ℕ
moved_days t (pos n) = some (t - n)
moved_days t (negsuc n) = some (t + n + 1)

abbrev pub days : Chrono
days = record {
  Instant = ℕ;
  parse_rfc3339 = λ s. some (count s);
  sub_days = moved_days;
  at_least = λ a b. leb b a;
}

moved_days_le : (t u n : ℕ) → moved_days t (pos n) ≡ some u → leb u t ≡ true
moved_days_le t u n h = ground arith

moved_days_lt : (t u n : ℕ) → moved_days t (negsuc n) ≡ some u → leb u t ≡ false
moved_days_lt t u n h = ground arith

pub days-IsLawful : IsLawful days
days-IsLawful = record { sub_days_le = moved_days_le; add_days_lt = moved_days_lt }

-- A store with one category.
abbrev pub base_row : CategoryMeta
base_row = record {
  name = "base";
  namespace = "default";
  content_hash = "A";
  updated_at = "2026-01-01";
  updated_by = "tower";
  write_policy = "device";
  size_bytes = 1;
}

abbrev pub one_row : Tables
one_row = record {
  category = ("base", base_row) ∷ [];
  category_version = [];
  last_version = 0;
  search_index = [];
  sync_state = [];
  sync_dirty = [];
}

abbrev pub disk : Disk
disk = record {
  files = ("base.json", "A") ∷ [];
  backups = [];
  db = one_row;
  saved = one_row;
  unlisted = false;
}

-- The same store, seen by a process whose accesses end as the list says.
abbrev pub world : List Outcome → World
world faults = record { disk = disk; faults = faults }

pub found_one :
    {V : Type 0} (k j : String) (v w : V) → find k ((j, v) ∷ []) ≡ some w → (k ≡ j) × (v ≡ w)
unfolding find
found_one k j v w h = elim (Bool-cases (j == k)) [
  | inl q ↦ (sym ((eq_iff j k).0 q), some-injective _ _ (rw q at h))
  | inr q ↦ absurd (ground arith)
]

pub disk-Recoverable : Recoverable codec.hash disk
unfolding find
disk-Recoverable = record {
  is_listed = refl;
  healthy = λ n row dn e.
      let (nb, rb) = found_one n "base" base_row row e in
      record {
        parked_agree = λ p c k f. absurd (
            final_ne_parked "base" p (subst (λ x. IsParked x p) nb k)
              (sym (found_one p "base.json" "A" c f).0));
        carrier = "base.json";
        is_candidate = is_final (ap (λ x. x <> ".json") (sym nb));
        content = "A";
        found = refl;
        agrees = ap (λ r. r.content_hash) rb;
      };
}

pub disk-AtRest : AtRest codec.hash disk
disk-AtRest = record { recoverable = disk-Recoverable; no_change_open = refl }

pub base_dot_free : dot_free "base" ≡ true
unfolding dot_free
base_dot_free = refl
