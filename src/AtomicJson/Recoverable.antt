-- ===== src/AtomicJson/Recoverable.antt =====
-- When the committed content of a category can be read, and what keeps that true.
use mcp_memory_rs.Common.{
  String, ◌≡◌, ◌≢◌, refl, ◌∙◌, ap, sym, subst, inl, inr, true, false, none, some, arith, Bool-cases,
  eq_iff, ◌==◌, if◌then◌else◌,
}
use mathlib.Core.Option.{some-injective}
use mcp_memory_rs.Common.Map.{
  Map, find, put, erase, find-put, find-erase, find-put_self, find-erase_ne,
}
use mcp_memory_rs.Common.Text.{dot_free}
use mcp_memory_rs.Db.{CategoryMeta}
use mcp_memory_rs.World.{Disk}
use mcp_memory_rs.AtomicJson.{json_path}
use mcp_memory_rs.AtomicJson.Paths.{
  IsStaged, IsParked, Candidate, is_final, is_parked, final_not_staged, final_not_parked,
  staged_not_parked, candidates_apart,
}

module _ (hash : String → String) where
  -- A file of `n` has the bytes that hash to `h`, and so does every parked file of `n`, since
  -- settling puts a parked file back.
  pub record Healthy (n h : String) (files : Map String) : Type 0 where
    pub parked_agree : (p c : String) → IsParked n p → find p files ≡ some c → hash c ≡ h
    pub carrier : String
    pub is_candidate : Candidate n carrier
    pub content : String
    pub found : find carrier files ≡ some content
    pub agrees : hash content ≡ h

  -- Every committed row of a category whose name has no dot is healthy.
  pub record Recoverable (d : Disk) : Type 0 where
    pub is_listed : d.unlisted ≡ false
    pub healthy :
        (n : String) (row : CategoryMeta)
        → dot_free n ≡ true
        → find n d.saved.category ≡ some row
        → Healthy n row.content_hash d.files

pub find-moved :
    (from to c p : String) (files : Map String)
    → find p (put to c (erase from files))
      ≡ (if to == p then some c else if from == p then none else find p files)
find-moved from to c p files =
    ground (arith, find-put p to c (erase from files), find-erase p from files)

pub final_ne_staged : (n p : String) → IsStaged n p → json_path n ≢ p
final_ne_staged n p s e = cc (final_not_staged n, subst (λ q. IsStaged n q) (sym e) s)

pub final_ne_parked : (n p : String) → IsParked n p → json_path n ≢ p
final_ne_parked n p s e = cc (final_not_parked n, subst (λ q. IsParked n q) (sym e) s)

pub parked_ne_staged : (n p q : String) → IsParked n p → IsStaged n q → p ≢ q
parked_ne_staged n p q k s e = staged_not_parked n q s (subst (λ x. IsParked n x) e k)

module _ (hash : String → String) (n h : String) (files : Map String) where
  -- The final file holds the committed bytes, and nothing is parked.
  pub Healthy-final :
      (c : String)
      → find (json_path n) files ≡ some c
      → hash c ≡ h
      → ((p c : String) → IsParked n p → find p files ≡ some c → hash c ≡ h)
      → Healthy hash n h files
  Healthy-final c e a k = record {
    parked_agree = k;
    carrier = json_path n;
    is_candidate = is_final refl;
    content = c;
    found = e;
    agrees = a;
  }

  -- A file with the committed bytes is renamed over the final file.
  pub Healthy-promoted :
      (p c : String)
      → Candidate n p
      → hash c ≡ h
      → Healthy hash n h files
      → Healthy hash n h (put (json_path n) c (erase p files))
  Healthy-promoted p c k a healthy = record {
    parked_agree = λ q b parked e.
        let ne = final_ne_parked n q parked in
        ground (
          arith,
          find-moved p (json_path n) c q files,
          eq_iff (json_path n) q,
          healthy.parked_agree q b parked,
        );
    carrier = json_path n;
    is_candidate = is_final refl;
    content = c;
    found = find-put_self (json_path n) c (erase p files);
    agrees = a;
  }

  -- A staged file with other bytes is removed.
  pub Healthy-discarded :
      (p c : String)
      → IsStaged n p
      → find p files ≡ some c
      → hash c ≢ h
      → Healthy hash n h files
      → Healthy hash n h (erase p files)
  Healthy-discarded p c s e ne healthy =
      let apart : healthy.carrier ≢ p = λ q. ne (
        subst (λ x. hash x ≡ h)
          (some-injective _ _ (sym healthy.found ∙ ap (λ x. find x files) q ∙ e)) healthy.agrees) in
      record {
        parked_agree = λ q b parked f.
            healthy.parked_agree q b parked
              (sym (find-erase_ne q p files (parked_ne_staged n q p parked s)) ∙ f);
        carrier = healthy.carrier;
        is_candidate = healthy.is_candidate;
        content = healthy.content;
        found = find-erase_ne healthy.carrier p files apart ∙ healthy.found;
        agrees = healthy.agrees;
      }

  -- Only the candidates of a category matter to it.
  pub Healthy-frame :
      (files' : Map String)
      → ((p : String) → Candidate n p → find p files' ≡ find p files)
      → Healthy hash n h files
      → Healthy hash n h files'
  Healthy-frame files' same healthy = record {
    parked_agree =
        λ q b parked e. healthy.parked_agree q b parked (sym (same q (is_parked parked)) ∙ e);
    carrier = healthy.carrier;
    is_candidate = healthy.is_candidate;
    content = healthy.content;
    found = same healthy.carrier healthy.is_candidate ∙ healthy.found;
    agrees = healthy.agrees;
  }

-- A change to the files of one category leaves the store recoverable, if that category stays healthy.
pub Recoverable-touch :
    (hash : String → String) (n : String) (d d' : Disk)
    → dot_free n ≡ true
    → d'.saved ≡ d.saved
    → d'.unlisted ≡ d.unlisted
    → ((p : String) → (Candidate n p → ⊥) → find p d'.files ≡ find p d.files)
    → ((row : CategoryMeta)
        → find n d.saved.category ≡ some row
        → Healthy hash n row.content_hash d'.files)
    → Recoverable hash d
    → Recoverable hash d'
Recoverable-touch hash n d d' dn saved listed same own r = record {
  is_listed = listed ∙ r.is_listed;
  healthy = λ m row dm e.
      let e' : find m d.saved.category ≡ some row = ap (λ s. find m s.category) (sym saved) ∙ e in
      elim (Bool-cases (m == n)) [
        | inl q ↦
            let mn : m ≡ n = (eq_iff m n).0 q in
            subst (λ x. Healthy hash x row.content_hash d'.files) (sym mn)
              (own row (subst (λ x. find x d.saved.category ≡ some row) mn e'))
        | inr q ↦
            Healthy-frame hash m row.content_hash d.files d'.files
              (λ p cm. same p (λ cn. cc (q, (eq_iff m n).1 (candidates_apart m n p dm dn cm cn))))
              (r.healthy m row dm e')
      ];
}
