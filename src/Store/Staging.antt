-- ===== src/Store/Staging.antt =====
-- The body of an upsert inside the transaction (`stage_rows` and `stage_local_write` of src/store/mod.rs):
-- the file that is staged.
use mcp_memory_rs.Common.{
  String, ◌<>◌, ◌≡◌, ◌≢◌, refl, ◌∙◌, ap, sym, subst, true, Option, none, some,
}
use mcp_memory_rs.Common.Map.{find, put, find-put_self, find-put_ne}
use mcp_memory_rs.Common.Text.{dot_free}
use mcp_memory_rs.Error.{io, other_io}
use mcp_memory_rs.Db.{Tables}
use mcp_memory_rs.World.{Disk, World, attempt, access, torn_write, written, write_file}
use mcp_memory_rs.World.Ends.{Ends, Ends-mono, Ends-bind, Ends-pure, Ends-attempt_any}
use mcp_memory_rs.World.Accesses.{Ends-access, Ends-access_with, Ends-write_file}
use mcp_memory_rs.AtomicJson.{
  Staged, json_path, staged_prefix, copied, torn_copy, copy_bytes, backup_copy, stage,
  fsync_dir_strict,
}
use mcp_memory_rs.AtomicJson.Paths.{Candidate, IsStaged, is_staged, IsStaged-path}
use mcp_memory_rs.AtomicJson.Recoverable.{Healthy, Recoverable, Recoverable-touch, parked_ne_staged}
use mcp_memory_rs.AtomicJson.Settling.{NoParked}
use mcp_memory_rs.Codec.{Codec}
use mcp_memory_rs.Store.Settle.{Clean}

-- The transaction can still be given up: what was committed is there.
pub record Before (hash : String → String) (s0 : Tables) (d : Disk) : Type 0 where
  pub recoverable : Recoverable hash d
  pub saved_is : d.saved ≡ s0

-- A staged file of the category is written, and the open transaction has the tables `t`.
pub record Staging (hash : String → String) (n : String) (s0 : Tables) (path content : String)
    (t : Tables) (d : Disk) : Type 0 where
  pub before : Before hash s0 d
  pub is_staged_path : IsStaged n path
  pub found : find path d.files ≡ some content
  pub unparked : NoParked n d
  pub db_is : d.db ≡ t

module _ (hash : String → String) (n h : String) (d : Disk) where
  -- A new staged file of a settled category.
  pub Healthy-staged :
      (p text : String)
      → IsStaged n p
      → find p d.files ≡ none
      → Healthy hash n h d.files
      → Healthy hash n h (put p text d.files)
  Healthy-staged p text s e healthy =
      let apart : healthy.carrier ≢ p = λ q. cc (healthy.found, ap (λ x. find x d.files) q, e) in
      record {
        parked_agree = λ q b k f.
            healthy.parked_agree q b k
              (sym (find-put_ne q p text d.files (parked_ne_staged n q p k s)) ∙ f);
        carrier = healthy.carrier;
        is_candidate = healthy.is_candidate;
        content = healthy.content;
        found = find-put_ne healthy.carrier p text d.files apart ∙ healthy.found;
        agrees = healthy.agrees;
      }

module _ (c : Codec) (n : String) (dn : dot_free n ≡ true) (s0 : Tables) where
  pub Before-Clean : (d : Disk) → Clean c n dn s0 d → Before c.hash s0 d
  Before-Clean d k = record { recoverable = k.0.recoverable; saved_is = k.0.saved_is }

  Before-written :
      (p text : String) (d : Disk)
      → IsStaged n p
      → Clean c n dn s0 d
      → Before c.hash s0 (written p text d)
  Before-written p text d s k = record {
    recoverable =
        Recoverable-touch c.hash n d (written p text d) dn refl refl
          (λ q nq.
            find-put_ne q p text d.files (λ e. nq (subst (Candidate n) (sym e) (is_staged s))))
          (λ row e.
            Healthy-staged c.hash n row.content_hash d p text s (k.1.0 p s)
              (k.0.recoverable.healthy n row dn e))
          k.0.recoverable;
    saved_is = k.0.saved_is;
  }

  Before-torn :
      (p : String) (o : Option String) (d : Disk)
      → IsStaged n p
      → Clean c n dn s0 d
      → Before c.hash s0 (torn_write p o d)
  Before-torn p none d s k = Before-Clean d k
  Before-torn p (some t) d s k = Before-written p t d s k

  Staging-written :
      (p text : String) (d : Disk)
      → IsStaged n p
      → Clean c n dn s0 d
      → Staging c.hash n s0 p text s0 (written p text d)
  Staging-written p text d s k = record {
    before = Before-written p text d s k;
    is_staged_path = s;
    found = find-put_self p text d.files;
    unparked =
        λ q parked. find-put_ne q p text d.files (parked_ne_staged n q p parked s) ∙ k.1.1 q parked;
    db_is = k.0.db_is;
  }

  abbrev pub staged_at : String → Staged
  staged_at suffix = record { staged = staged_prefix n <> suffix; final_path = json_path n }

  pub Ends-stage :
      (suffix content : String) (w : World)
      → Clean c n dn s0 w.disk
      → Ends
          (λ s d.
            (s ≡ staged_at suffix) × Staging c.hash n s0 (staged_prefix n <> suffix) content s0 d)
          (λ _ d. Before c.hash s0 d)
          (stage n suffix content w)
  unfolding stage fsync_dir_strict
  Ends-stage suffix content w k =
      let p : String = staged_prefix n <> suffix in
      let s : IsStaged n p = IsStaged-path n suffix in
      Ends-bind (write_file p content) _ w
        (Ends-mono
          (λ _ d e.
            subst (Staging c.hash n s0 p content s0) (sym e) (Staging-written p content w.disk s k))
          (λ _ d (o, e). subst (Before c.hash s0) (sym e) (Before-torn p o w.disk s k))
          (Ends-write_file p content w))
        (λ _ u g.
          Ends-bind (access (io other_io) (λ d. d)) _ u
            (Ends-mono (λ _ d e. subst (Staging c.hash n s0 p content s0) (sym e) g)
              (λ _ d e. subst (Before c.hash s0) (sym e.0) g.before)
              (Ends-access (io other_io) (λ d. d) u))
            (λ _ v g'. Ends-pure (staged_at suffix) v (refl, g')))

  -- The backup of the old file changes nothing that matters here.
  Clean-copied :
      (dest : String) (o : Option String) (d : Disk)
      → Clean c n dn s0 d
      → Clean c n dn s0 (copied dest o d)
  Clean-copied dest none d k = k
  Clean-copied dest (some b) d k = (
    record {
      recoverable = record {
        is_listed = k.0.recoverable.is_listed;
        healthy = k.0.recoverable.healthy;
      };
      db_is = k.0.db_is;
      saved_is = k.0.saved_is;
    },
    k.1,
  )

  Clean-torn :
      (dest : String) (o t : Option String) (d : Disk)
      → Clean c n dn s0 d
      → Clean c n dn s0 (torn_copy dest o t d)
  Clean-torn dest none t d k = k
  Clean-torn dest (some _) t d k = Clean-copied dest t d k

  pub Ends-backup_copy :
      (src time : String) (w : World)
      → Clean c n dn s0 w.disk
      → Ends (λ _ d. Clean c n dn s0 d) (λ _ d. Before c.hash s0 d) (backup_copy src n time w)
  unfolding backup_copy copy_bytes
  Ends-backup_copy src time w k =
      Ends-bind (attempt (copy_bytes (find src w.files) dest)) _ w
        (Ends-attempt_any (copy_bytes (find src w.files) dest) w
          (Ends-mono
            (λ _ d e.
              subst (Clean c n dn s0) (sym e) (Clean-copied dest (find src w.files) w.disk k))
            (λ _ d e.
              subst (Clean c n dn s0) (sym e.0.1)
                (Clean-torn dest (find src w.files) e.0.0 w.disk k))
            (Ends-access_with (io other_io) (copied dest (find src w.files))
              (torn_copy dest (find src w.files)) w.faults w.disk))
          Before-Clean)
        (λ _ u g. Ends-pure tt u g)
    where
      dest : String
      dest = (n <> ".") <> (time <> ".json")
