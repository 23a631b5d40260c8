-- ===== src/Txn/Attempts.antt =====
-- What the retry loop of src/store/txn.rs returns, and when.
use mcp_memory_rs.Common.{
  ℕ, suc, ◌+◌, ◌*◌, ◌≤◌, ◌<◌, ◌≡◌, refl, Bool, Bool-cases, inl, inr, true, ◌⊎◌, some, max, arith,
  subst, nat_eq, nat_eq_iff,
}
use mcp_memory_rs.Txn.{
  backoff_min, Turn, failed, Retried, busy_cap, tried_at, woken_at, retry_busy_on, LockConfig,
  millis, begin, remaining_ms, commit_within,
}
use mcp_memory_rs.Txn.Turns.{IsBusy, Stops, Runs, retry_loop-Runs}

module _ {ℓ} {A : Type ℓ} (conn : Bool) (handler busy_timeout deadline : ℕ)
    (turns : ℕ → Turn A) where
  -- The loop is left in turn `n`.
  abbrev LeftIn : ℕ → Retried A → Type ℓ
  LeftIn n r =
      (r.attempts ≡ suc n)
      × (((turns n).handler_fails ≡ true) × (r.outcome ≡ failed)
          ⊎ Stops deadline (turns n).tried r.ended r.outcome)

  abbrev LeftFrom : ℕ → Retried A → Type ℓ
  LeftFrom m r = (n : ℕ) × (m ≤ n) × ((k : ℕ) → m ≤ k → k < n → IsBusy (turns k).tried) × LeftIn n r

  Runs-LeftFrom :
      (r : Retried A) {n now backoff : ℕ}
      → Runs conn handler busy_timeout deadline turns r n now backoff
      → LeftFrom n r
  Runs-LeftFrom r (Runs.unset n now backoff u e) =
      (n, omega arith, λ k le lt. absurd (omega arith), (rw e refl, inl (u, rw e refl)))
  Runs-LeftFrom r (Runs.stopped n now backoff o s e) =
      (n, omega arith, λ k le lt. absurd (omega arith), (rw e refl, inr (rw e s)))
  Runs-LeftFrom r (Runs.again n now backoff b lt more) =
      let (last, le, busy, left) = Runs-LeftFrom r more in
      (
        last,
        omega arith,
        λ k h g. elim (Bool-cases (nat_eq n k)) [
          | inl e ↦ subst (λ k. IsBusy (turns k).tried) ((nat_eq_iff n k).0 e) b
          | inr e ↦ busy k (ground arith) g
        ],
        left,
      )

  -- The result is that of the first attempt that does not find the database busy: every attempt before
  -- it does, and the outcome is the value, the error, or that the busy handler could not be set. Only
  -- if that last attempt is busy too, then at the deadline or later, the loop gives up, and reports the
  -- time and the code.
  pub retry_busy_on_lem :
      (fuel : ℕ) (r : Retried A)
      → retry_busy_on conn handler busy_timeout deadline turns fuel ≡ some r
      → (n : ℕ) × (r.attempts ≡ suc n)
        × ((k : ℕ) → k < n → IsBusy (turns k).tried)
        × (((turns n).handler_fails ≡ true) × (r.outcome ≡ failed)
            ⊎ Stops deadline (turns n).tried r.ended r.outcome)
  unfolding retry_busy_on
  retry_busy_on_lem fuel r h =
      let (n, _, busy, left) =
        Runs-LeftFrom r
          (retry_loop-Runs conn handler busy_timeout deadline turns fuel 0 0 backoff_min r h) in
      (n, left.0, λ k lt. busy k (omega arith) lt, left.1)

-- The operating system and SQLite keep to the times asked for, to within `late`: the clock is read in
-- time, SQLite waits no longer than its cap, and a sleep is no longer than it was to be.
pub record IsPrompt {ℓ} {A : Type ℓ} (late : ℕ) (t : Turn A) : Type 0 where
  pub begun_soon : t.begun_after ≤ late
  pub capped : (c : ℕ) → t.lasted c ≤ c + late
  pub woken_soon : t.overslept ≤ late

module _ {ℓ} {A : Type ℓ} (handler busy_timeout deadline late : ℕ) (turns : ℕ → Turn A)
    (prompt : (n : ℕ) → IsPrompt late (turns n)) where
  tried_at-le :
      (n now : ℕ)
      → now ≤ deadline + late
      → tried_at true handler busy_timeout deadline turns n now ≤ deadline + 3 * late
  tried_at-le n now h = ground (
    arith,
    (prompt n).begun_soon,
    (prompt n).capped
        (busy_cap true handler busy_timeout deadline turns (now + (turns n).begun_after)),
  )

  woken_at-le :
      (n at backoff : ℕ)
      → at < deadline
      → woken_at true handler busy_timeout deadline turns n at backoff ≤ deadline + late
  woken_at-le n at backoff h = ground (arith, (prompt n).woken_soon)

  Runs-ended :
      (r : Retried A) {n now backoff : ℕ}
      → Runs true handler busy_timeout deadline turns r n now backoff
      → now ≤ deadline + late
      → r.ended ≤ deadline + 3 * late
  Runs-ended r (Runs.unset n now backoff u e) h = rw e (omega (arith, (prompt n).begun_soon))
  Runs-ended r (Runs.stopped n now backoff o s e) h = rw e (tried_at-le n now h)
  Runs-ended r (Runs.again n now backoff b lt more) h =
      Runs-ended r more (woken_at-le n _ backoff lt)

  pub retry_busy_on-ended :
      (fuel : ℕ) (r : Retried A)
      → retry_busy_on true handler busy_timeout deadline turns fuel ≡ some r
      → r.ended ≤ deadline + 3 * late
  unfolding retry_busy_on
  retry_busy_on-ended fuel r h =
      Runs-ended r
        (retry_loop-Runs true handler busy_timeout deadline turns fuel 0 0 backoff_min r h)
        (omega arith)

-- BEGIN and COMMIT share one budget: where the body of the transaction and the BEGIN have taken
-- `elapsed`, the BEGIN ends by the deadline, and the COMMIT a millisecond after the later of the
-- deadline and `elapsed`, both but for three times the lateness of the system. The extra
-- millisecond is the rounding of the time that is left. The configured time of SQLite's own busy
-- handler, however long, does not add to it.
pub commit_within_budget {ℓ} :
    {A : Type ℓ} (storage : LockConfig) (handler late elapsed : ℕ) (first last : ℕ → Turn A)
    (b e : Retried A)
    → ((n : ℕ) → IsPrompt late (first n))
    → ((n : ℕ) → IsPrompt late (last n))
    → begin storage handler first ≡ some b
    → commit_within storage handler elapsed last ≡ some e
    → (b.ended ≤ millis storage.lock_deadline_ms + 3 * late)
      × (elapsed + e.ended ≤ max elapsed (millis storage.lock_deadline_ms) + millis 1 + 3 * late)
unfolding begin commit_within remaining_ms
commit_within_budget storage handler late elapsed first last b e p q hb he = (
  retry_busy_on-ended handler _ _ late first p _ b hb,
  ground (arith, retry_busy_on-ended handler _ _ late last q _ e he),
)
