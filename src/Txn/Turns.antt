-- ===== src/Txn/Turns.antt =====
-- The turns of the retry loop of src/store/txn.rs as a relation.
use mcp_memory_rs.Common.{
  ℕ, zero, suc, ◌+◌, ◌*◌, ◌/◌, ◌≤◌, ◌<◌, ◌≡◌, refl, ◌⊎◌, Bool, Bool-cases, inl, inr, true, ◌&&◌,
  Option, some, leb, arith,
}
use mcp_memory_rs.Txn.{
  database_busy, database_locked, other_failure, backoff_max, lesser, Tried, gives, fails, Turn,
  Outcome, gave, gave_up, was_locked, failed, Retried, after_attempt, tried_at, woken_at,
  retry_loop,
}

module _ {ℓ} {A : Type ℓ} where
  abbrev pub IsBusy : Tried A → Type 0
  IsBusy (fails (database_busy _)) = Unit
  IsBusy _ = ⊥

  -- The attempt ends the loop at the time `at`, with this outcome.
  abbrev pub Stops : ℕ → Tried A → ℕ → Outcome A → Type ℓ
  Stops deadline (gives a) at o = o ≡ gave a
  Stops deadline (fails (database_busy code)) at o =
      (deadline ≤ at) × (o ≡ gave_up (at / 1000000) code)
  Stops deadline (fails (database_locked code)) at o = o ≡ was_locked code
  Stops deadline (fails other_failure) at o = o ≡ failed

module _ {ℓ} {A : Type ℓ} (conn : Bool) (handler busy_timeout deadline : ℕ)
    (turns : ℕ → Turn A) where
  -- The loop is left with `r` from turn `n` on, which starts at the time `now`.
  pub data Runs (r : Retried A) : ℕ → ℕ → ℕ → Type ℓ where
    unset :
        (n now backoff : ℕ)
        → (turns n).handler_fails ≡ true
        → r ≡ record { outcome = failed; ended = now + (turns n).begun_after; attempts = suc n }
        → Runs r n now backoff
    stopped :
        (n now backoff : ℕ) (o : Outcome A)
        → Stops deadline (turns n).tried (tried_at conn handler busy_timeout deadline turns n now) o
        → r ≡ record {
          outcome = o;
          ended = tried_at conn handler busy_timeout deadline turns n now;
          attempts = suc n;
        }
        → Runs r n now backoff
    again :
        (n now backoff : ℕ)
        → IsBusy (turns n).tried
        → tried_at conn handler busy_timeout deadline turns n now < deadline
        → Runs r
            (suc n)
            (woken_at conn handler busy_timeout deadline turns n
              (tried_at conn handler busy_timeout deadline turns n now)
              backoff)
            (lesser (backoff * 2) backoff_max)
        → Runs r n now backoff

  -- How one attempt is left, or that the loop goes on.
  abbrev Left : Tried A → ℕ → ℕ → Option (Retried A) → Retried A → Type ℓ
  Left t at n rest r =
      ((o : Outcome A) × Stops deadline t at o
        × (r ≡ record { outcome = o; ended = at; attempts = suc n }))
      ⊎ (IsBusy t × (at < deadline) × (rest ≡ some r))

  after_attempt-Left :
      (t : Tried A) (at n : ℕ) (rest : Option (Retried A)) (r : Retried A)
      → after_attempt conn handler busy_timeout deadline turns t at n rest ≡ some r
      → Left t at n rest r
  unfolding after_attempt
  after_attempt-Left (gives a) at n rest r h = inl (gave a, refl, cc)
  after_attempt-Left (fails (database_busy code)) at n rest r h =
      elim (Bool-cases (leb deadline at)) [
        | inl e ↦ inl (gave_up (at / 1000000) code, (ground arith, refl), ground arith)
        | inr e ↦ inr (tt, ground arith, ground arith)
      ]
  after_attempt-Left (fails (database_locked code)) at n rest r h = inl (was_locked code, refl, cc)
  after_attempt-Left (fails other_failure) at n rest r h = inl (failed, refl, cc)

  pub retry_loop-Runs :
      (fuel n now backoff : ℕ) (r : Retried A)
      → retry_loop conn handler busy_timeout deadline turns fuel n now backoff ≡ some r
      → Runs r n now backoff
  unfolding retry_loop
  retry_loop-Runs zero n now backoff r h = cc
  retry_loop-Runs (suc fuel) n now backoff r h =
      elim (Bool-cases (conn && (turns n).handler_fails)) [
        | inl e ↦ unset n now backoff (ground arith) (ground arith)
        | inr e ↦ elim (after_attempt-Left (turns n).tried _ n _ r (rw e at h)) [
          | inl (o, s, q) ↦ stopped n now backoff o s q
          | inr (b, lt, q) ↦ again n now backoff b lt (retry_loop-Runs fuel (suc n) _ _ r q)
        ]
      ]
