-- ===== src/Txn/Returning.antt =====
-- The retry loop of src/store/txn.rs ends.
use mcp_memory_rs.Common.{
  ℕ, zero, suc, ◌+◌, ◌*◌, ◌/◌, ◌≤◌, ◌<◌, ◌≡◌, refl, Bool, Bool-cases, inl, inr, ◌&&◌, Option, some,
  leb, subst, arith, if◌then◌else◌,
}
use mcp_memory_rs.Txn.{
  LockErrorKind, classify, backoff_min, backoff_max, jitter, lesser, Tried, gives, fails, Turn,
  Retried, failed, ends, after_error, after_attempt, tried_at, woken_at, retry_loop, retry_busy_on,
  shortest_pause, turns_for,
}

jitter-ge : (nanos d : ℕ) → backoff_min ≤ d → shortest_pause ≤ jitter nanos d
unfolding jitter
jitter-ge nanos d h = grind arith

module _ {ℓ} {A : Type ℓ} (conn : Bool) (handler busy_timeout deadline : ℕ)
    (turns : ℕ → Turn A) where
  -- The loop is left after at most so many attempts.
  abbrev Left : Option (Retried A) → ℕ → Type ℓ
  Left o most = (r : Retried A) × (o ≡ some r) × (r.attempts ≤ most)

  after_error-Left :
      (k : LockErrorKind) (at n most : ℕ) (rest : Option (Retried A))
      → suc n ≤ most
      → (at < deadline → Left rest most)
      → Left (after_error conn handler busy_timeout deadline turns k at n rest) most
  unfolding after_error
  after_error-Left (LockErrorKind.busy code) at n most rest le more =
      elim (Bool-cases (leb deadline at)) [
        | inl e ↦ rw e (_, refl, le)
        | inr e ↦ rw e (more (ground arith))
      ]
  after_error-Left (LockErrorKind.locked code) at n most rest le more = (_, refl, le)
  after_error-Left LockErrorKind.other at n most rest le more = (_, refl, le)

  after_attempt-Left :
      (t : Tried A) (at n most : ℕ) (rest : Option (Retried A))
      → suc n ≤ most
      → (at < deadline → Left rest most)
      → Left (after_attempt conn handler busy_timeout deadline turns t at n rest) most
  unfolding after_attempt
  after_attempt-Left (gives a) at n most rest le more = (_, refl, le)
  after_attempt-Left (fails e) at n most rest le more =
      after_error-Left (classify e) at n most rest le more

  -- A turn that goes on brings the deadline nearer by the shortest pause, or reaches it.
  woken_at-ge :
      (fuel n at now backoff : ℕ)
      → backoff_min ≤ backoff
      → now ≤ at
      → at < deadline
      → deadline ≤ now + suc fuel * shortest_pause
      → deadline
        ≤ woken_at conn handler busy_timeout deadline turns n at backoff + fuel * shortest_pause
  woken_at-ge fuel n at now backoff b le lt d = ground (arith, jitter-ge (turns n).nanos backoff b)

  lesser-backoff :
      (backoff : ℕ) → backoff_min ≤ backoff → backoff_min ≤ lesser (backoff * 2) backoff_max
  lesser-backoff backoff h = ground arith

  turn-Left :
      (n now most : ℕ) (rest : Option (Retried A))
      → suc n ≤ most
      → (tried_at conn handler busy_timeout deadline turns n now < deadline → Left rest most)
      → Left
          (if conn && (turns n).handler_fails
            then ends conn handler busy_timeout deadline turns failed
                (now + (turns n).begun_after)
                n
            else after_attempt conn handler busy_timeout deadline turns
                (turns n).tried
                (tried_at conn handler busy_timeout deadline turns n now)
                n
                rest)
          most
  turn-Left n now most rest le more = elim (Bool-cases (conn && (turns n).handler_fails)) [
    | inl e ↦ rw e (_, refl, le)
    | inr e ↦ rw e (after_attempt-Left (turns n).tried _ n most rest le more)
  ]

  retry_loop-Left :
      (fuel n now backoff most : ℕ)
      → n + suc fuel ≤ most
      → backoff_min ≤ backoff
      → deadline ≤ now + fuel * shortest_pause
      → Left (retry_loop conn handler busy_timeout deadline turns (suc fuel) n now backoff) most
  unfolding retry_loop
  retry_loop-Left zero n now backoff most le b d =
      turn-Left n now most _ (omega arith) (λ lt. absurd (omega arith))
  retry_loop-Left (suc fuel) n now backoff most le b d = turn-Left n now most _ (omega arith) (λ lt.
      retry_loop-Left fuel (suc n) _ (lesser (backoff * 2) backoff_max) most (omega arith)
        (lesser-backoff backoff b) (woken_at-ge fuel n _ now backoff b (omega arith) lt d))

-- The loop ends, whatever it meets: within one attempt more than the deadline has of the shortest
-- pauses, and two more for the rounding. The attempts are no more than the fuel that this bound gives.
pub retry_busy_on-returns {ℓ} :
    {A : Type ℓ} (conn : Bool) (handler busy_timeout deadline : ℕ) (turns : ℕ → Turn A)
    → (r : Retried A) × (retry_busy_on conn handler busy_timeout deadline turns (turns_for deadline)
        ≡ some r)
      × (r.attempts ≤ turns_for deadline)
unfolding retry_busy_on
retry_busy_on-returns conn handler busy_timeout deadline turns =
    subst
      (λ fuel.
        Left conn handler busy_timeout deadline turns
          (retry_loop conn handler busy_timeout deadline turns fuel 0 0 backoff_min)
          (turns_for deadline))
      suc_turns
      (retry_loop-Left conn handler busy_timeout deadline turns (deadline / shortest_pause + 1) 0 0
        backoff_min (turns_for deadline) (omega arith) (omega arith) (omega arith))
  where
    suc_turns : suc (deadline / shortest_pause + 1) ≡ turns_for deadline
    suc_turns = omega arith
