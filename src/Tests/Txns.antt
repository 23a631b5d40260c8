-- ===== src/Tests/Txns.antt =====
-- A BEGIN that finds the database busy twice, and a COMMIT that is late.
use mcp_memory_rs.Common.{
  ℕ, zero, suc, ◌+◌, ◌*◌, ◌≤◌, ◌<◌, ◌≡◌, refl, ◌⊎◌, true, false, some, max, arith,
}
use mcp_memory_rs.Txn.{
  database_busy, classify, after_error, after_attempt, jitter, Tried, gives, fails, Turn, gave,
  gave_up, failed, Retried, retry_loop, retry_busy_on, turns_for, LockConfig, millis, begin,
  remaining_ms, commit_within,
}
use mcp_memory_rs.Txn.Returning.{retry_busy_on-returns}
use mcp_memory_rs.Txn.Turns.{IsBusy, Stops}
use mcp_memory_rs.Txn.Attempts.{retry_busy_on_lem, IsPrompt, commit_within_budget}

-- A turn in which SQLite uses up its cap.
abbrev turn : Tried ℕ → Turn ℕ
turn t = record {
  handler_fails = false;
  begun_after = 1;
  tried = t;
  lasted = λ c. c + 2;
  nanos = 25;
  overslept = 3;
}

abbrev turns : ℕ → Turn ℕ
turns zero = turn (fails (database_busy 5))
turns (suc zero) = turn (fails (database_busy 5))
turns (suc (suc n)) = turn (gives 7)

turns-IsPrompt : (n : ℕ) → IsPrompt 3 (turns n)
turns-IsPrompt zero = omega arith
turns-IsPrompt (suc zero) = omega arith
turns-IsPrompt (suc (suc n)) = omega arith

abbrev storage : LockConfig
storage = record { sqlite_busy_timeout_ms = 5000; lock_deadline_ms = 300 }

-- The handler takes all of the deadline, and the loop gives up after the first attempt.
abbrev gave_up_at_once : Retried ℕ
gave_up_at_once = record { outcome = gave_up 300 5; ended = 300000002; attempts = 1 }

begin_ran : begin storage 0 turns ≡ some gave_up_at_once
unfolding begin retry_busy_on retry_loop after_attempt after_error classify jitter
begin_ran = refl

commit_ran :
    commit_within storage 0 200000000 turns
    ≡ some (record { outcome = gave_up 100 5; ended = 100000002; attempts = 1 })
unfolding commit_within retry_busy_on retry_loop after_attempt after_error classify jitter
    remaining_ms
commit_ran = refl

commit_within_budget_example :
    (300000002 ≤ millis 300 + 3 * 3)
    × (200000000 + 100000002 ≤ max 200000000 (millis 300) + millis 1 + 3 * 3)
commit_within_budget_example =
    commit_within_budget storage 0 3 200000000 turns turns gave_up_at_once
      (record { outcome = gave_up 100 5; ended = 100000002; attempts = 1 }) turns-IsPrompt
      turns-IsPrompt begin_ran commit_ran

-- With a short handler the third attempt has the lock.
abbrev third : Retried ℕ
third = record { outcome = gave 7; ended = 18000015; attempts = 3 }

third_ran : retry_busy_on true 0 (millis 1) (millis 300) turns 20 ≡ some third
unfolding retry_busy_on retry_loop after_attempt after_error classify jitter
third_ran = refl

retry_busy_on_lem_example :
    (n : ℕ) × (third.attempts ≡ suc n)
    × ((k : ℕ) → k < n → IsBusy (turns k).tried)
    × (((turns n).handler_fails ≡ true) × (third.outcome ≡ failed)
        ⊎ Stops (millis 300) (turns n).tried third.ended third.outcome)
retry_busy_on_lem_example =
    retry_busy_on_lem true 0 (millis 1) (millis 300) turns 20 third third_ran

retry_busy_on-returns_example :
    (r : Retried ℕ) × (retry_busy_on true 0 (millis 1) (millis 300) turns (turns_for (millis 300))
      ≡ some r)
    × (r.attempts ≤ turns_for (millis 300))
retry_busy_on-returns_example = retry_busy_on-returns true 0 (millis 1) (millis 300) turns
