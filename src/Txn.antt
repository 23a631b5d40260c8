-- ===== src/Txn.antt =====
-- src/store/txn.rs: the retry of a statement that finds the database locked, and the budget that the
-- BEGIN and the COMMIT of a write transaction share. Times are in nanoseconds, from the first reading
-- of the clock. What the operating system and SQLite do in a turn of the loop is an argument.
pub mod Returning
pub mod Turns
pub mod Attempts
use mcp_memory_rs.Common.{
  ℕ, zero, suc, ◌+◌, ◌-◌, ◌*◌, ◌/◌, ◌%◌, Bool, true, false, ◌&&◌, Option, none, some, ltb, leb,
  if◌then◌else◌, and_then,
}

-- `rusqlite::Error`, as far as `classify` looks at it: the codes are the extended ones.
pub data SqliteError : Type 0 where
  database_busy : ℕ → SqliteError
  database_locked : ℕ → SqliteError
  other_failure : SqliteError

pub data LockErrorKind : Type 0 where
  busy : ℕ → LockErrorKind
  locked : ℕ → LockErrorKind
  other : LockErrorKind

unfoldable pub classify : SqliteError → LockErrorKind
classify (database_busy code) = LockErrorKind.busy code
classify (database_locked code) = LockErrorKind.locked code
classify other_failure = LockErrorKind.other

abbrev pub millis : ℕ → ℕ
millis n = n * 1000000

abbrev pub backoff_min : ℕ
backoff_min = millis 5

abbrev pub backoff_max : ℕ
backoff_max = millis 250

abbrev pub lesser : ℕ → ℕ → ℕ
lesser a b = if ltb a b then a else b

-- `nanos` are the pseudo-random bits of the source.
unfoldable pub jitter : ℕ → ℕ → ℕ
jitter nanos d = d * (75 + nanos % 51) / 100

pub data Tried {ℓ} (A : Type ℓ) : Type ℓ where
  gives : A → Tried A
  fails : SqliteError → Tried A

-- What a turn of the loop meets: whether the busy handler can be set, the time until the clock is
-- read for it, what the statement comes to, how long it takes under a cap of the handler, the bits of
-- the jitter, and by how much the sleep is exceeded.
pub record Turn {ℓ} (A : Type ℓ) : Type ℓ where
  pub handler_fails : Bool
  pub begun_after : ℕ
  pub tried : Tried A
  pub lasted : ℕ → ℕ
  pub nanos : ℕ
  pub overslept : ℕ

pub data Outcome {ℓ} (A : Type ℓ) : Type ℓ where
  gave : A → Outcome A
  gave_up : ℕ → ℕ → Outcome A
  was_locked : ℕ → Outcome A
  failed : Outcome A

-- How the loop is left: with what, when, and after how many attempts.
pub record Retried {ℓ} (A : Type ℓ) : Type ℓ where
  pub outcome : Outcome A
  pub ended : ℕ
  pub attempts : ℕ

-- The loop of `retry_busy_on`. Without a connection the busy handler is left at `handler`.
module _ {ℓ} {A : Type ℓ} (conn : Bool) (handler busy_timeout deadline : ℕ)
    (turns : ℕ → Turn A) where
  -- The cap on SQLite's own wait.
  abbrev pub busy_cap : ℕ → ℕ
  busy_cap now = if conn then lesser busy_timeout (deadline - now) else handler

  -- The time when the attempt of a turn is over, and when its sleep is.
  abbrev pub tried_at : ℕ → ℕ → ℕ
  tried_at n now =
      now + (turns n).begun_after + (turns n).lasted (busy_cap (now + (turns n).begun_after))

  abbrev pub woken_at : ℕ → ℕ → ℕ → ℕ
  woken_at n at backoff =
      at + lesser (jitter (turns n).nanos backoff) (deadline - at) + (turns n).overslept

  abbrev pub ends : Outcome A → ℕ → ℕ → Option (Retried A)
  ends o at n = some (record { outcome = o; ended = at; attempts = suc n })

  -- What follows an error, with the rest of the loop.
  unfoldable pub after_error : LockErrorKind → ℕ → ℕ → Option (Retried A) → Option (Retried A)
  after_error (LockErrorKind.busy code) at n rest =
      if leb deadline at then ends (gave_up (at / 1000000) code) at n else rest
  after_error (LockErrorKind.locked code) at n rest = ends (was_locked code) at n
  after_error LockErrorKind.other at n rest = ends failed at n

  unfoldable pub after_attempt : Tried A → ℕ → ℕ → Option (Retried A) → Option (Retried A)
  unfolding classify after_error
  after_attempt (gives a) at n rest = ends (gave a) at n
  after_attempt (fails e) at n rest = after_error (classify e) at n rest

  -- `none` is that the fuel is out.
  unfoldable pub retry_loop : ℕ → ℕ → ℕ → ℕ → Option (Retried A)
  retry_loop zero n now backoff = none
  retry_loop (suc fuel) n now backoff =
      let rest =
        retry_loop fuel (suc n) (woken_at n (tried_at n now) backoff)
          (lesser (backoff * 2) backoff_max) in
      if conn && (turns n).handler_fails
      then ends failed (now + (turns n).begun_after) n
      else after_attempt (turns n).tried (tried_at n now) n rest

  unfoldable pub retry_busy_on : ℕ → Option (Retried A)
  retry_busy_on fuel = retry_loop fuel 0 0 backoff_min

-- An attempt is made in at least this time after the last one, unless the deadline comes first.
abbrev pub shortest_pause : ℕ
shortest_pause = 3750000

-- The turns that are enough for a deadline.
abbrev pub turns_for : ℕ → ℕ
turns_for deadline = deadline / shortest_pause + 2

-- `storage.sqlite_busy_timeout_ms` and `storage.lock_deadline_ms`.
pub record LockConfig : Type 0 where
  pub sqlite_busy_timeout_ms : ℕ
  pub lock_deadline_ms : ℕ

-- `WriteTxn::begin`
unfoldable pub begin {ℓ} : {A : Type ℓ} → LockConfig → ℕ → (ℕ → Turn A) → Option (Retried A)
unfolding retry_busy_on retry_loop
begin storage handler turns =
    retry_busy_on true handler (millis storage.sqlite_busy_timeout_ms)
      (millis storage.lock_deadline_ms) turns (turns_for (millis storage.lock_deadline_ms))

-- What is left of the budget in milliseconds, when `elapsed` has passed since the BEGIN.
unfoldable pub remaining_ms : LockConfig → ℕ → ℕ
remaining_ms storage elapsed = storage.lock_deadline_ms - elapsed / 1000000

-- `WriteTxn::commit`. The times of the result count from the call.
unfoldable pub commit_within {ℓ} :
    {A : Type ℓ} → LockConfig → ℕ → ℕ → (ℕ → Turn A) → Option (Retried A)
unfolding retry_busy_on retry_loop remaining_ms
commit_within storage handler elapsed turns =
    retry_busy_on true handler (millis storage.sqlite_busy_timeout_ms)
      (millis (remaining_ms storage elapsed)) turns
      (turns_for (millis (remaining_ms storage elapsed)))
