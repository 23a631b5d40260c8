-- ===== src/Common/Instant.antt =====
-- Signed numbers of 64 bits as a cast makes them, and the dates of the `chrono` crate.
use Prim.Native.Nat.{ℕ, ◌-◌, ◌^◌}
use mathlib.Core.Path.{◌≡◌}
use mathlib.Core.Bool.{Bool, true, false}
use mathlib.Core.Option.{Option, some}
use Prim.Native.String.{String}
use mcp_memory_rs.Common.Tests.{ltb, if◌then◌else◌}

-- `negsuc n` is -(n + 1).
pub data ℤ : Type 0 where
  pos : ℕ → ℤ
  negsuc : ℕ → ℤ

-- `n as i64` for an `n : u64`.
abbrev pub as_i64 : ℕ → ℤ
as_i64 n = if ltb n (2 ^ 63) then pos n else negsuc (2 ^ 64 - 1 - n)

-- The crate is not part of the repository: its dates are a parameter.
pub record Chrono : Type 1 where
  pub Instant : Type 0
  -- `DateTime::parse_from_rfc3339`
  pub parse_rfc3339 : String → Option Instant
  -- `t - Duration::days(d)`; `none` where that panics.
  pub sub_days : Instant → ℤ → Option Instant
  -- `a >= b`
  pub at_least : Instant → Instant → Bool

-- What the code relies on: taking days off gives no later date, and adding some a later one.
pub record IsLawful (c : Chrono) : Type 0 where
  pub sub_days_le :
      (t u : c.Instant) (n : ℕ) → c.sub_days t (pos n) ≡ some u → c.at_least t u ≡ true
  pub add_days_lt :
      (t u : c.Instant) (n : ℕ) → c.sub_days t (negsuc n) ≡ some u → c.at_least t u ≡ false
