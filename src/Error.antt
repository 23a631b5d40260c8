-- ===== src/Error.antt =====
-- src/error.rs: the errors of the store, and results of code that may also be cut short.
-- The text of an error is kept as its parts: `NotFound` lists the names it offers and how many more
-- there are.
use mcp_memory_rs.Common.{ℕ, String, List}

-- `std::io::ErrorKind`, as far as the code looks at it.
pub data IoKind : Type 0 where
  missing other_io : IoKind

pub data MemoryError : Type 0 where
  sqlite : MemoryError
  json : MemoryError
  io : IoKind → MemoryError
  not_found : String → List String → ℕ → MemoryError
  already_exists : String → MemoryError
  concurrency_conflict : String → String → MemoryError
  acl_denied : String → String → MemoryError
  invalid_name : String → MemoryError
  kind_mismatch : String → MemoryError
  sync : String → MemoryError
  busy : MemoryError
  locked : MemoryError
  inconsistent : String → MemoryError
  other : String → MemoryError

-- `Ok`, `Err`, or the end of the process in the middle of the call.
pub data Result {ℓ} (A : Type ℓ) : Type ℓ where
  ok : A → Result A
  err : MemoryError → Result A
  crashed : Result A
