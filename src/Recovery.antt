-- ===== src/Recovery.antt =====
-- src/store/recovery.rs: the repair of a store whose rows and files diverge. `Delta` is the difference
-- of two values, `Plan` the read-only plan and `Adopt` its application; `Kept` is about the difference,
-- `Entry`, `Checking` and `Adopting` about the application, and `Recovered` about its end.
pub mod Entry
pub mod Delta
pub mod Plan
pub mod Adopt
pub mod Kept
pub mod Checking
pub mod Adopting
pub mod Recovered
