-- ===== src/Store.antt =====
-- src/store/mod.rs: the store. `Read` has the readers and the settling of pending files, `Rows` the rows of
-- an upsert, `Write` the local mutations, `Remote` the imports and `Report` the report on the store. The
-- other modules are about these: `Listed`, `Mismatched` and `Verified` about the report.
pub mod Mismatched
pub mod Listed
pub mod Read
pub mod Rows
pub mod Write
pub mod Remote
pub mod Patch
pub mod Serving
pub mod Readers
pub mod Open
pub mod Report
pub mod Verified
pub mod Guards
pub mod Parking
pub mod Removing
pub mod Deleting
pub mod Importing
pub mod Writing
pub mod Completing
pub mod Returning
pub mod Progress
pub mod Appending
pub mod Locked
pub mod Current
pub mod Landing
pub mod Upserting
pub mod Staging
pub mod Tables
pub mod Settle
pub mod Orphan
