-- ===== src/Snapshot.antt =====
-- src/store/snapshot.rs: a snapshot of the store, its verification, and the restore. The directories are
-- those of the store or of a snapshot. `Backups` and `Verifying` are about the checks, `Copying` and
-- `Creating` about the creation, `Staged`, `Restoring`, `Endings` and `Completing` about the restore, and
-- `Roundtrip` about the two together.
pub mod Backups
pub mod Staged
pub mod Copying
pub mod Verify
pub mod Restore
pub mod Create
pub mod Creating
pub mod Verifying
pub mod Restoring
pub mod Endings
pub mod Completing
pub mod Roundtrip
