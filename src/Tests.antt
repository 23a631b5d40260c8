-- ===== src/Tests.antt =====
-- The theorems at concrete inputs, and runs of the definitions.
mod Fixtures
mod Acls
mod Logs
mod Stores
mod Mutations
mod Syncs
mod Txns
mod Reports
mod Recoveries
mod Snapshots
mod Servers
mod Https
