-- ===== src/Lib.antt =====
-- Verification library of mcp-memory-rs, a memory server: named JSON documents (categories) that
-- several processes of a device share, with versions, append-only logs and sync between devices.
--
-- The parts of the program and their files here:
--   src/store/atomic_json.rs: `AtomicJson`. The content of a category is the file `<name>.json`. A
--     write first stages it as `<name>.json.new.<suffix>`, a delete parks the file as
--     `<name>.json.deleted.<suffix>`; after the COMMIT the staged file is renamed over the final one,
--     and the parked one goes to the backups. `settle_staged` and `settle_deleted` put right what an
--     interrupted process left, by the hash that the database has.
--   src/store/txn.rs and the SQL of src/store/mod.rs: `Db` has the tables and the statements,
--     `World.transaction` and `World.commit` the write transaction with its rollback.
--   src/store/mod.rs: `Store`. `Read` has the readers, `Rows` the rows of an upsert, `Write` the calls
--     `write_with`, `append` and `delete`, `Remote` the imports and the state of the sync, and `Open`
--     the reconciliation when the store is opened. The other files there are about the proofs:
--     `Settle`, `Staging`, `Upserting`, `Landing`, `Guards` and `Locked` are the steps of a mutation,
--     `Writing`, `Appending`, `Deleting` and `Importing` put them together.
--   src/store/txn.rs, the waiting: `Txn`, the retry of a BEGIN or a COMMIT that finds the database
--     locked, with its backoff and its deadline.
--   src/store/recovery.rs: `Recovery`, the plan for a store whose rows and files diverge, and its
--     adoption. `Store.Report` has the report that the plan starts from.
--   src/store/snapshot.rs: `Snapshot`, the creation of a snapshot, its verification and the restore. A directory is
--     there a value of its own (`Dir`), and the swap of a restore a list of steps that an error or a
--     crash may stop before any of them; a failure of the disk before the marker is written is a stop
--     before the first. What SQLite answers for the copy that `VACUUM INTO` makes is an argument.
--   src/store/log.rs: `Log`, the value of a log category as a function of the old value.
--   src/acl.rs: `Acl`, who may write which category.
--   src/sync.rs: `Sync`, the manifest, the Merkle root, the comparison of two manifests and the
--     transfer envelope.
--   src/server.rs: `Server`, the tools of the MCP server on one category, with the check of the ACL.
--   src/http_server.rs: `Http`, the token and the handlers of the HTTP server on one category.
--   src/error.rs: `Error`.
--   serde_json's `Value`: `Json`.
--
-- How the state is modelled (`World`): the directory of the categories and that of the backups are
-- maps from file names to texts, the database is a record of tables, `saved` is what was committed
-- last. An operation is a function from such a world to a result and a world. A world has a list of
-- outcomes that are to come: every access to the disk or the database takes the next one, which lets
-- it succeed, fail with its error, or end the process; a write that is cut short may leave any text
-- in its file. Past the end of the list all accesses succeed. So a theorem about all worlds is one
-- about every error and every crash at every place. A crash ends in `crashed`, and what another
-- process finds then is the disk with `saved`. A listing of the directory fails or not for the whole
-- call (`unlisted`); that it does not is part of `Recoverable`.
-- `World.Ends` has the reasoning: `Ends Q R (m w)` says that `Q` holds of the result and the disk
-- where `m` returns, and `R` of the disk where it fails or is cut short. `World.Completes` is about
-- worlds in which no access fails. `AtomicJson.Recoverable` is the invariant of the store: for every
-- committed row there is a file of the category with bytes of the hash of the row.
--
-- Parameters, for what is not code of the repository: `Codec` (SHA-256, and serde_json's printer and
-- parser), `Chrono` (the dates of the crate chrono, with `IsLawful` for what the code relies on),
-- `Times` (the moments that one call takes from the clock, and its unique suffix).
--
-- Numbers: a `u64` is a natural number, with `% 2 ^ 64` where the code adds and the cast to `i64`
-- written out; a size is that in bytes of UTF-8. Two loops have a bound: that of
-- `read_consistent` the 40 rounds of the source, and that of `retry_busy_on` a fuel, which is enough if
-- it is the deadline over the shortest pause and two more. What the operating system and SQLite do in a
-- turn of that loop, and how long it takes, is an argument (`Turn`).
--
-- `read_consistent` takes no lock. `Store.Readers` is about it beside other processes, which may do
-- anything to the disk between the read of the row and that of the files, and between the rounds
-- (`Others`); the files of one round are read in one go. The other theorems on readers are about a store
-- that no other process changes meanwhile, as under the write lock.
--
-- Several theorems are about a category whose name has no dot, and `Recoverable` speaks of those alone.
-- `validate_name` admits names with one, and then the final file of one category can look like a staged
-- file of another, which may discard it. That the directory can be listed is assumed for a whole call:
-- `has_pending` counts a directory that cannot be listed as one with nothing pending.
--
-- Not modelled: src/embeddings.rs (floating-point vectors), the full-text search (SQLite's FTS5), the
-- command line, src/migrate.rs, src/backup.rs and the rest of src/config.rs; the column `updated_at` of
-- sync_state, which nothing reads; files that are no UTF-8, which src/store/recovery.rs reads with
-- replacement characters; two processes that interleave inside one mutation, since the write lock keeps
-- them apart.
pub mod Common
pub mod Json
pub mod Acl
pub mod Log
pub mod Error
pub mod Txn
pub mod Db
pub mod World
pub mod AtomicJson
pub mod Codec
pub mod Store
pub mod Recovery
pub mod Snapshot
pub mod Server
pub mod Http
pub mod Sync
pub mod Tests
