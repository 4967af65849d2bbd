-- ===== src/Store.antt =====
-- jobs/postgres_store.go.
pub mod Sql
pub mod Db
pub mod Transactions
pub mod Upsert
pub mod Stale
pub mod Queries
pub mod Subscriptions
pub mod Queues
pub mod Clean
pub mod Calls
pub mod ChangeLog
pub mod Instances
pub mod Search
pub mod Stats
pub mod Connection
pub mod Steps
