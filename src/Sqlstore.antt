-- ===== src/Sqlstore.antt =====
-- The SQL store of packages/hub/internal/store/sqlstore: the repositories whose statements run in a
-- database. A table is the list of its rows in the order in which they were inserted.
pub mod Table
pub mod Transaction
pub mod Secrets
pub mod Configs
pub mod Rebind
pub mod Dsn
pub mod Open
pub mod Manifests
mod Tests
