-- ===== src/Pgvector.antt =====
-- saap/plugins/memory/pgvector/__init__.py: the vector store over Postgres, its names of tables and its
-- statements.
pub mod Quoting
pub mod Names
pub mod Store
pub mod Bindings
pub mod Transactions
pub mod Isolation
pub mod Erasure
pub mod Rollback
