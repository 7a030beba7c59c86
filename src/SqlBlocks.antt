-- ===== src/SqlBlocks.antt =====
-- tools/repo_builder/sql_blocks.py: the SQL bodies that workflows share, by section.
pub mod ReadOnly
pub mod Sessions
pub mod Locks
pub mod Transactions
pub mod Vacuum
pub mod Indexes
pub mod Statements
pub mod Storage
pub mod Wal
pub mod Replication
pub mod Settings
pub mod Capacity
pub mod SchemaChanges
