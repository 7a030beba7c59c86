-- ===== src/Registry.antt =====
-- tools/repo_builder/wf_*.py: the registered workflows of some categories.
pub mod Accepted
pub mod Connections
pub mod Replication
pub mod TablesIndexes
pub mod Checked
pub mod Built
