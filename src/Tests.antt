-- ===== src/Tests.antt =====
-- Runs on small inputs, and the theorems at inputs that meet their hypotheses.
mod Sync
mod Validation
mod Tree
mod Writing
mod Hidden
mod Links
mod Passing
mod Building
mod Registry
mod Patterns
