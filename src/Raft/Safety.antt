-- ===== src/Raft/Safety.antt =====
-- What no step of a node takes back: its term, its vote within a term, and its commit index.
pub mod Later
mod LogCommit
pub mod Handlers
pub mod Elections
pub mod Steps
