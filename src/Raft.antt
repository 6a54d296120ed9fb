-- ===== src/Raft.antt =====
-- components/raft/raft: the consensus library.
pub mod Model
pub mod Progress
pub mod Storage
pub mod Unstable
pub mod Log
pub mod ReadOnly
pub mod State
pub mod Quorum
pub mod Follower
pub mod Leader
pub mod Campaign
pub mod Step
pub mod Node
pub mod Safety
mod Tests
