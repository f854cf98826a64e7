-- ===== src/Pow.antt =====
-- src/pow.rs: challenges, the proof of work, their eviction, and the difficulty.
pub mod LeadingZeros
pub mod Challenge
pub mod ChallengeSet
pub mod BinaryHeap
pub mod Eviction
pub mod Claims
pub mod Threads
pub mod Difficulty
