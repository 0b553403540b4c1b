-- ===== src/Pool.antt =====
-- src/vcam_pool.c: the frame pool, its operations and their theorems.
pub mod State
pub mod Producer
pub mod Consumer
pub mod Control
pub mod Step
pub mod Invariant
pub mod Change
pub mod Safety
pub mod Lifecycle
pub mod Fifo
pub mod Stream
pub mod Refs
pub mod Frozen
pub mod Unlocked
pub mod Answers
pub mod Numbers
pub mod Admission
pub mod Delivery
pub mod Returned
pub mod Peeked
pub mod Reported
pub mod Counters
pub mod Conserved
