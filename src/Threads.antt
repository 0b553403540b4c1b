-- ===== src/Threads.antt =====
-- Threads that call the pool of src/vcam_pool.c at the same time: each function as the program of its
-- steps, with `mutex_lock` and `mutex_unlock` on every path of the code.
pub mod Prog
pub mod Calls
pub mod System
pub mod Discipline
pub mod Implements
pub mod Serial
pub mod Refs
pub mod Queue
pub mod Pose
pub mod Stream
pub mod Progress
