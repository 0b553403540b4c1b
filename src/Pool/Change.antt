-- ===== src/Pool/Change.antt =====
-- What an operation of src/vcam_pool.c can do to the slots: nothing, or one of six changes of one
-- slot. The operations' own lemmas are in `Producer`, `Consumer` and `Control`; the other children
-- are about the changes.
pub mod Defs
pub mod Producer
pub mod Consumer
pub mod Control
pub mod Step
pub mod Keeps
pub mod Reads
