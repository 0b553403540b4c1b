-- ===== src/Pool/Invariant.antt =====
-- What holds of the pool's state between calls.
pub mod Defs
pub mod Find
pub mod Write
pub mod Settings
