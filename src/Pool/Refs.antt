-- ===== src/Pool/Refs.antt =====
-- The reference contract of include/vcam_kmod.h: what each call does to the dma-buf references.
pub mod Held
pub mod Calls
pub mod Destroy
