-- ===== src/Main.antt =====
-- src/vcam_main.c: loading and unloading the module, and opening its device.
pub mod Module
pub mod Lifetime
pub mod Session
pub mod Fresh
