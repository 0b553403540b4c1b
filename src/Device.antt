-- ===== src/Device.antt =====
-- tools/vcam_selftest.c: the on-device conformance test.
pub mod Memory
pub mod Expect
pub mod Assignments
pub mod Program
pub mod Run
pub mod Alloc
pub mod Leaks
pub mod Whole
pub mod Closed
pub mod Passes
