-- ===== src/Ctrl.antt =====
-- src/vcam_ctrl.c: the ioctl dispatch of /dev/vcam and its copies from and to user memory.
pub mod Dispatch
pub mod Encoding
pub mod Effects
pub mod Faults
pub mod Serves
