-- ===== src/Verify.antt =====
-- verify/: the kernel's own ioctl encoding, and the check of include/vcam_uapi.h against it.
pub mod Ioctl
pub mod Check
