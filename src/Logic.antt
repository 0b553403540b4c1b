-- ===== src/Logic.antt =====
-- src/vcam_logic.c: the pose, range and format rules.
pub mod Pose
pub mod Range
pub mod Format
