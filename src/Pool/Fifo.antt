-- ===== src/Pool/Fifo.antt =====
-- The pool as a queue of frames: what waits, in the order of delivery.
pub mod Pending
pub mod Order
pub mod Lossless
