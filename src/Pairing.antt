-- ===== src/Pairing.antt =====
-- pc-service/src/wol_unlock/pairing.py: the pairing window. Each block that holds the lock is one
-- operation, so that the operations of several callers interleave as the event loop allows.
pub mod Settled
pub mod Phases
pub mod Code
pub mod Manager
pub mod Submit
pub mod Shape
pub mod Enrollment
pub mod Guessing
pub mod Status
