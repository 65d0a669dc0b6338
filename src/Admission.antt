-- ===== src/Admission.antt =====
-- internal/admission: the local admission queue and the gate over it.
pub mod Types
pub mod Queue
pub mod Gate
mod Tests
