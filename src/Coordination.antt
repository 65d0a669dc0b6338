-- ===== src/Coordination.antt =====
-- internal/coordination: the limits shared by all processes.
pub mod SortedSets
pub mod Leases
mod Tests
