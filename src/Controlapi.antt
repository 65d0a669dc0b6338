-- ===== src/Controlapi.antt =====
-- internal/controlapi: the lists of the administration API.
pub mod Pagination
mod Tests
