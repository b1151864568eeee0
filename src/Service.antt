-- ===== src/Service.antt =====
-- backend/internal/vaultservice.
pub mod Admission
mod Examples
