-- ===== src/Generate.antt =====
-- backend/internal/generate.
pub mod Password
mod Examples
