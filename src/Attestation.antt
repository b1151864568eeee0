-- ===== src/Attestation.antt =====
-- backend/internal/attestation: signed statements about rotations.
pub mod Json
pub mod Errors
pub mod Claims
pub mod Digest
pub mod Jws
pub mod Protocol
pub mod Examples
