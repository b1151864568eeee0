-- ===== src/Attestation/Errors.antt =====
-- errors.go.
use vaultsmith.Base.{Option, none, some}

pub data VerificationReason : Type 0 where
  signature_invalid unknown_key key_revoked issuer_mismatch unsupported_version : VerificationReason
  input_digest_mismatch output_digest_mismatch binding_mismatch : VerificationReason

-- ErrMalformed, ErrInvalidSigningKey, ErrInvalidVerifyOptions and the VerificationError.
pub data AttestationError : Type 0 where
  malformed invalid_signing_key invalid_verify_options : AttestationError
  verification : VerificationReason → AttestationError

unfoldable pub verification_reason_of : AttestationError → Option VerificationReason
verification_reason_of (verification reason) = some reason
verification_reason_of _ = none
