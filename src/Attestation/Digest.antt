-- ===== src/Attestation/Digest.antt =====
-- digest.go. SHA-256 is a parameter.
pub mod Roles
use vaultsmith.Base.{Bytes, codes, [], ◌∷◌, ◌++◌, Result, ok, ◌>>=◌, with_error}
use vaultsmith.Text.Hex
use vaultsmith.Vault.Canonical.{canonical_envelope}
use vaultsmith.Attestation.Errors.{AttestationError, malformed}

abbrev pub input_digest_domain : Bytes
input_digest_domain = codes "vaultsmith:rotation-attestation:input:v1" ++ 0 ∷ []

abbrev pub output_digest_domain : Bytes
output_digest_domain = codes "vaultsmith:rotation-attestation:output:v1" ++ 0 ∷ []

module _ (sha256 : Bytes → Bytes) where
  unfoldable pub digest_canonical : Bytes → Bytes → Bytes
  digest_canonical domain canonical = Hex.encode (sha256 (domain ++ canonical))

  unfoldable pub input_digest_bytes : Bytes → Bytes
  input_digest_bytes canonical = digest_canonical input_digest_domain canonical

  unfoldable pub output_digest_bytes : Bytes → Bytes
  output_digest_bytes canonical = digest_canonical output_digest_domain canonical

  unfoldable pub input_digest : Bytes → Result AttestationError Bytes
  input_digest text = do
    canonical ← with_error malformed (canonical_envelope text)
    ok (digest_canonical input_digest_domain canonical)

  unfoldable pub output_digest : Bytes → Result AttestationError Bytes
  output_digest text = do
    canonical ← with_error malformed (canonical_envelope text)
    ok (digest_canonical output_digest_domain canonical)
