-- ===== src/Vault/Canonical.antt =====
-- CanonicalEnvelope.
pub mod Stable
pub mod Size
use vaultsmith.Base.{
  ℕ, ◌+◌, Bool, not, ◌||◌, map, ltb, within, if◌then◌else◌, Bytes, length, Result, ok, ◌>>=◌, ◌>>◌,
  guard,
}
use vaultsmith.Text.Utf8.{valid}
use vaultsmith.Vault.Envelope.{
  VaultError, invalid_vault, Envelope, parse_envelope, serialize_vault_envelope,
  max_vault_text_bytes,
}

-- `strings.ToLower` on a body, whose bytes are all ASCII.
unfoldable pub lower : ℕ → ℕ
lower c = if within b'A' b'Z' c then c + 32 else c

unfoldable pub canonical_envelope : Bytes → Result VaultError Bytes
canonical_envelope text = do
  guard (not (ltb max_vault_text_bytes (length text) || not (valid text))) invalid_vault
  envelope ← parse_envelope text
  ok (serialize_vault_envelope envelope.header (map lower envelope.body))
