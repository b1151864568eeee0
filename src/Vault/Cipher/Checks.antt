-- ===== src/Vault/Cipher/Checks.antt =====
-- What Decrypt accepts, and how it fails.
use vaultsmith.Base.{
  ◌≡◌, ◌≢◌, ◌↔◌, ◌⊎◌, refl, false, ◌==◌, [], ◌∷◌, arith, Bytes, length, ok, err, guard_then,
  or_err-eq-ok, Result-cases, OkOr, OkOr-or_err, OkOr-or_err_then, OkOr-guard_then, bytes_eq,
  bytes_eq_iff, inl, inr,
}
use vaultsmith.Vault.Padding.{pkcs7_pad, pkcs7_unpad, block_size, pkcs7_unpad_iff}
use vaultsmith.Vault.Envelope.{Envelope, invalid_password, invalid_vault, parse_envelope}
use vaultsmith.Vault.Canonical.{canonical_envelope}
use vaultsmith.Vault.Canonical.Stable.{canonical_envelope-Canonical}
use vaultsmith.Vault.Cipher.{Crypto, CryptoLaws, keys, new_ctr, open_envelope, decrypt}
use vaultsmith.Vault.Cipher.RoundTrip.{new_ctr-derive}

module _ (c : Crypto) (password : Bytes) where
  -- An envelope authenticates under the password and holds the plaintext, padded.
  pub record Opens (e : Envelope) (plaintext : Bytes) : Type 0 where
    pub authentic : e.expected_mac ≡ c.hmac (keys (c.derive password e.salt)).mac_key e.ciphertext
    pub decrypted :
        c.xor_key_stream
          (keys (c.derive password e.salt)).key
          (keys (c.derive password e.salt)).iv
          e.ciphertext
        ≡ pkcs7_pad plaintext block_size

pub has_password : (password : Bytes) → password ≢ [] → (length password == 0) ≡ false
has_password [] ne = absurd (ne refl)
has_password (x ∷ s) ne = ground arith

module _ (c : Crypto) (laws : CryptoLaws c) (password : Bytes) where
  open_envelope-Opens :
      (e : Envelope) (plaintext : Bytes)
      → open_envelope c password e ≡ ok plaintext
      → Opens c password e plaintext
  unfolding open_envelope
  open_envelope-Opens e plaintext h =
      let k = keys (c.derive password e.salt) in
      let mac = c.hmac k.mac_key e.ciphertext in
      let (same, opened) =
        guard_then (bytes_eq e.expected_mac mac) invalid_vault _
          (rw (new_ctr-derive c laws password e.salt) at h) in
      record {
        authentic = (bytes_eq_iff e.expected_mac mac).0 same;
        decrypted = (pkcs7_unpad_iff _ plaintext).0 (or_err-eq-ok _ invalid_vault opened);
      }

  Opens-open_envelope :
      (e : Envelope) (plaintext : Bytes)
      → Opens c password e plaintext
      → open_envelope c password e ≡ ok plaintext
  unfolding open_envelope
  Opens-open_envelope e plaintext o = rw (
    (bytes_eq_iff e.expected_mac (c.hmac (keys (c.derive password e.salt)).mac_key e.ciphertext)).1
        o.authentic,
    new_ctr-derive c laws password e.salt,
    (pkcs7_unpad_iff _ plaintext).1 o.decrypted,
  )

  -- Decryption returns a plaintext exactly when the text is an envelope that authenticates under
  -- the password and whose decrypted text is that plaintext, padded.
  pub decrypt_iff :
      (text plaintext : Bytes)
      → password ≢ []
      → (decrypt c text password ≡ ok plaintext)
        ↔ ((e : Envelope) × (parse_envelope text ≡ ok e) × Opens c password e plaintext)
  unfolding decrypt
  decrypt_iff text plaintext ne = (
    accepted,
    λ (e, parsed, o). rw (has_password password ne, parsed) (Opens-open_envelope e plaintext o),
  )
    where
      accepted :
          decrypt c text password ≡ ok plaintext
          → (e : Envelope) × (parse_envelope text ≡ ok e) × Opens c password e plaintext
      accepted h = elim (Result-cases (parse_envelope text)) [
        | inl (x, bad) ↦ absurd (ground arith)
        | inr (e, good) ↦ (e, good, open_envelope-Opens e plaintext (ground arith))
      ]

-- The failures of opening an envelope look alike.
open_envelope-OkOr :
    (c : Crypto) (password : Bytes) (e : Envelope) → OkOr invalid_vault (open_envelope c password e)
unfolding open_envelope
open_envelope-OkOr c password e =
    let k = keys (c.derive password e.salt) in
    OkOr-guard_then (bytes_eq e.expected_mac (c.hmac k.mac_key e.ciphertext)) invalid_vault _ (
      OkOr-or_err_then (new_ctr c k.key k.iv) invalid_vault _
        λ stream. OkOr-or_err (pkcs7_unpad (stream e.ciphertext) block_size) invalid_vault)

decrypt-OkOr :
    (c : Crypto) (text password : Bytes)
    → password ≢ []
    → OkOr invalid_vault (decrypt c text password)
unfolding decrypt
decrypt-OkOr c text password ne = elim (Result-cases (parse_envelope text)) [
  | inl (x, bad) ↦ rw (has_password password ne, bad) (inr refl)
  | inr (e, good) ↦ rw (has_password password ne, good) (open_envelope-OkOr c password e)
]

-- With a password, decryption returns a plaintext or the one error of an invalid vault: the error
-- does not tell a wrong password from a malformed text. With none it reports the password.
pub decrypt_errors :
    (c : Crypto) (text password : Bytes)
    → ((password ≡ []) × (decrypt c text password ≡ err invalid_password))
      ⊎ ((password ≢ []) × OkOr invalid_vault (decrypt c text password))
unfolding decrypt
decrypt_errors c text [] = inl (refl, refl)
decrypt_errors c text (x ∷ s) = inr ((λ e. cc), decrypt-OkOr c text (x ∷ s) (λ e. cc))

-- The canonical text of an envelope decrypts as the text that it was made from, under every
-- password.
pub decrypt-canonical_envelope :
    (c : Crypto) (text canonical password : Bytes)
    → canonical_envelope text ≡ ok canonical
    → decrypt c canonical password ≡ decrypt c text password
unfolding decrypt open_envelope
decrypt-canonical_envelope c text canonical password h =
    let k = canonical_envelope-Canonical text canonical h in rw (k.parsed, k.reparsed) refl
