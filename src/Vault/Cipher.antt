-- ===== src/Vault/Cipher.antt =====
-- Encrypt, EncryptWithVaultID, encryptWithHeader and Decrypt. The primitives of golang.org/x/crypto
-- and of Go's crypto packages are parameters.
pub mod Payload
pub mod RoundTrip
pub mod Checks
use vaultsmith.Base.{
  ℕ, ◌+◌, ◌<◌, ◌≡◌, Bool, true, false, not, ◌||◌, ◌++◌, ◌∷◌, Option, some, none, ◌==◌, Bytes,
  AreBytes, length, take, drop, bytes_eq, is_empty, Result, ok, err, ◌>>=◌, ◌>>◌, guard, or_err,
}
use vaultsmith.Text.Hex
use vaultsmith.Vault.Padding.{pkcs7_pad, pkcs7_unpad, block_size}
use vaultsmith.Vault.Header.{validate_vault_id, header12}
use vaultsmith.Vault.Envelope.{
  VaultError, invalid_password, invalid_vault, invalid_vault_id, no_randomness, bad_key_size,
  Envelope, parse_envelope, serialize_vault_envelope,
}

-- `pbkdf2.Key` with the iterations, size and hash that `derive` passes; HMAC-SHA-256 of a key and
-- a message; `XORKeyStream` of the CTR stream of a key and an initial block.
pub record Crypto : Type 0 where
  pub derive : Bytes → Bytes → Bytes
  pub hmac : Bytes → Bytes → Bytes
  pub xor_key_stream : Bytes → Bytes → Bytes → Bytes

-- What their documentation says of sizes, and that the same stream undoes itself.
pub record CryptoLaws (c : Crypto) : Type 0 where
  pub length-derive : (password salt : Bytes) → length (c.derive password salt) ≡ 80
  pub length-hmac : (key message : Bytes) → length (c.hmac key message) ≡ 32
  pub hmac-AreBytes : (key message : Bytes) → AreBytes (c.hmac key message)
  pub length-stream : (key iv text : Bytes) → length (c.xor_key_stream key iv text) ≡ length text
  pub stream-AreBytes :
      (key iv text : Bytes) → AreBytes text → AreBytes (c.xor_key_stream key iv text)
  pub stream-stream :
      (key iv text : Bytes)
      → AreBytes text
      → c.xor_key_stream key iv (c.xor_key_stream key iv text) ≡ text

pub record Keys : Type 0 where
  pub key : Bytes
  pub mac_key : Bytes
  pub iv : Bytes

-- The slices of the derived key material.
unfoldable pub keys : Bytes → Keys
keys material = record {
  key = take 32 material;
  mac_key = take 32 (drop 32 material);
  iv = take 16 (drop 64 material);
}

-- The text that the body encodes: three lines of hexadecimal digits.
unfoldable pub inner : Bytes → Bytes → Bytes → Bytes
inner salt mac ciphertext =
    Hex.encode salt ++ (b'\n' ∷ (Hex.encode mac ++ (b'\n' ∷ Hex.encode ciphertext)))

module _ (c : Crypto) where
  -- newCTR: `aes.NewCipher` takes keys of three sizes.
  unfoldable pub new_ctr : Bytes → Bytes → Option (Bytes → Bytes)
  new_ctr key iv = elim (length key == 16 || length key == 24 || length key == 32) [
    | true ↦ some (c.xor_key_stream key iv)
    | false ↦ none
  ]

  -- `random` is what reading the salt from the random source gave.
  unfoldable pub encrypt_with_header :
      Option Bytes → Bytes → Bytes → Bytes → Result VaultError Bytes
  encrypt_with_header random plaintext password header = do
    guard (not (length password == 0)) invalid_password
    salt ← or_err random no_randomness
    let k = keys (c.derive password salt)
    let padded = pkcs7_pad plaintext block_size
    stream ← or_err (new_ctr k.key k.iv) bad_key_size
    let ciphertext = stream padded
    let mac = c.hmac k.mac_key ciphertext
    ok (serialize_vault_envelope header (Hex.encode (inner salt mac ciphertext)))

  unfoldable pub encrypt : Option Bytes → Bytes → Bytes → Bytes → Result VaultError Bytes
  encrypt random plaintext password vault_id = do
    guard (validate_vault_id vault_id) invalid_vault_id
    encrypt_with_header random plaintext password (header12 vault_id)

  -- Every failure to parse is reported alike.
  abbrev collapse : Result VaultError Envelope → Result VaultError Envelope
  collapse (ok e) = ok e
  collapse (err _) = err invalid_vault

  -- From the parsed envelope on.
  unfoldable pub open_envelope : Bytes → Envelope → Result VaultError Bytes
  open_envelope password envelope = do
    let k = keys (c.derive password envelope.salt)
    guard (bytes_eq envelope.expected_mac (c.hmac k.mac_key envelope.ciphertext)) invalid_vault
    stream ← or_err (new_ctr k.key k.iv) invalid_vault
    or_err (pkcs7_unpad (stream envelope.ciphertext) block_size) invalid_vault

  unfoldable pub decrypt : Bytes → Bytes → Result VaultError Bytes
  decrypt vault_text password = do
    guard (not (length password == 0)) invalid_password
    envelope ← collapse (parse_envelope vault_text)
    open_envelope password envelope
