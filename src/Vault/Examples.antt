-- ===== src/Vault/Examples.antt =====
-- Tests of the format on concrete envelopes, and its theorems at concrete inputs.
use vaultsmith.Base.{
  ℕ, ◌-◌, ◌+◌, ◌≤◌, ◌<◌, ◌%◌, ◌≡◌, ◌↔◌, refl, [], ◌∷◌, ◌++◌, map, some, arith, codes, Bytes,
  AreBytes, All-replicate, length, length-append, length-take, length-replicate, take, replicate,
  ok, err, ◌⊎◌, ◌≢◌, OkOr, bytes_eq, true, if◌then◌else◌, within, ◌==◌,
}
use vaultsmith.Text.Cut
use vaultsmith.Text.Hex
use vaultsmith.Text.Space.{trim_space}
use vaultsmith.Text.Utf8.{valid}
use vaultsmith.Vault.Padding.{pkcs7_pad, pkcs7_unpad, pkcs7_unpad_iff, block_size}
use vaultsmith.Vault.Header.{header11, validate_vault_id, is_supported_header}
use vaultsmith.Vault.Envelope.{
  Envelope, serialize_vault_envelope, parse_envelope, parse_payload, wrap, collect, is_hex,
  invalid_vault, invalid_password,
}
use vaultsmith.Vault.Canonical.{lower, canonical_envelope}
use vaultsmith.Vault.Canonical.Stable.{canonical_envelope_idem}
use vaultsmith.Vault.Canonical.Size.{length-canonical_envelope-le}
use vaultsmith.Vault.Cipher.{
  Crypto, CryptoLaws, inner, encrypt, decrypt, open_envelope, keys, new_ctr,
}
use vaultsmith.Vault.Cipher.RoundTrip.{decrypt-encrypt}
use vaultsmith.Vault.Cipher.Checks.{decrypt_iff, decrypt_errors, decrypt-canonical_envelope, Opens}

-- Primitives with the documented sizes: the key material is the password and the salt, the code is
-- the length of the message, and the stream inverts every bit.
abbrev toy : Crypto
toy = record {
  derive = λ password salt. take 80 (password ++ salt ++ replicate 80 0);
  hmac = λ key message. replicate 32 (length message % 256);
  xor_key_stream = λ key iv text. map (λ c. 255 - c) text;
}

length-inverted : (s : Bytes) → length (map (λ c. 255 - c) s) ≡ length s
length-inverted [] = refl
length-inverted (c ∷ s) = omega (arith, length-inverted s)

inverted-AreBytes : (s : Bytes) → AreBytes s → AreBytes (map (λ c. 255 - c) s)
inverted-AreBytes [] h = tt
inverted-AreBytes (c ∷ s) h = (omega arith, inverted-AreBytes s h.1)

inverted_twice : (s : Bytes) → AreBytes s → map (λ c. 255 - c) (map (λ c. 255 - c) s) ≡ s
inverted_twice [] h = refl
inverted_twice (c ∷ s) h =
    let same : 255 - (255 - c) ≡ c = omega (arith, h.0) in cc (same, inverted_twice s h.1)

toy_laws : CryptoLaws toy
toy_laws = record {
  length-derive = λ password salt. omega (
    arith,
    length-take 80 (password ++ salt ++ replicate 80 0),
    length-append (password ++ salt) (replicate 80 0),
    length-replicate {A = ℕ} 80 0,
  );
  length-hmac = λ key message. length-replicate 32 (length message % 256);
  hmac-AreBytes =
      λ key message. All-replicate (λ c. c < 256) 32 (length message % 256) (omega arith);
  length-stream = λ key iv text. length-inverted text;
  stream-AreBytes = λ key iv text. inverted-AreBytes text;
  stream-stream = λ key iv text. inverted_twice text;
}

abbrev salt : Bytes
salt = replicate 32 9

abbrev sealed_text : Bytes
sealed_text = map (λ c. 255 - c) (codes "secret" ++ replicate 10 10)

-- The envelope of "secret" under the primitives above, on unwrapped lines of hexadecimal digits.
abbrev body : Bytes
body = Hex.encode (inner salt (replicate 32 16) sealed_text)

abbrev text : Bytes
text = serialize_vault_envelope header11 body

-- The same envelope in upper case, with carriage returns and without the last line break.
raise : ℕ → ℕ
raise c = if within b'a' b'f' c then c - 32 else c

with_returns : Bytes → Bytes
with_returns [] = []
with_returns (c ∷ []) = []
with_returns (c ∷ d ∷ s) =
    let rest = with_returns (d ∷ s) in if c == b'\n' then b'\r' ∷ c ∷ rest else c ∷ rest

abbrev foreign_text : Bytes
foreign_text = with_returns (serialize_vault_envelope header11 (map raise body))

-- Opens the whole format for the tests below.
format : Unit {0}
unfolding parse_envelope parse_payload serialize_vault_envelope wrap collect is_hex Cut.contains
    Cut.cut Cut.split Cut.split_n Cut.replace_crlf Cut.trim_newline Hex.encode Hex.decode Hex.value
    Hex.is_digit trim_space validate_vault_id is_supported_header bytes_eq inner raise with_returns
    valid lower
format = tt

parsed : Envelope
parsed = record {
  header = header11;
  body = body;
  salt = salt;
  expected_mac = replicate 32 16;
  ciphertext = sealed_text;
}

parses : parse_envelope text ≡ ok parsed
unfolding format parsed
parses = refl

canonicalizes : canonical_envelope foreign_text ≡ ok text
unfolding format canonical_envelope
canonicalizes = refl

decrypts : decrypt toy text (codes "pw") ≡ ok (codes "secret")
unfolding format decrypt open_envelope keys new_ctr pkcs7_unpad
decrypts = refl

dev-valid : validate_vault_id (codes "dev") ≡ true
unfolding format
dev-valid = refl

pkcs7_unpad_iff_example :
    (pkcs7_unpad (codes "secret" ++ replicate 10 10) block_size ≡ some (codes "secret"))
    ↔ (codes "secret" ++ replicate 10 10 ≡ pkcs7_pad (codes "secret") block_size)
pkcs7_unpad_iff_example = pkcs7_unpad_iff (codes "secret" ++ replicate 10 10) (codes "secret")

decrypt-encrypt_example :
    (t : Bytes) × (encrypt toy (some salt) (codes "secret") (codes "pw") (codes "dev") ≡ ok t)
    × (decrypt toy t (codes "pw") ≡ ok (codes "secret"))
decrypt-encrypt_example =
    decrypt-encrypt toy toy_laws salt (codes "secret") (codes "pw") (omega arith) refl (omega arith)
      (λ e. cc) (codes "dev") dev-valid

decrypt_iff_example :
    (decrypt toy text (codes "pw") ≡ ok (codes "secret"))
    ↔ ((e : Envelope) × (parse_envelope text ≡ ok e) × Opens toy (codes "pw") e (codes "secret"))
decrypt_iff_example = decrypt_iff toy toy_laws (codes "pw") text (codes "secret") (λ e. cc)

decrypt_errors_example :
    ((codes "" ≡ []) × (decrypt toy text (codes "") ≡ err invalid_password))
    ⊎ ((codes "" ≢ []) × OkOr invalid_vault (decrypt toy text (codes "")))
decrypt_errors_example = decrypt_errors toy text (codes "")

decrypt-canonical_envelope_example :
    decrypt toy text (codes "pw") ≡ decrypt toy foreign_text (codes "pw")
decrypt-canonical_envelope_example =
    decrypt-canonical_envelope toy foreign_text text (codes "pw") canonicalizes

canonical_envelope_idem_example : canonical_envelope text ≡ ok text
unfolding format
canonical_envelope_idem_example =
    canonical_envelope_idem foreign_text text canonicalizes (omega arith)

length-canonical_envelope-le_example : length text ≤ length foreign_text + 1
length-canonical_envelope-le_example = length-canonical_envelope-le foreign_text text canonicalizes
