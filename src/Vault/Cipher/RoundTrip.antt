-- ===== src/Vault/Cipher/RoundTrip.antt =====
-- Decrypt undoes Encrypt.
use vaultsmith.Base.{
  ◌-◌, ◌<◌, ◌%◌, ◌≡◌, ◌≢◌, refl, ◌∙◌, true, false, ◌==◌, some, [], ◌∷◌, arith, Bytes, All-append,
  All-replicate, AreBytes, length, length-append, length-replicate, length-take, take, replicate,
  ok, bytes_eq_refl,
}
use vaultsmith.Text.Hex
use vaultsmith.Text.Hex.{encode-AreHex}
use vaultsmith.Vault.Padding.{pkcs7_pad, block_size, pkcs7_unpad-pad}
use vaultsmith.Vault.Header.{validate_vault_id, header12}
use vaultsmith.Vault.Envelope.{serialize_vault_envelope}
use vaultsmith.Vault.Envelope.Parse.{IsHeader, parse_envelope-serialize, payload-ne-nil}
use vaultsmith.Vault.Cipher.{
  Crypto, CryptoLaws, Keys, keys, new_ctr, inner, encrypt_with_header, encrypt, open_envelope,
  decrypt,
}
use vaultsmith.Vault.Cipher.Payload.{
  header12-IsHeader, IsPayload, inner-AreBytes, parse_payload-inner,
}

pkcs7_pad-AreBytes : (v : Bytes) → AreBytes v → AreBytes (pkcs7_pad v block_size)
unfolding pkcs7_pad
pkcs7_pad-AreBytes v h =
    All-append (λ c. c < 256) v _ h (All-replicate (λ c. c < 256) _ _ (omega arith))

length-pkcs7_pad :
    (v : Bytes) → (0 < length (pkcs7_pad v block_size)) × (length (pkcs7_pad v block_size) % 16 ≡ 0)
unfolding pkcs7_pad
length-pkcs7_pad v =
    let n = block_size - length v % block_size in
    let size = length-append v (replicate n (n % 256)) in
    (
      omega (arith, size, length-replicate n (n % 256)),
      omega (arith, size, length-replicate n (n % 256)),
    )

module _ (c : Crypto) (laws : CryptoLaws c) where
  open laws use {
    length-derive, length-hmac, hmac-AreBytes, length-stream, stream-AreBytes, stream-stream,
  }

  -- A derived key has the size of an AES-256 key.
  pub new_ctr-derive :
      (password salt : Bytes)
      → let k = keys (c.derive password salt) in
        new_ctr c k.key k.iv ≡ some (c.xor_key_stream k.key k.iv)
  unfolding new_ctr keys
  new_ctr-derive password salt =
      let material = c.derive password salt in
      let size : length (take 32 material) ≡ 32 =
        omega (arith, length-take 32 material, length-derive password salt) in
      rw (size, new_ctr)

-- The parts of what encryption writes.
abbrev key_of : Crypto → Bytes → Bytes → Keys
key_of c password salt = keys (c.derive password salt)

abbrev sealed : Crypto → Bytes → Bytes → Bytes → Bytes
sealed c password salt plaintext =
    let k = key_of c password salt in c.xor_key_stream k.key k.iv (pkcs7_pad plaintext block_size)

abbrev mac_of : Crypto → Bytes → Bytes → Bytes → Bytes
mac_of c password salt text = c.hmac (key_of c password salt).mac_key text

abbrev text_of : Crypto → Bytes → Bytes → Bytes → Bytes → Bytes
text_of c password salt plaintext header =
    let ciphertext = sealed c password salt plaintext in
    serialize_vault_envelope header
      (Hex.encode (inner salt (mac_of c password salt ciphertext) ciphertext))

has_length : (s : Bytes) → s ≢ [] → (length s == 0) ≡ false
has_length [] ne = absurd (ne refl)
has_length (x ∷ s) ne = ground arith

module _ (c : Crypto) (laws : CryptoLaws c) (salt plaintext password : Bytes)
    (salt_bytes : AreBytes salt) (length-salt : length salt ≡ 32)
    (plaintext_bytes : AreBytes plaintext) (has_password : password ≢ []) where
  open laws use {
    length-derive, length-hmac, hmac-AreBytes, length-stream, stream-AreBytes, stream-stream,
  }

  payload :
      let ciphertext = sealed c password salt plaintext in
      IsPayload salt (mac_of c password salt ciphertext) ciphertext
  payload =
      let k = key_of c password salt in
      let padded = pkcs7_pad plaintext block_size in
      let size = length-pkcs7_pad plaintext in
      let same = length-stream k.key k.iv padded in
      record {
        salt_bytes = salt_bytes;
        mac_bytes = hmac-AreBytes _ _;
        ciphertext_bytes = stream-AreBytes _ _ _ (pkcs7_pad-AreBytes plaintext plaintext_bytes);
        length-salt = length-salt;
        length-mac = length-hmac _ _;
        some_blocks = omega (arith, same, size);
        whole_blocks = omega (arith, same, size);
      }

  -- Encryption under a header succeeds, with this text.
  encrypt_with_header-eq :
      (header : Bytes)
      → encrypt_with_header c (some salt) plaintext password header
        ≡ ok (text_of c password salt plaintext header)
  unfolding encrypt_with_header
  encrypt_with_header-eq header =
      rw (has_length password has_password, new_ctr-derive c laws password salt)

  open_envelope-sealed :
      (header body : Bytes)
      → let ciphertext = sealed c password salt plaintext in
        open_envelope c password (record {
          header = header;
          body = body;
          salt = salt;
          expected_mac = mac_of c password salt ciphertext;
          ciphertext = ciphertext;
        })
        ≡ ok plaintext
  unfolding open_envelope
  open_envelope-sealed header body =
      let k = key_of c password salt in
      rw (
        bytes_eq_refl (mac_of c password salt (sealed c password salt plaintext)),
        new_ctr-derive c laws password salt,
        stream-stream k.key k.iv (pkcs7_pad plaintext block_size)
            (pkcs7_pad-AreBytes plaintext plaintext_bytes),
        pkcs7_unpad-pad plaintext,
      )

  decrypt-text_of :
      (header : Bytes)
      → IsHeader header
      → decrypt c (text_of c password salt plaintext header) password ≡ ok plaintext
  unfolding decrypt
  decrypt-text_of header v =
      let ciphertext = sealed c password salt plaintext in
      let mac = mac_of c password salt ciphertext in
      let read = parse_payload-inner salt mac ciphertext payload header in
      let parsed =
        parse_envelope-serialize header (Hex.encode (inner salt mac ciphertext)) v
          (encode-AreHex _ (inner-AreBytes salt mac ciphertext payload))
          (payload-ne-nil header _ read)
        ∙ read in
      rw (has_length password has_password, parsed) (open_envelope-sealed header _)

  -- For every salt the random source may give and every valid vault ID, encryption succeeds and
  -- decryption with the same password gives the plaintext back.
  pub decrypt-encrypt :
      (vault_id : Bytes)
      → validate_vault_id vault_id ≡ true
      → (text : Bytes) × (encrypt c (some salt) plaintext password vault_id ≡ ok text)
        × (decrypt c text password ≡ ok plaintext)
  unfolding encrypt
  decrypt-encrypt vault_id v = (
    text_of c password salt plaintext (header12 vault_id),
    rw v (encrypt_with_header-eq (header12 vault_id)),
    decrypt-text_of (header12 vault_id) (header12-IsHeader vault_id v),
  )
