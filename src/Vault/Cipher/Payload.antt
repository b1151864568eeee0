-- ===== src/Vault/Cipher/Payload.antt =====
-- The payload and the header that encryption writes are read back.
use vaultsmith.Base.{
  ℕ, ◌<◌, ◌%◌, ◌≡◌, ◌≢◌, refl, true, false, [], ◌∷◌, ◌++◌, arith, codes, Bytes, All-append,
  AreBytes, length, ok, bytes_eq,
}
use vaultsmith.Text.Cut.{
  Free, Free-of-contains, contains, contains-of-Free, cut, cut-append, split_n,
}
use vaultsmith.Text.Hex
use vaultsmith.Text.Hex.{decode-encode, encode-AreHex, is_empty-encode}
use vaultsmith.Vault.Header.{validate_vault_id, is_supported_header, header12, header12_prefix}
use vaultsmith.Vault.Envelope.{parse_payload}
use vaultsmith.Vault.Envelope.Wrap.{AreHex, Free-of_AreHex}
use vaultsmith.Vault.Envelope.Parse.{IsHeader}
use vaultsmith.Vault.Cipher.{inner}

split_n-header12 :
    (id : Bytes)
    → split_n 4 b';' (header12 id) ≡ codes "$ANSIBLE_VAULT" ∷ codes "1.2" ∷ codes "AES256" ∷ id ∷ []
unfolding split_n cut
split_n-header12 id = refl

-- The header for a valid vault ID is one that is accepted.
pub header12-IsHeader : (id : Bytes) → validate_vault_id id ≡ true → IsHeader (header12 id)
unfolding is_supported_header bytes_eq validate_vault_id
header12-IsHeader id v = record {
  supported = rw (split_n-header12 id, v);
  one_line =
      All-append (λ c. c ≢ b'\n') header12_prefix (b';' ∷ id) (omega arith)
        (omega arith, id_free b'\n' (ground arith));
  no_return =
      All-append (λ c. c ≢ b'\r') header12_prefix (b';' ∷ id) (omega arith)
        (omega arith, id_free b'\r' (ground arith));
}
  where
    id_free : (b : ℕ) → contains b id ≡ false → Free b id
    id_free b = Free-of-contains b id

AreBytes-of_AreHex : (s : Bytes) → AreHex s → AreBytes s
unfolding Hex.is_digit
AreBytes-of_AreHex [] h = tt
AreBytes-of_AreHex (c ∷ s) h = (ground (arith, h.0), AreBytes-of_AreHex s h.1)

-- The sizes and ranges of the three parts of a payload.
pub record IsPayload (salt mac ciphertext : Bytes) : Type 0 where
  pub salt_bytes : AreBytes salt
  pub mac_bytes : AreBytes mac
  pub ciphertext_bytes : AreBytes ciphertext
  pub length-salt : length salt ≡ 32
  pub length-mac : length mac ≡ 32
  pub some_blocks : 0 < length ciphertext
  pub whole_blocks : length ciphertext % 16 ≡ 0

module _ (salt mac ciphertext : Bytes) (p : IsPayload salt mac ciphertext) where
  no_break : (s : Bytes) → AreBytes s → Free b'\n' (Hex.encode s)
  no_break s h = Free-of_AreHex b'\n' _ (omega arith) (encode-AreHex s h)

  hex_bytes : (s : Bytes) → AreBytes s → AreBytes (Hex.encode s)
  hex_bytes s h = AreBytes-of_AreHex _ (encode-AreHex s h)

  pub inner-AreBytes : AreBytes (inner salt mac ciphertext)
  unfolding inner
  inner-AreBytes =
      All-append (λ c. c < 256) (Hex.encode salt) _ (hex_bytes salt p.salt_bytes)
        (
          omega arith,
          All-append (λ c. c < 256) (Hex.encode mac) _ (hex_bytes mac p.mac_bytes)
              (omega arith, hex_bytes ciphertext p.ciphertext_bytes),
        )

  pub parse_payload-inner :
      (header : Bytes)
      → parse_payload header (Hex.encode (inner salt mac ciphertext))
        ≡ ok (record {
          header = header;
          body = Hex.encode (inner salt mac ciphertext);
          salt = salt;
          expected_mac = mac;
          ciphertext = ciphertext;
        })
  unfolding parse_payload inner
  parse_payload-inner header =
      rw
        (
          decode-encode (inner salt mac ciphertext) inner-AreBytes,
          cut-append b'\n' (Hex.encode salt) (Hex.encode mac ++ (b'\n' ∷ Hex.encode ciphertext))
              (no_break salt p.salt_bytes),
          cut-append b'\n' (Hex.encode mac) (Hex.encode ciphertext) (no_break mac p.mac_bytes),
          is_empty-encode salt (omega (arith, p.length-salt)),
          is_empty-encode mac (omega (arith, p.length-mac)),
          is_empty-encode ciphertext p.some_blocks,
          contains-of-Free b'\n' (Hex.encode ciphertext) (no_break ciphertext p.ciphertext_bytes),
          decode-encode salt p.salt_bytes,
          p.length-salt,
          decode-encode mac p.mac_bytes,
          p.length-mac,
          decode-encode ciphertext p.ciphertext_bytes,
        )
        (ground (arith, p.some_blocks, p.whole_blocks))
