-- ===== src/Vault/Envelope.antt =====
-- The text of an envelope: parsedEnvelope, parseEnvelope and serializeVaultEnvelope.
pub mod Wrap
pub mod Parse
use vaultsmith.Base.{
  ℕ, zero, suc, Bool, true, not, ◌||◌, ◌&&◌, Option, none, some, List, [], ◌∷◌, ◌++◌, ltb, ◌==◌,
  ◌%◌, ◌*◌, ◌^◌, if◌then◌else◌, Bytes, length, take, drop, is_empty, Result, ok, err, ◌>>=◌, ◌>>◌,
  guard, or_err,
}
use vaultsmith.Text.Cut.{contains, cut, split, replace_crlf, trim_newline}
use vaultsmith.Text.Hex
use vaultsmith.Vault.Header.{is_supported_header}

-- The package's error values, and the failures of the random source and of `aes.NewCipher`.
pub data VaultError : Type 0 where
  invalid_password invalid_vault invalid_vault_id no_randomness bad_key_size : VaultError

abbrev pub salt_size : ℕ
salt_size = 32

abbrev pub mac_size : ℕ
mac_size = 32

abbrev pub line_width : ℕ
line_width = 80

abbrev pub max_vault_text_bytes : ℕ
max_vault_text_bytes = 5 * 2 ^ 20

pub record Envelope : Type 0 where
  pub header : Bytes
  pub body : Bytes
  pub salt : Bytes
  pub expected_mac : Bytes
  pub ciphertext : Bytes

-- The loop that breaks the body into lines; the length of the body is fuel enough.
unfoldable pub wrap : ℕ → Bytes → Bytes
wrap zero body = body
wrap (suc fuel) body =
    let rest = wrap fuel (drop line_width body) in
    if ltb line_width (length body) then take line_width body ++ (b'\n' ∷ rest) else body

unfoldable pub serialize_vault_envelope : Bytes → Bytes → Bytes
serialize_vault_envelope header body = header ++ (b'\n' ∷ (wrap (length body) body ++ (b'\n' ∷ [])))

unfoldable pub is_hex : Bytes → Bool
is_hex [] = true
is_hex (c ∷ s) = Hex.is_digit c && is_hex s

-- The loop over the lines of the body.
unfoldable pub collect : List Bytes → Option Bytes
unfolding is_hex
collect [] = some []
collect (line ∷ lines) =
    let rest = collect lines in
    if is_empty line || ltb line_width (length line) || not (is_hex line)
    then none
    else elim rest [ none ↦ none | some body ↦ some (line ++ body) ]

-- From the hexadecimal body on: the three fields of the payload.
unfoldable pub parse_payload : Bytes → Bytes → Result VaultError Envelope
parse_payload header body = do
  payload ← or_err (Hex.decode body) invalid_vault
  (salt_hex, rest) ← or_err (cut b'\n' payload) invalid_vault
  (mac_hex, ciphertext_hex) ← or_err (cut b'\n' rest) invalid_vault
  guard
      (not (
        is_empty salt_hex
        || is_empty mac_hex
        || is_empty ciphertext_hex
        || contains b'\n' ciphertext_hex))
      invalid_vault
  salt ← or_err (Hex.decode salt_hex) invalid_vault
  guard (length salt == salt_size) invalid_vault
  expected_mac ← or_err (Hex.decode mac_hex) invalid_vault
  guard (length expected_mac == mac_size) invalid_vault
  ciphertext ← or_err (Hex.decode ciphertext_hex) invalid_vault
  guard (not (length ciphertext == 0) && length ciphertext % 16 == 0) invalid_vault
  ok (record {
    header = header;
    body = body;
    salt = salt;
    expected_mac = expected_mac;
    ciphertext = ciphertext;
  })

unfoldable pub parse_envelope : Bytes → Result VaultError Envelope
parse_envelope vault_text = do
  guard (not (is_empty vault_text)) invalid_vault
  let text = replace_crlf vault_text
  guard (not (contains b'\r' text)) invalid_vault
  (header, body_text) ← or_err (cut b'\n' (trim_newline text)) invalid_vault
  guard (is_supported_header header) invalid_vault
  body ← or_err (collect (split b'\n' body_text)) invalid_vault
  parse_payload header body
