-- ===== src/Vault/Header.antt =====
-- The header line: ValidateVaultID and isSupportedHeader.
use vaultsmith.Base.{
  Bool, false, not, ◌||◌, ◌&&◌, List, [], ◌∷◌, ◌++◌, Bytes, codes, bytes_eq, is_empty,
}
use vaultsmith.Text.Cut.{contains, split_n}
use vaultsmith.Text.Space.{trim_space}

abbrev pub header11 : Bytes
header11 = codes "$ANSIBLE_VAULT;1.1;AES256"

abbrev pub header12_prefix : Bytes
header12_prefix = codes "$ANSIBLE_VAULT;1.2;AES256"

-- Whether ValidateVaultID returns no error.
unfoldable pub validate_vault_id : Bytes → Bool
validate_vault_id id = not (
    is_empty id
    || not (bytes_eq (trim_space id) id)
    || (contains b';' id || contains b'\r' id || contains b'\n' id))

-- The checks of isSupportedHeader on the parts of the header.
supported_parts : List Bytes → Bool
supported_parts (magic ∷ version ∷ cipher ∷ []) =
    bytes_eq magic (codes "$ANSIBLE_VAULT")
    && bytes_eq version (codes "1.2")
    && bytes_eq cipher (codes "AES256")
supported_parts (magic ∷ version ∷ cipher ∷ label ∷ []) =
    bytes_eq magic (codes "$ANSIBLE_VAULT")
    && bytes_eq version (codes "1.2")
    && bytes_eq cipher (codes "AES256")
    && validate_vault_id label
supported_parts _ = false

unfoldable pub is_supported_header : Bytes → Bool
unfolding supported_parts
is_supported_header header = bytes_eq header header11 || supported_parts (split_n 4 b';' header)

-- The header that EncryptWithVaultID writes for a vault ID.
abbrev pub header12 : Bytes → Bytes
header12 id = header12_prefix ++ (b';' ∷ id)
