-- ===== src/Vault.antt =====
-- backend/internal/ansiblevault/vault.go: the Ansible Vault 1.1 and 1.2 format.
pub mod Padding
pub mod Header
pub mod Envelope
pub mod Canonical
pub mod Cipher
mod Examples
