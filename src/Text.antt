-- ===== src/Text.antt =====
-- What the program uses of Go's `strings`, `encoding/hex`, `encoding/base64` and `unicode/utf8`,
-- over bytes.
pub mod Cut
pub mod Hex
pub mod Space
pub mod Utf8
pub mod Runes
pub mod Base64
