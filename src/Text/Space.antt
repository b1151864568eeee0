-- ===== src/Text/Space.antt =====
-- `strings.TrimSpace`: the white space of Unicode, as UTF-8.
use mathlib.Core.List.{reverse}
use vaultsmith.Base.{
  ℕ, zero, suc, Bytes, ◌≡◌, refl, List, [], ◌∷◌, map, if◌then◌else◌, has_prefix, length, drop,
}

-- The encodings of the code points that `unicode.IsSpace` accepts.
abbrev pub spaces : List Bytes
spaces =
    (b'\t' ∷ [])
    ∷ (b'\n' ∷ [])
    ∷ (0x0b ∷ [])
    ∷ (0x0c ∷ [])
    ∷ (b'\r' ∷ [])
    ∷ (b' ' ∷ [])
    ∷ (0xc2 ∷ 0x85 ∷ [])
    ∷ (0xc2 ∷ 0xa0 ∷ [])
    ∷ (0xe1 ∷ 0x9a ∷ 0x80 ∷ [])
    ∷ (0xe2 ∷ 0x80 ∷ 0x80 ∷ [])
    ∷ (0xe2 ∷ 0x80 ∷ 0x81 ∷ [])
    ∷ (0xe2 ∷ 0x80 ∷ 0x82 ∷ [])
    ∷ (0xe2 ∷ 0x80 ∷ 0x83 ∷ [])
    ∷ (0xe2 ∷ 0x80 ∷ 0x84 ∷ [])
    ∷ (0xe2 ∷ 0x80 ∷ 0x85 ∷ [])
    ∷ (0xe2 ∷ 0x80 ∷ 0x86 ∷ [])
    ∷ (0xe2 ∷ 0x80 ∷ 0x87 ∷ [])
    ∷ (0xe2 ∷ 0x80 ∷ 0x88 ∷ [])
    ∷ (0xe2 ∷ 0x80 ∷ 0x89 ∷ [])
    ∷ (0xe2 ∷ 0x80 ∷ 0x8a ∷ [])
    ∷ (0xe2 ∷ 0x80 ∷ 0xa8 ∷ [])
    ∷ (0xe2 ∷ 0x80 ∷ 0xa9 ∷ [])
    ∷ (0xe2 ∷ 0x80 ∷ 0xaf ∷ [])
    ∷ (0xe2 ∷ 0x81 ∷ 0x9f ∷ [])
    ∷ (0xe3 ∷ 0x80 ∷ 0x80 ∷ [])
    ∷ []

-- The length of the space that `s` begins with, or 0.
leading : List Bytes → Bytes → ℕ
leading [] s = 0
leading (e ∷ es) s = if has_prefix e s then length e else leading es s

-- Each round drops at least one byte, so the length of the text is fuel enough.
trim_front : ℕ → List Bytes → Bytes → Bytes
unfolding leading
trim_front zero es s = s
trim_front (suc fuel) es s = elim (leading es s) [
  | zero ↦ s
  | suc n ↦ trim_front fuel es (drop (suc n) s)
]

unfoldable pub trim_space : Bytes → Bytes
unfolding trim_front
trim_space s =
    let front = trim_front (length s) spaces s in
    reverse (trim_front (length front) (map reverse spaces) (reverse front))

trims_both_ends :
    trim_space (0xe2 ∷ 0x80 ∷ 0xa8 ∷ b' ' ∷ b'a' ∷ b' ' ∷ b'b' ∷ 0xc2 ∷ 0xa0 ∷ [])
    ≡ b'a' ∷ b' ' ∷ b'b' ∷ []
unfolding trim_space
trims_both_ends = refl
