-- ===== src/Text/Hex.antt =====
-- `encoding/hex`.
use vaultsmith.Base.{
  ℕ, ◌+◌, ◌*◌, ◌/◌, ◌%◌, ◌-◌, ◌<◌, ◌≡◌, refl, Bool, true, false, ◌||◌, Option, none, some, [], ◌∷◌,
  arith, ltb, within, if◌then◌else◌, Bytes, All, AreBytes, length, is_empty,
}

pub digit : ℕ → ℕ
digit n = if ltb n 10 then b'0' + n else b'a' + (n - 10)

unfoldable pub encode : Bytes → Bytes
unfolding digit
encode [] = []
encode (c ∷ s) = digit (c / 16) ∷ digit (c % 16) ∷ encode s

unfoldable pub value : ℕ → Option ℕ
value c =
    if within b'0' b'9' c
    then some (c - b'0')
    else if within b'a' b'f' c
    then some (c - b'a' + 10)
    else if within b'A' b'F' c
    then some (c - b'A' + 10)
    else none

abbrev pair : Option ℕ → Option ℕ → Option Bytes → Option Bytes
pair (some x) (some y) (some s) = some ((x * 16 + y) ∷ s)
pair _ _ _ = none

-- `hex.DecodeString`: an odd length or a byte that is no digit is an error.
unfoldable pub decode : Bytes → Option Bytes
unfolding value
decode [] = some []
decode (a ∷ []) = none
decode (a ∷ b ∷ s) = pair (value a) (value b) (decode s)

unfoldable pub is_digit : ℕ → Bool
is_digit c = within b'0' b'9' c || within b'a' b'f' c || within b'A' b'F' c

pub value-digit : (n : ℕ) → n < 16 → value (digit n) ≡ some n
unfolding value digit
value-digit n h = ground arith

pub decode-encode : (s : Bytes) → AreBytes s → decode (encode s) ≡ some s
unfolding decode encode
decode-encode [] h = refl
decode-encode (c ∷ s) h =
    ground (arith, value-digit (c / 16), value-digit (c % 16), decode-encode s h.1)

is_digit-digit : (n : ℕ) → n < 16 → is_digit (digit n) ≡ true
unfolding is_digit digit
is_digit-digit n h = ground arith

-- What is encoded are digits.
pub encode-AreHex : (s : Bytes) → AreBytes s → All (λ c. is_digit c ≡ true) (encode s)
unfolding encode
encode-AreHex [] h = tt
encode-AreHex (c ∷ s) h = (
  is_digit-digit (c / 16) (omega arith),
  (is_digit-digit (c % 16) (omega arith), encode-AreHex s h.1),
)

pub is_empty-encode : (s : Bytes) → 0 < length s → is_empty (encode s) ≡ false
unfolding encode
is_empty-encode [] h = absurd (omega arith)
is_empty-encode (c ∷ s) h = refl
