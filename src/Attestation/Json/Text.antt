-- ===== src/Attestation/Json/Text.antt =====
-- Strings and numbers of a JSON text.
pub mod Progress
use vaultsmith.Base.{
  ℕ, zero, suc, ◌+◌, ◌-◌, ◌*◌, ◌<◌, Bool, true, false, ◌||◌, ◌&&◌, ◌==◌, ltb, within, [], ◌∷◌, ◌++◌,
  codes, Bytes, length, if◌then◌else◌, Option, none, some, Result, ok, err, ◌>>=◌, ◌>>◌, guard,
  or_err,
}
use vaultsmith.Text.Hex
use vaultsmith.Text.Runes.{decode_rune, encode_rune}
use vaultsmith.Attestation.Json.{JsonError, invalid_json, out_of_fuel}

-- What was read, and what is left.
abbrev pub Parsed : Type 0 → Type 0
Parsed A = Result JsonError (A × Bytes)

-- The text is refused, or less is left than `n`.
pub data Leaves {A : Type 0} (n : ℕ) : Parsed A → Type 0 where
  failed : Leaves n (err invalid_json)
  left : {a : A} {rest : Bytes} → length rest < n → Leaves n (ok (a, rest))

unfoldable pub skip_whitespace : Bytes → Bytes
skip_whitespace [] = []
skip_whitespace (c ∷ s) =
    if c == b' ' || c == b'\t' || c == b'\n' || c == b'\r' then skip_whitespace s else c ∷ s

-- The expected byte is left out.
unfoldable pub consume : ℕ → Bytes → Option Bytes
consume expected [] = none
consume expected (c ∷ s) = if c == expected then some s else none

-- The text is left out.
unfoldable pub consume_literal : Bytes → Bytes → Option Bytes
consume_literal [] s = some s
consume_literal (c ∷ literal) [] = none
consume_literal (c ∷ literal) (d ∷ s) = if c == d then consume_literal literal s else none

-- `rune(codeBytes[0])<<8 | rune(codeBytes[1])`
code_point : Bytes → ℕ
code_point (high ∷ low ∷ []) = high * 256 + low
code_point _ = 0

-- Four hexadecimal digits.
hex_code : Bytes → Parsed ℕ
unfolding code_point
hex_code (a ∷ b ∷ c ∷ d ∷ s) = do
  code_bytes ← or_err (Hex.decode (a ∷ b ∷ c ∷ d ∷ [])) invalid_json
  ok (code_point code_bytes, s)
hex_code _ = err invalid_json

-- The second half of a surrogate pair.
low_surrogate : ℕ → Bytes → Parsed ℕ
unfolding hex_code
low_surrogate high s = do
  s₁ ← or_err (consume_literal (codes "\\u") s) invalid_json
  (low, s₂) ← hex_code s₁
  guard (within 0xdc00 0xdfff low) invalid_json
  ok (0x10000 + (high - 0xd800) * 1024 + (low - 0xdc00), s₂)

-- From the first code on: a high surrogate wants a low one behind it, and no low one comes first.
whole_code : ℕ → Bytes → Parsed ℕ
unfolding low_surrogate
whole_code code s =
    if within 0xd800 0xdbff code
    then low_surrogate code s
    else if within 0xdc00 0xdfff code
    then err invalid_json
    else ok (code, s)

unfoldable pub parse_unicode_escape : Bytes → Parsed ℕ
unfolding hex_code whole_code
parse_unicode_escape s = do (code, s₁) ← hex_code s; whole_code code s₁

-- What follows a backslash.
unfoldable pub parse_escape : Bytes → Parsed Bytes
parse_escape [] = err invalid_json
parse_escape (e ∷ s) =
    if e == b'"' || e == b'\\' || e == b'/'
    then ok (e ∷ [], s)
    else if e == b'b'
    then ok (0x08 ∷ [], s)
    else if e == b'f'
    then ok (0x0c ∷ [], s)
    else if e == b'n'
    then ok (0x0a ∷ [], s)
    else if e == b'r'
    then ok (0x0d ∷ [], s)
    else if e == b't'
    then ok (0x09 ∷ [], s)
    else if e == b'u'
    then (parse_unicode_escape s >>= λ p. ok (encode_rune p.0, p.1))
    else err invalid_json

-- One character or escape of a string, other than the closing quote.
unfoldable pub parse_character : ℕ → Bytes → Parsed Bytes
parse_character c s =
    if c == b'\\'
    then parse_escape s
    else if ltb c 0x20
    then err invalid_json
    else or_err (decode_rune (c ∷ s)) invalid_json

-- The loop of parseString, from behind the opening quote.
unfoldable pub string_loop : ℕ → Bytes → Parsed Bytes
string_loop zero s = err out_of_fuel
string_loop (suc fuel) [] = err invalid_json
string_loop (suc fuel) (c ∷ s) = elim (c == b'"') [
  | true ↦ ok ([], s)
  | false ↦ do
    (text, s₁) ← parse_character c s
    (rest, s₂) ← string_loop fuel s₁
    ok (text ++ rest, s₂)
]

abbrev is_digit : ℕ → Bool
is_digit = within b'0' b'9'

unfoldable pub take_digits : Bytes → Bytes × Bytes
take_digits [] = ([], [])
take_digits (c ∷ s) =
    let (digits, rest) = take_digits s in if is_digit c then (c ∷ digits, rest) else ([], c ∷ s)

-- A digit from `first` to 9, and the digits that follow.
some_digits : ℕ → Bytes → Parsed Bytes
some_digits first [] = err invalid_json
some_digits first (c ∷ s) =
    if within first b'9' c
    then (let (digits, rest) = take_digits s in ok (c ∷ digits, rest))
    else err invalid_json

-- A zero stands alone.
alone : Bytes → Parsed Bytes
alone [] = ok (b'0' ∷ [], [])
alone (c ∷ s) = if is_digit c then err invalid_json else ok (b'0' ∷ [], c ∷ s)

integer_part : Bytes → Parsed Bytes
unfolding some_digits alone
integer_part s = elim (consume b'0' s) [ some rest ↦ alone rest | none ↦ some_digits b'1' s ]

fraction_part : Bytes → Parsed Bytes
unfolding some_digits
fraction_part s = elim (consume b'.' s) [
  | none ↦ ok ([], s)
  | some rest ↦ some_digits b'0' rest >>= λ p. ok (b'.' ∷ p.0, p.1)
]

-- The sign of an exponent, if there is one.
take_sign : Bytes → Bytes × Bytes
take_sign [] = ([], [])
take_sign (c ∷ s) = if c == b'+' || c == b'-' then (c ∷ [], s) else ([], c ∷ s)

exponent_part : Bytes → Parsed Bytes
unfolding some_digits take_sign
exponent_part [] = ok ([], [])
exponent_part (c ∷ s) =
    if c == b'e' || c == b'E'
    then (let (sign, rest) = take_sign s in
        some_digits b'0' rest >>= λ p. ok (c ∷ (sign ++ p.0), p.1))
    else ok ([], c ∷ s)

minus_part : Bytes → Bytes × Bytes
minus_part s = elim (consume b'-' s) [ none ↦ ([], s) | some rest ↦ (b'-' ∷ [], rest) ]

unfoldable pub parse_number : Bytes → Parsed Bytes
unfolding minus_part integer_part fraction_part exponent_part
parse_number s =
    let (minus, s₁) = minus_part s in
    do
      (whole, s₂) ← integer_part s₁
      (fraction, s₃) ← fraction_part s₂
      (exponent, s₄) ← exponent_part s₃
      ok (minus ++ (whole ++ (fraction ++ exponent)), s₄)
