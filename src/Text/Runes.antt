-- ===== src/Text/Runes.antt =====
-- `utf8.DecodeRune` and `utf8.EncodeRune`.
use vaultsmith.Base.{
  ℕ, ◌+◌, ◌/◌, ◌%◌, ◌<◌, ◌≤◌, ◌≡◌, [], ◌∷◌, arith, ltb, if◌then◌else◌, Bytes, length, Option, none,
  some, ap,
}
use vaultsmith.Text.Utf8.{Utf8State, start, inside, bad, step, lead}

abbrev taken_after : ℕ → Option (Bytes × Bytes) → Option (Bytes × Bytes)
taken_after c none = none
taken_after c (some (taken, rest)) = some (c ∷ taken, rest)

taken_after-eq-some :
    (c : ℕ) (o : Option (Bytes × Bytes)) {taken rest : Bytes}
    → taken_after c o ≡ some (taken, rest)
    → (front : Bytes) × (o ≡ some (front, rest))
taken_after-eq-some c none h = cc
taken_after-eq-some c (some (front, r)) {taken} {rest} h =
    let same : r ≡ rest = ground arith in (front, ap (λ x. some (front, x)) same)

-- The bytes of a character from this state on, and what follows them.
rest_of_rune : Utf8State → Bytes → Option (Bytes × Bytes)
rest_of_rune start s = some ([], s)
rest_of_rune bad s = none
rest_of_rune (inside n low high) [] = none
rest_of_rune (inside n low high) (c ∷ s) =
    taken_after c (rest_of_rune (step (inside n low high) c) s)

-- The first character; an invalid or cut one is nothing.
unfoldable pub decode_rune : Bytes → Option (Bytes × Bytes)
unfolding rest_of_rune step lead
decode_rune [] = none
decode_rune (c ∷ s) = taken_after c (rest_of_rune (lead c) s)

-- A code point that is no surrogate and at most 0x10ffff.
unfoldable pub encode_rune : ℕ → Bytes
encode_rune r =
    if ltb r 0x80
    then r ∷ []
    else if ltb r 0x800
    then (0xc0 + r / 64) ∷ (0x80 + r % 64) ∷ []
    else if ltb r 0x10000
    then (0xe0 + r / 4096) ∷ (0x80 + r / 64 % 64) ∷ (0x80 + r % 64) ∷ []
    else (0xf0 + r / 262144) ∷ (0x80 + r / 4096 % 64) ∷ (0x80 + r / 64 % 64) ∷ (0x80 + r % 64) ∷ []

length-rest_of_rune :
    (state : Utf8State) (s : Bytes) {taken rest : Bytes}
    → rest_of_rune state s ≡ some (taken, rest)
    → length rest ≤ length s
unfolding rest_of_rune
length-rest_of_rune start s h = ground arith
length-rest_of_rune bad s h = cc
length-rest_of_rune (inside n low high) [] h = cc
length-rest_of_rune (inside n low high) (c ∷ s) h =
    let (front, e) = taken_after-eq-some c (rest_of_rune (step (inside n low high) c) s) h in
    omega (arith, length-rest_of_rune (step (inside n low high) c) s e)

pub length-decode_rune :
    (s : Bytes) {taken rest : Bytes} → decode_rune s ≡ some (taken, rest) → length rest < length s
unfolding decode_rune
length-decode_rune [] h = cc
length-decode_rune (c ∷ s) h =
    let (front, e) = taken_after-eq-some c (rest_of_rune (lead c) s) h in
    omega (arith, length-rest_of_rune (lead c) s e)
