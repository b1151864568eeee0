-- ===== src/Attestation/Json/Text/Progress.antt =====
-- What the readers of strings and numbers leave.
use vaultsmith.Base.{
  ℕ, zero, suc, ◌+◌, ◌<◌, ◌≤◌, ◌≡◌, refl, ap, Bool, true, false, ◌||◌, ◌==◌, ltb, within, arith, [],
  ◌∷◌, ◌++◌, codes, Bytes, length, if◌then◌else◌, Option, none, some, ok, ◌>>=◌, guard, or_err,
  ok-injective, bind_ext,
}
use vaultsmith.Text.Hex
use vaultsmith.Text.Runes.{decode_rune, encode_rune, length-decode_rune}
use vaultsmith.Attestation.Json.{invalid_json}
use vaultsmith.Attestation.Json.Text.{
  Parsed, Leaves, failed, left, skip_whitespace, consume, consume_literal, hex_code, low_surrogate,
  whole_code, parse_unicode_escape, parse_escape, parse_character, string_loop, is_digit,
  take_digits, some_digits, alone, integer_part, fraction_part, take_sign, exponent_part,
  minus_part, parse_number,
}

module _ {A : Type 0} where
  pub Leaves-le : {m n : ℕ} {p : Parsed A} → m ≤ n → Leaves m p → Leaves n p
  Leaves-le le failed = failed
  Leaves-le le (left h) = left (omega (arith, le, h))

  -- What a result leaves, by its equation.
  pub Leaves-lt :
      {n : ℕ} {p : Parsed A} {a : A} {rest : Bytes}
      → Leaves n p
      → p ≡ ok (a, rest)
      → length rest < n
  Leaves-lt failed e = cc
  Leaves-lt (left h) e = omega (arith, h, ap length (ok-injective e).1)

  pub Leaves-if :
      {n : ℕ} (b : Bool) {x y : Parsed A} → Leaves n x → Leaves n y → Leaves n (if b then x else y)
  Leaves-if true h k = h
  Leaves-if false h k = k

  pub Leaves-bind :
      {B : Type 0} {n m : ℕ} {p : Parsed A} (f : A × Bytes → Parsed B)
      → Leaves m p
      → ((a : A) (rest : Bytes) → length rest < m → Leaves n (f (a, rest)))
      → Leaves n (p >>= f)
  Leaves-bind f failed k = failed
  Leaves-bind f (left {a} {rest} h) k = k a rest h

  pub Leaves-guard :
      {n : ℕ} (b : Bool) {p : Parsed A} → Leaves n p → Leaves n (guard b invalid_json >>= λ _. p)
  Leaves-guard true h = h
  Leaves-guard false h = failed

  pub Leaves-or_err :
      {B : Type 0} {n : ℕ} (o : Option B) (f : B → Parsed A)
      → ((b : B) → o ≡ some b → Leaves n (f b))
      → Leaves n (or_err o invalid_json >>= f)
  Leaves-or_err none f h = failed
  Leaves-or_err (some b) f h = h b refl

pub length-skip_whitespace : (s : Bytes) → length (skip_whitespace s) ≤ length s
unfolding skip_whitespace
length-skip_whitespace [] = omega arith
length-skip_whitespace (c ∷ s) = ground (arith, length-skip_whitespace s)

pub length-consume : (b : ℕ) (s rest : Bytes) → consume b s ≡ some rest → length rest < length s
unfolding consume
length-consume b [] rest h = cc
length-consume b (c ∷ s) rest h = ground arith

pub length-consume_literal :
    (literal s rest : Bytes)
    → consume_literal literal s ≡ some rest
    → length rest + length literal ≡ length s
unfolding consume_literal
length-consume_literal [] s rest h = ground arith
length-consume_literal (c ∷ literal) [] rest h = cc
length-consume_literal (c ∷ literal) (d ∷ s) rest h =
    ground (arith, length-consume_literal literal s rest)

hex_code-Leaves : (s : Bytes) → Leaves (length s) (hex_code s)
unfolding hex_code
hex_code-Leaves (a ∷ b ∷ c ∷ d ∷ s) =
    Leaves-or_err (Hex.decode (a ∷ b ∷ c ∷ d ∷ [])) _ (λ code_bytes e. left (omega arith))
hex_code-Leaves [] = failed
hex_code-Leaves (a ∷ []) = failed
hex_code-Leaves (a ∷ b ∷ []) = failed
hex_code-Leaves (a ∷ b ∷ c ∷ []) = failed

low_surrogate-Leaves : (high : ℕ) (s : Bytes) → Leaves (length s) (low_surrogate high s)
unfolding low_surrogate
low_surrogate-Leaves high s = Leaves-or_err (consume_literal (codes "\\u") s) _ λ s₁ e.
    Leaves-bind _ (hex_code-Leaves s₁) λ low s₂ less.
      Leaves-guard (within 0xdc00 0xdfff low)
        (left (omega (arith, less, length-consume_literal (codes "\\u") s s₁ e)))

whole_code-Leaves : (code : ℕ) (s : Bytes) → Leaves (suc (length s)) (whole_code code s)
unfolding whole_code
whole_code-Leaves code s =
    Leaves-if (within 0xd800 0xdbff code) (Leaves-le (omega arith) (low_surrogate-Leaves code s))
      (Leaves-if (within 0xdc00 0xdfff code) failed (left (omega arith)))

parse_unicode_escape-Leaves : (s : Bytes) → Leaves (length s) (parse_unicode_escape s)
unfolding parse_unicode_escape
parse_unicode_escape-Leaves s =
    Leaves-bind _ (hex_code-Leaves s)
      λ code s₁ less. Leaves-le (omega (arith, less)) (whole_code-Leaves code s₁)

parse_escape-Leaves : (s : Bytes) → Leaves (length s) (parse_escape s)
unfolding parse_escape
parse_escape-Leaves [] = failed
parse_escape-Leaves (e ∷ s) = either (e == b'"' || e == b'\\' || e == b'/') (e ∷ []) (
    either (e == b'b') (0x08 ∷ []) (
      either (e == b'f') (0x0c ∷ []) (
        either (e == b'n') (0x0a ∷ []) (
          either (e == b'r') (0x0d ∷ [])
            (either (e == b't') (0x09 ∷ []) (Leaves-if (e == b'u') unicode failed))))))
  where
    either :
        (b : Bool) (text : Bytes) {other : Parsed Bytes}
        → Leaves (suc (length s)) other
        → Leaves (suc (length s)) (if b then ok (text, s) else other)
    either b text h = Leaves-if b (left (omega arith)) h

    unicode : Leaves (suc (length s)) (parse_unicode_escape s >>= λ p. ok (encode_rune p.0, p.1))
    unicode =
        Leaves-bind _ (parse_unicode_escape-Leaves s) (λ code s₁ less. left (omega (arith, less)))

pub parse_character-Leaves : (c : ℕ) (s : Bytes) → Leaves (suc (length s)) (parse_character c s)
unfolding parse_character
parse_character-Leaves c s =
    Leaves-if (c == b'\\') (Leaves-le (omega arith) (parse_escape-Leaves s))
      (Leaves-if (ltb c 0x20) failed (rune (decode_rune (c ∷ s)) refl))
  where
    rune :
        (o : Option (Bytes × Bytes))
        → decode_rune (c ∷ s) ≡ o
        → Leaves (suc (length s)) (or_err o invalid_json)
    rune none e = failed
    rune (some (taken, rest)) e = left (length-decode_rune (c ∷ s) e)

-- One round of the loop of parseString.
abbrev round : (Bytes → Parsed Bytes) → ℕ → Bytes → Bool → Parsed Bytes
round loop c s closed = elim closed [
  | true ↦ ok ([], s)
  | false ↦ do (text, s₁) ← parse_character c s; (rest, s₂) ← loop s₁; ok (text ++ rest, s₂)
]

pub string_loop-Leaves :
    (fuel : ℕ) (s : Bytes) → length s < fuel → Leaves (length s) (string_loop fuel s)
unfolding string_loop
string_loop-Leaves zero s h = absurd (omega (arith, h))
string_loop-Leaves (suc fuel) [] h = failed
string_loop-Leaves (suc fuel) (c ∷ s) h =
    elim (c == b'"') as (λ b. Leaves (suc (length s)) (round (string_loop fuel) c s b)) [
      | true ↦ left (omega arith)
      | false ↦ Leaves-bind _ (parse_character-Leaves c s) λ text s₁ less.
          Leaves-bind _ (string_loop-Leaves fuel s₁ (omega (arith, less, h)))
            (λ rest s₂ fewer. left (omega (arith, less, fewer)))
    ]

-- Rounds beyond the number of bytes change nothing.
pub string_loop_fuel :
    (f g : ℕ) (s : Bytes) → length s < f → length s < g → string_loop f s ≡ string_loop g s
unfolding string_loop
string_loop_fuel zero g s h k = absurd (omega (arith, h))
string_loop_fuel (suc f) zero s h k = absurd (omega (arith, k))
string_loop_fuel (suc f) (suc g) [] h k = refl
string_loop_fuel (suc f) (suc g) (c ∷ s) h k =
    elim (c == b'"') as (λ b. round (string_loop f) c s b ≡ round (string_loop g) c s b) [
      | true ↦ refl
      | false ↦ bind_ext (parse_character c s) _ _ λ (text, s₁) e.
          let less = Leaves-lt (parse_character-Leaves c s) e in
          ap (λ p. p >>= λ q. ok (text ++ q.0, q.1))
            (string_loop_fuel f g s₁ (omega (arith, less, h)) (omega (arith, less, k)))
    ]

length-take_digits : (s : Bytes) → length (take_digits s).1 ≤ length s
unfolding take_digits
length-take_digits [] = omega arith
length-take_digits (c ∷ s) = ground (arith, length-take_digits s)

some_digits-Leaves : (first : ℕ) (s : Bytes) → Leaves (length s) (some_digits first s)
unfolding some_digits
some_digits-Leaves first [] = failed
some_digits-Leaves first (c ∷ s) =
    Leaves-if (within first b'9' c) (left (omega (arith, length-take_digits s))) failed

alone-Leaves : (s : Bytes) → Leaves (suc (length s)) (alone s)
unfolding alone
alone-Leaves [] = left (omega arith)
alone-Leaves (c ∷ s) = Leaves-if (is_digit c) failed (left (omega arith))

integer_part-Leaves : (s : Bytes) → Leaves (length s) (integer_part s)
unfolding integer_part
integer_part-Leaves s = split (consume b'0' s) refl
  where
    split :
        (o : Option Bytes)
        → consume b'0' s ≡ o
        → Leaves (length s) (elim o [ some rest ↦ alone rest | none ↦ some_digits b'1' s ])
    split none e = some_digits-Leaves b'1' s
    split (some rest) e =
        Leaves-le (omega (arith, length-consume b'0' s rest e)) (alone-Leaves rest)

fraction_part-Leaves : (s : Bytes) → Leaves (suc (length s)) (fraction_part s)
unfolding fraction_part
fraction_part-Leaves s = split (consume b'.' s) refl
  where
    split :
        (o : Option Bytes)
        → consume b'.' s ≡ o
        → Leaves (suc (length s)) (elim o [
          | none ↦ ok ([], s)
          | some rest ↦ some_digits b'0' rest >>= λ p. ok (b'.' ∷ p.0, p.1)
        ])
    split none e = left (omega arith)
    split (some rest) e =
        Leaves-bind _ (some_digits-Leaves b'0' rest)
          (λ digits s₁ less. left (omega (arith, less, length-consume b'.' s rest e)))

length-take_sign : (s : Bytes) → length (take_sign s).1 ≤ length s
unfolding take_sign
length-take_sign [] = omega arith
length-take_sign (c ∷ s) = ground arith

exponent_part-Leaves : (s : Bytes) → Leaves (suc (length s)) (exponent_part s)
unfolding exponent_part
exponent_part-Leaves [] = left (omega arith)
exponent_part-Leaves (c ∷ s) =
    Leaves-if (c == b'e' || c == b'E')
      (Leaves-bind _ (some_digits-Leaves b'0' (take_sign s).1)
        (λ digits s₁ less. left (omega (arith, less, length-take_sign s))))
      (left (omega arith))

length-minus_part : (s : Bytes) → length (minus_part s).1 ≤ length s
unfolding minus_part
length-minus_part s = split (consume b'-' s) refl
  where
    split :
        (o : Option Bytes)
        → consume b'-' s ≡ o
        → length (
            let p : Bytes × Bytes = elim o [ none ↦ ([], s) | some rest ↦ (b'-' ∷ [], rest) ] in
            p.1)
          ≤ length s
    split none e = omega arith
    split (some rest) e = omega (arith, length-consume b'-' s rest e)

pub parse_number-Leaves : (s : Bytes) → Leaves (length s) (parse_number s)
unfolding parse_number
parse_number-Leaves s = Leaves-bind _ (integer_part-Leaves (minus_part s).1) λ whole s₂ less.
    Leaves-bind _ (fraction_part-Leaves s₂) λ fraction s₃ fewer.
      Leaves-bind _ (exponent_part-Leaves s₃)
        (λ exponent s₄ least. left (omega (arith, less, fewer, least, length-minus_part s)))
