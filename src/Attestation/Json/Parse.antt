-- ===== src/Attestation/Json/Parse.antt =====
-- parseStrictJSON: values, objects and arrays. The loops take fuel: the length of what is left when
-- they begin, one round for its end, and `extra` rounds more.
pub mod Progress
pub mod Fuel
pub mod Strict
use vaultsmith.Base.{
  ℕ, zero, suc, ◌+◌, Bool, true, false, not, ◌||◌, ◌==◌, List, [], ◌∷◌, any, bytes_eq, is_empty,
  codes, Bytes, length, within, if◌then◌else◌, Option, none, some, Result, ok, err, ◌>>=◌, ◌>>◌,
  guard, or_err,
}
use vaultsmith.Text.Utf8.{valid}
use vaultsmith.Attestation.Json.{
  JsonError, invalid_json, out_of_fuel, JsonValue, object, array, string, number, boolean, null,
  Members, no_members, with_member, Items, no_items, with_item,
}
use vaultsmith.Attestation.Json.Text.{
  Parsed, skip_whitespace, consume, consume_literal, string_loop, parse_number,
}

abbrev pub max_attestation_json_container_depth : ℕ
max_attestation_json_container_depth = 2

-- Behind a member or an item: whether the container ends there.
unfoldable pub at_end : ℕ → Bytes → Parsed Bool
at_end close s = elim (consume close (skip_whitespace s)) [
  | some rest ↦ ok (true, rest)
  | none ↦ do
    rest ← or_err (consume b',' (skip_whitespace s)) invalid_json
    ok (false, skip_whitespace rest)
]

module _ (extra : ℕ) where
  unfoldable pub parse_string : Bytes → Parsed Bytes
  parse_string s = do
    rest ← or_err (consume b'"' s) invalid_json
    string_loop (suc (length rest + extra)) rest

  -- A value other than an object or an array, by its first byte.
  unfoldable pub parse_scalar : ℕ → Bytes → Parsed JsonValue
  parse_scalar c s =
      if c == b'"'
      then (parse_string s >>= λ p. ok (string p.0, p.1))
      else if c == b't'
      then (or_err (consume_literal (codes "true") s) invalid_json >>= λ r. ok (boolean true, r))
      else if c == b'f'
      then (or_err (consume_literal (codes "false") s) invalid_json >>= λ r. ok (boolean false, r))
      else if c == b'n'
      then (or_err (consume_literal (codes "null") s) invalid_json >>= λ r. ok (null, r))
      else if c == b'-' || within b'0' b'9' c
      then (parse_number s >>= λ p. ok (number p.0, p.1))
      else err invalid_json

  -- A name that no member had before, and its colon.
  unfoldable pub parse_name : List Bytes → Bytes → Parsed Bytes
  parse_name seen s = do
    (name, s₁) ← parse_string s
    guard (not (any (λ n. bytes_eq n name) seen)) invalid_json
    s₂ ← or_err (consume b':' (skip_whitespace s₁)) invalid_json
    ok (name, skip_whitespace s₂)

  module _ (value : Bytes → Parsed JsonValue) where
    unfoldable pub member_loop : ℕ → List Bytes → Bytes → Parsed Members
    member_loop zero seen s = err out_of_fuel
    member_loop (suc fuel) seen s = do
      (name, s₁) ← parse_name seen s
      (v, s₂) ← value s₁
      (done, s₃) ← at_end b'}' s₂
      elim done [
        | true ↦ ok (with_member name v no_members, s₃)
        | false ↦ do
          (rest, s₄) ← member_loop fuel (name ∷ seen) s₃
          ok (with_member name v rest, s₄)
      ]

    unfoldable pub item_loop : ℕ → Bytes → Parsed Items
    item_loop zero s = err out_of_fuel
    item_loop (suc fuel) s = do
      (v, s₁) ← value s
      (done, s₂) ← at_end b']' s₁
      elim done [
        | true ↦ ok (with_item v no_items, s₂)
        | false ↦ do (rest, s₃) ← item_loop fuel s₂; ok (with_item v rest, s₃)
      ]

    -- From behind the opening bracket.
    unfoldable pub parse_object : Bytes → Parsed JsonValue
    parse_object s = elim (consume b'}' (skip_whitespace s)) [
      | some rest ↦ ok (object no_members, rest)
      | none ↦ do
        (members, rest) ← member_loop (suc (length s + extra)) [] (skip_whitespace s)
        ok (object members, rest)
    ]

    unfoldable pub parse_array : Bytes → Parsed JsonValue
    parse_array s = elim (consume b']' (skip_whitespace s)) [
      | some rest ↦ ok (array no_items, rest)
      | none ↦ do
        (items, rest) ← item_loop (suc (length s + extra)) (skip_whitespace s)
        ok (array items, rest)
    ]

  -- The switch of parseValue, with what it does at a bracket.
  unfoldable pub dispatch : (ℕ → Bytes → Parsed JsonValue) → Bytes → Parsed JsonValue
  dispatch container [] = err invalid_json
  dispatch container (c ∷ s) =
      if c == b'{' || c == b'[' then container c s else parse_scalar c (c ∷ s)

  -- With so many containers to go: `depth` counts up to the greatest depth instead.
  unfoldable pub parse_container : ℕ → ℕ → Bytes → Parsed JsonValue
  parse_container zero c s = err invalid_json
  parse_container (suc left) c s =
      let value = dispatch (parse_container left) in
      if c == b'{' then parse_object value s else parse_array value s

  unfoldable pub parse_value : ℕ → Bytes → Parsed JsonValue
  parse_value left = dispatch (parse_container left)

  unfoldable pub parse_with : Bytes → Result JsonError JsonValue
  parse_with bytes = do
    guard (valid bytes) invalid_json
    (v, rest) ← parse_value max_attestation_json_container_depth (skip_whitespace bytes)
    guard (is_empty (skip_whitespace rest)) invalid_json
    ok v

unfoldable pub parse_strict_json : Bytes → Result JsonError JsonValue
parse_strict_json bytes = parse_with 0 bytes
