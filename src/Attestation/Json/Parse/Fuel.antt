-- ===== src/Attestation/Json/Parse/Fuel.antt =====
-- The fuel of the loops of the parser.
use vaultsmith.Base.{
  ℕ, zero, suc, ◌+◌, ◌<◌, ◌≡◌, refl, ap, ◌∙◌, inl, inr, Bool-cases, is_empty, Bool, true, false,
  ◌||◌, ◌==◌, within, arith, List, [], ◌∷◌, codes, Bytes, length, if◌then◌else◌, none, some, ok,
  err, ◌>>=◌, guard, or_err, bind_ext, bind_both,
}
use vaultsmith.Text.Utf8.{valid}
use vaultsmith.Attestation.Json.{
  invalid_json, out_of_fuel, JsonValue, object, array, string, number, boolean, null, Members,
  no_members, with_member, Items, no_items, with_item,
}
use vaultsmith.Attestation.Json.Text.{
  Parsed, Leaves, failed, left, skip_whitespace, consume, consume_literal, parse_number,
}
use vaultsmith.Attestation.Json.Text.Progress.{Leaves-lt, length-skip_whitespace, string_loop_fuel}
use vaultsmith.Attestation.Json.Parse.{
  max_attestation_json_container_depth, at_end, parse_string, parse_scalar, parse_name, member_loop,
  item_loop, parse_object, parse_array, dispatch, parse_container, parse_value, parse_with,
  parse_strict_json,
}
use vaultsmith.Attestation.Json.Parse.Progress.{
  at_end-Leaves, parse_name-Leaves, parse_value-Leaves,
}

-- What is left of a text that was read, or refused, is looked at without a loop.
settled :
    {n : ℕ} {p : Parsed JsonValue}
    → Leaves n p
    → ¬ (
        (p >>= λ q. guard (is_empty (skip_whitespace q.1)) invalid_json >>= λ _. ok q.0)
        ≡ err out_of_fuel)
settled failed h = cc
settled (left {a = v} {rest} less) h = elim (Bool-cases (is_empty (skip_whitespace rest))) [
  | inl e ↦ cc (rw e at h)
  | inr e ↦ cc (rw e at h)
]

module _ (extra : ℕ) where
  parse_string_fuel : (s : Bytes) → parse_string extra s ≡ parse_string 0 s
  unfolding parse_string
  parse_string_fuel s = bind_ext (or_err (consume b'"' s) invalid_json) _ _ λ rest e.
      string_loop_fuel (suc (length rest + extra)) (suc (length rest + 0)) rest (omega arith)
        (omega arith)

  parse_name_fuel : (seen : List Bytes) (s : Bytes) → parse_name extra seen s ≡ parse_name 0 seen s
  unfolding parse_name
  parse_name_fuel seen s = bind_both _ _ (parse_string_fuel s) (λ p e. refl)

  parse_scalar_fuel : (c : ℕ) (s : Bytes) → parse_scalar extra c s ≡ parse_scalar 0 c s
  unfolding parse_scalar
  parse_scalar_fuel c s =
      ap
        (λ (p : Parsed Bytes).
          if c == b'"'
          then (p >>= λ q. ok (string q.0, q.1))
          else if c == b't'
          then (or_err (consume_literal (codes "true") s) invalid_json >>= λ r.
              ok (boolean true, r))
          else if c == b'f'
          then (or_err (consume_literal (codes "false") s) invalid_json >>= λ r.
              ok (boolean false, r))
          else if c == b'n'
          then (or_err (consume_literal (codes "null") s) invalid_json >>= λ r. ok (null, r))
          else if c == b'-' || within b'0' b'9' c
          then (parse_number s >>= λ q. ok (number q.0, q.1))
          else err invalid_json)
        (parse_string_fuel s)

  module _ (value other : Bytes → Parsed JsonValue) (same : (s : Bytes) → value s ≡ other s)
      (small : (s : Bytes) → Leaves (length s) (value s)) where
    member_loop_fuel :
        (f g : ℕ) (seen : List Bytes) (s : Bytes)
        → length s < f
        → length s < g
        → member_loop extra value f seen s ≡ member_loop 0 other g seen s
    unfolding member_loop
    member_loop_fuel zero g seen s h k = absurd (omega (arith, h))
    member_loop_fuel (suc f) zero seen s h k = absurd (omega (arith, k))
    member_loop_fuel (suc f) (suc g) seen s h k =
        bind_both _ _ (parse_name_fuel seen s) λ (name, s₁) e₁.
          bind_both _ _ (same s₁) λ (v, s₂) e₂. bind_ext (at_end b'}' s₂) _ _ λ (done, s₃) e₃.
            let less = Leaves-lt (parse_name-Leaves extra seen s) e₁ in
            let fewer = Leaves-lt (small s₁) e₂ in
            let least = Leaves-lt (at_end-Leaves b'}' s₂) e₃ in
            finish name v done s₃ (
              member_loop_fuel f g (name ∷ seen) s₃ (omega (arith, less, fewer, least, h))
                (omega (arith, less, fewer, least, k)))
      where
        finish :
            (name : Bytes) (v : JsonValue) (done : Bool) (s₃ : Bytes) {p q : Parsed Members}
            → p ≡ q
            → ◌≡◌ {A = Parsed Members}
                (elim done [
                  | true ↦ ok (with_member name v no_members, s₃)
                  | false ↦ p >>= λ r. ok (with_member name v r.0, r.1)
                ])
                (elim done [
                  | true ↦ ok (with_member name v no_members, s₃)
                  | false ↦ q >>= λ r. ok (with_member name v r.0, r.1)
                ])
        finish name v true s₃ e = refl
        finish name v false s₃ e = ap (λ p. p >>= λ r. ok (with_member name v r.0, r.1)) e

    item_loop_fuel :
        (f g : ℕ) (s : Bytes)
        → length s < f
        → length s < g
        → item_loop extra value f s ≡ item_loop 0 other g s
    unfolding item_loop
    item_loop_fuel zero g s h k = absurd (omega (arith, h))
    item_loop_fuel (suc f) zero s h k = absurd (omega (arith, k))
    item_loop_fuel (suc f) (suc g) s h k = bind_both _ _ (same s) λ (v, s₁) e₁.
        bind_ext (at_end b']' s₁) _ _ λ (done, s₂) e₂.
          let less = Leaves-lt (small s) e₁ in
          let fewer = Leaves-lt (at_end-Leaves b']' s₁) e₂ in
          finish v done s₂
            (item_loop_fuel f g s₂ (omega (arith, less, fewer, h)) (omega (arith, less, fewer, k)))
      where
        finish :
            (v : JsonValue) (done : Bool) (s₂ : Bytes) {p q : Parsed Items}
            → p ≡ q
            → ◌≡◌ {A = Parsed Items}
                (elim done [
                  | true ↦ ok (with_item v no_items, s₂)
                  | false ↦ p >>= λ r. ok (with_item v r.0, r.1)
                ])
                (elim done [
                  | true ↦ ok (with_item v no_items, s₂)
                  | false ↦ q >>= λ r. ok (with_item v r.0, r.1)
                ])
        finish v true s₂ e = refl
        finish v false s₂ e = ap (λ p. p >>= λ r. ok (with_item v r.0, r.1)) e

    parse_object_fuel : (s : Bytes) → parse_object extra value s ≡ parse_object 0 other s
    unfolding parse_object
    parse_object_fuel s =
        ap
          (λ (p : Parsed Members). elim (consume b'}' (skip_whitespace s)) [
            | some rest ↦ ok (object no_members, rest)
            | none ↦ p >>= λ q. ok (object q.0, q.1)
          ])
          (member_loop_fuel (suc (length s + extra)) (suc (length s + 0)) [] (skip_whitespace s)
            (omega (arith, length-skip_whitespace s)) (omega (arith, length-skip_whitespace s)))

    parse_array_fuel : (s : Bytes) → parse_array extra value s ≡ parse_array 0 other s
    unfolding parse_array
    parse_array_fuel s =
        ap
          (λ (p : Parsed Items). elim (consume b']' (skip_whitespace s)) [
            | some rest ↦ ok (array no_items, rest)
            | none ↦ p >>= λ q. ok (array q.0, q.1)
          ])
          (item_loop_fuel (suc (length s + extra)) (suc (length s + 0)) (skip_whitespace s)
            (omega (arith, length-skip_whitespace s)) (omega (arith, length-skip_whitespace s)))

  dispatch_fuel :
      (container other : ℕ → Bytes → Parsed JsonValue)
      → ((c : ℕ) (s : Bytes) → container c s ≡ other c s)
      → (s : Bytes) → dispatch extra container s ≡ dispatch 0 other s
  unfolding dispatch
  dispatch_fuel container other same [] = refl
  dispatch_fuel container other same (c ∷ s) =
      ap
        (λ (p : Parsed JsonValue).
          if c == b'{' || c == b'[' then p else parse_scalar extra c (c ∷ s))
        (same c s)
      ∙ ap (λ (p : Parsed JsonValue). if c == b'{' || c == b'[' then other c s else p)
          (parse_scalar_fuel c (c ∷ s))

  parse_container_fuel :
      (depth c : ℕ) (s : Bytes) → parse_container extra depth c s ≡ parse_container 0 depth c s
  unfolding parse_container parse_value
  parse_container_fuel zero c s = refl
  parse_container_fuel (suc depth) c s =
      let same =
        dispatch_fuel (parse_container extra depth) (parse_container 0 depth)
          (parse_container_fuel depth) in
      let small = parse_value-Leaves extra depth in
      ap
        (λ (p : Parsed JsonValue).
          if c == b'{'
          then p
          else parse_array extra (dispatch extra (parse_container extra depth)) s)
        (parse_object_fuel _ _ same small s)
      ∙ ap
          (λ (p : Parsed JsonValue).
            if c == b'{' then parse_object 0 (dispatch 0 (parse_container 0 depth)) s else p)
          (parse_array_fuel _ _ same small s)

  more_fuel : (text : Bytes) → parse_with extra text ≡ parse_strict_json text
  unfolding parse_with parse_strict_json parse_value
  more_fuel text = bind_ext (guard (valid text) invalid_json) _ _ λ u e.
      bind_both _ _
        (dispatch_fuel (parse_container extra max_attestation_json_container_depth) _
          (parse_container_fuel max_attestation_json_container_depth) (skip_whitespace text))
        (λ p e₁. refl)

  enough_fuel : (text : Bytes) → ¬ (parse_with extra text ≡ err out_of_fuel)
  unfolding parse_with
  enough_fuel text h = elim (Bool-cases (valid text)) [
    | inl e ↦
        settled
          (parse_value-Leaves extra max_attestation_json_container_depth (skip_whitespace text))
          (rw e at h)
    | inr e ↦ cc (rw e at h)
  ]

-- No loop of the parser runs out of fuel, whatever the text, and any number of rounds more gives
-- the same result.
pub parse_strict_json_fuel :
    (text : Bytes)
    → (¬ (parse_strict_json text ≡ err out_of_fuel))
      × ((extra : ℕ) → parse_with extra text ≡ parse_strict_json text)
unfolding parse_strict_json
parse_strict_json_fuel text = (enough_fuel 0 text, λ extra. more_fuel extra text)
