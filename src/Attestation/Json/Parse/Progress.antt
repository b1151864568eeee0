-- ===== src/Attestation/Json/Parse/Progress.antt =====
-- Values leave less than they were given.
use vaultsmith.Base.{
  ℕ, zero, suc, ◌+◌, ◌<◌, ◌≡◌, refl, Bool, true, false, not, ◌||◌, ◌==◌, within, arith, List, [],
  ◌∷◌, any, bytes_eq, codes, Bytes, length, Option, none, some, ok, ◌>>=◌, or_err,
}
use vaultsmith.Attestation.Json.{
  invalid_json, JsonValue, object, array, string, number, boolean, null, Members, no_members,
  with_member, Items, no_items, with_item,
}
use vaultsmith.Attestation.Json.Text.{
  Parsed, Leaves, failed, left, skip_whitespace, consume, consume_literal,
}
use vaultsmith.Attestation.Json.Text.Progress.{
  Leaves-le, Leaves-if, Leaves-bind, Leaves-guard, Leaves-or_err, length-skip_whitespace,
  length-consume, length-consume_literal, string_loop-Leaves, parse_number-Leaves,
}
use vaultsmith.Attestation.Json.Parse.{
  at_end, parse_string, parse_scalar, parse_name, member_loop, item_loop, parse_object, parse_array,
  dispatch, parse_container, parse_value,
}

pub at_end-Leaves : (close : ℕ) (s : Bytes) → Leaves (length s) (at_end close s)
unfolding at_end
at_end-Leaves close s = split (consume close (skip_whitespace s)) refl
  where
    split :
        (o : Option Bytes)
        → consume close (skip_whitespace s) ≡ o
        → Leaves (length s) (elim o [
          | some rest ↦ ok (true, rest)
          | none ↦ do
            rest ← or_err (consume b',' (skip_whitespace s)) invalid_json
            ok (false, skip_whitespace rest)
        ])
    split (some rest) e =
        left
          (omega (arith, length-consume close (skip_whitespace s) rest e, length-skip_whitespace s))
    split none e = Leaves-or_err (consume b',' (skip_whitespace s)) _ λ rest e₁. left (
        omega (
          arith,
          length-consume b',' (skip_whitespace s) rest e₁,
          length-skip_whitespace s,
          length-skip_whitespace rest,
        ))

module _ (extra : ℕ) where
  pub parse_string-Leaves : (s : Bytes) → Leaves (length s) (parse_string extra s)
  unfolding parse_string
  parse_string-Leaves s = Leaves-or_err (consume b'"' s) _ λ rest e.
      Leaves-le (omega (arith, length-consume b'"' s rest e))
        (string_loop-Leaves (suc (length rest + extra)) rest (omega arith))

  -- A value that is read as some other thing is.
  read_as :
      {A : Type 0} {n : ℕ} {p : Parsed A} (f : A → JsonValue)
      → Leaves n p
      → Leaves n (p >>= λ q. ok (f q.0, q.1))
  read_as f h = Leaves-bind _ h (λ a rest less. left less)

  literal-Leaves :
      (first : ℕ) (literal s : Bytes) (v : JsonValue)
      → Leaves
          (length s)
          (or_err (consume_literal (first ∷ literal) s) invalid_json >>= λ r. ok (v, r))
  literal-Leaves first literal s v =
      Leaves-or_err (consume_literal (first ∷ literal) s) _
        λ r e. left (omega (arith, length-consume_literal (first ∷ literal) s r e))

  parse_scalar-Leaves : (c : ℕ) (s : Bytes) → Leaves (length s) (parse_scalar extra c s)
  unfolding parse_scalar
  parse_scalar-Leaves c s = Leaves-if (c == b'"') (read_as string (parse_string-Leaves s)) (
      Leaves-if (c == b't') (literal-Leaves b't' (codes "rue") s (boolean true)) (
        Leaves-if (c == b'f') (literal-Leaves b'f' (codes "alse") s (boolean false)) (
          Leaves-if (c == b'n') (literal-Leaves b'n' (codes "ull") s null) (
            Leaves-if (c == b'-' || within b'0' b'9' c) (read_as number (parse_number-Leaves s))
              failed))))

  pub parse_name-Leaves :
      (seen : List Bytes) (s : Bytes) → Leaves (length s) (parse_name extra seen s)
  unfolding parse_name
  parse_name-Leaves seen s = Leaves-bind _ (parse_string-Leaves s) λ name s₁ less.
      Leaves-guard (not (any (λ n. bytes_eq n name) seen)) (
        Leaves-or_err (consume b':' (skip_whitespace s₁)) _ λ s₂ e. left (
          omega (
            arith,
            less,
            length-consume b':' (skip_whitespace s₁) s₂ e,
            length-skip_whitespace s₁,
            length-skip_whitespace s₂,
          )))

  module _ (value : Bytes → Parsed JsonValue)
      (small : (s : Bytes) → Leaves (length s) (value s)) where
    member_loop-Leaves :
        (fuel : ℕ) (seen : List Bytes) (s : Bytes)
        → length s < fuel
        → Leaves (length s) (member_loop extra value fuel seen s)
    unfolding member_loop
    member_loop-Leaves zero seen s h = absurd (omega (arith, h))
    member_loop-Leaves (suc fuel) seen s h =
        Leaves-bind _ (parse_name-Leaves seen s) λ name s₁ less.
          Leaves-bind _ (small s₁) λ v s₂ fewer.
            Leaves-bind _ (at_end-Leaves b'}' s₂) λ done s₃ least.
              finish name v done s₃ (omega (arith, less, fewer, least))
                (member_loop-Leaves fuel (name ∷ seen) s₃ (omega (arith, less, fewer, least, h)))
      where
        finish :
            (name : Bytes) (v : JsonValue) (done : Bool) (s₃ : Bytes)
            → length s₃ < length s
            → {p : Parsed Members} → Leaves (length s₃) p
            → Leaves (length s) (elim done [
              | true ↦ ok (with_member name v no_members, s₃)
              | false ↦ do (rest, s₄) ← p; ok (with_member name v rest, s₄)
            ])
        finish name v true s₃ less h = left less
        finish name v false s₃ less h =
            Leaves-bind _ h (λ rest s₄ fewer. left (omega (arith, less, fewer)))

    item_loop-Leaves :
        (fuel : ℕ) (s : Bytes) → length s < fuel → Leaves (length s) (item_loop extra value fuel s)
    unfolding item_loop
    item_loop-Leaves zero s h = absurd (omega (arith, h))
    item_loop-Leaves (suc fuel) s h = Leaves-bind _ (small s) λ v s₁ less.
        Leaves-bind _ (at_end-Leaves b']' s₁) λ done s₂ fewer.
          finish v done s₂ (omega (arith, less, fewer))
            (item_loop-Leaves fuel s₂ (omega (arith, less, fewer, h)))
      where
        finish :
            (v : JsonValue) (done : Bool) (s₂ : Bytes)
            → length s₂ < length s
            → {p : Parsed Items} → Leaves (length s₂) p
            → Leaves (length s) (elim done [
              | true ↦ ok (with_item v no_items, s₂)
              | false ↦ do (rest, s₃) ← p; ok (with_item v rest, s₃)
            ])
        finish v true s₂ less h = left less
        finish v false s₂ less h =
            Leaves-bind _ h (λ rest s₃ fewer. left (omega (arith, less, fewer)))

    parse_object-Leaves : (s : Bytes) → Leaves (length s) (parse_object extra value s)
    unfolding parse_object
    parse_object-Leaves s = split (consume b'}' (skip_whitespace s)) refl
      where
        split :
            (o : Option Bytes)
            → consume b'}' (skip_whitespace s) ≡ o
            → Leaves (length s) (elim o [
              | some rest ↦ ok (object no_members, rest)
              | none ↦ do
                (members, rest) ←
                    member_loop extra value (suc (length s + extra)) [] (skip_whitespace s)
                ok (object members, rest)
            ])
        split (some rest) e = left (
            omega (arith, length-consume b'}' (skip_whitespace s) rest e, length-skip_whitespace s))
        split none e =
            Leaves-bind _
              (member_loop-Leaves (suc (length s + extra)) [] (skip_whitespace s)
                (omega (arith, length-skip_whitespace s)))
              (λ members rest less. left (omega (arith, less, length-skip_whitespace s)))

    parse_array-Leaves : (s : Bytes) → Leaves (length s) (parse_array extra value s)
    unfolding parse_array
    parse_array-Leaves s = split (consume b']' (skip_whitespace s)) refl
      where
        split :
            (o : Option Bytes)
            → consume b']' (skip_whitespace s) ≡ o
            → Leaves (length s) (elim o [
              | some rest ↦ ok (array no_items, rest)
              | none ↦ do
                (items, rest) ← item_loop extra value (suc (length s + extra)) (skip_whitespace s)
                ok (array items, rest)
            ])
        split (some rest) e = left (
            omega (arith, length-consume b']' (skip_whitespace s) rest e, length-skip_whitespace s))
        split none e =
            Leaves-bind _
              (item_loop-Leaves (suc (length s + extra)) (skip_whitespace s)
                (omega (arith, length-skip_whitespace s)))
              (λ items rest less. left (omega (arith, less, length-skip_whitespace s)))

  dispatch-Leaves :
      (container : ℕ → Bytes → Parsed JsonValue)
      → ((c : ℕ) (s : Bytes) → Leaves (length s) (container c s))
      → (s : Bytes) → Leaves (length s) (dispatch extra container s)
  unfolding dispatch
  dispatch-Leaves container small [] = failed
  dispatch-Leaves container small (c ∷ s) =
      Leaves-if (c == b'{' || c == b'[') (Leaves-le (omega arith) (small c s))
        (parse_scalar-Leaves c (c ∷ s))

  parse_container-Leaves :
      (depth c : ℕ) (s : Bytes) → Leaves (length s) (parse_container extra depth c s)
  unfolding parse_container
  parse_container-Leaves zero c s = failed
  parse_container-Leaves (suc depth) c s =
      let value-Leaves =
        dispatch-Leaves (parse_container extra depth) (parse_container-Leaves depth) in
      Leaves-if (c == b'{') (parse_object-Leaves _ value-Leaves s)
        (parse_array-Leaves _ value-Leaves s)

  pub parse_value-Leaves : (depth : ℕ) (s : Bytes) → Leaves (length s) (parse_value extra depth s)
  unfolding parse_value
  parse_value-Leaves depth =
      dispatch-Leaves (parse_container extra depth) (parse_container-Leaves depth)
