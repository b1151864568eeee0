-- ===== src/Attestation/Json/Parse/Strict.antt =====
-- What an accepted text stands for.
use vaultsmith.Base.{
  ℕ, zero, suc, ◌+◌, ◌≡◌, refl, subst, Bool, true, false, not, ◌||◌, ◌==◌, within, arith, List, [],
  ◌∷◌, any, bytes_eq, is_empty, codes, Bytes, length, if◌then◌else◌, Option, none, some, ok, err,
  ◌>>=◌, guard, or_err, guard_then, bind-eq-ok, ok-injective,
}
use vaultsmith.Text.Utf8.{valid}
use vaultsmith.Attestation.Json.{
  JsonError, invalid_json, JsonValue, object, array, string, number, boolean, null, Members,
  no_members, with_member, Items, no_items, with_item, names,
}
use vaultsmith.Attestation.Json.Text.{
  Parsed, skip_whitespace, consume, consume_literal, parse_number,
}
use vaultsmith.Attestation.Json.Parse.{
  at_end, parse_string, parse_scalar, parse_name, member_loop, item_loop, parse_object, parse_array,
  dispatch, parse_container, parse_value, parse_with, parse_strict_json,
}

-- No name of the list is among the others.
abbrev pub Distinct : List Bytes → Type 0
Distinct [] = Unit
Distinct (n ∷ ns) = (any (λ m. bytes_eq n m) ns ≡ false) × Distinct ns

-- Objects have no name twice, and containers are nested at most so deep.
mutual
  pub data Strict : ℕ → JsonValue → Type 0 where
    an_object :
        {depth : ℕ} {members : Members}
        → Distinct (names members)
        → StrictMembers depth members
        → Strict (suc depth) (object members)
    an_array :
        {depth : ℕ} {items : Items} → StrictItems depth items → Strict (suc depth) (array items)
    a_string : {depth : ℕ} {text : Bytes} → Strict depth (string text)
    a_number : {depth : ℕ} {text : Bytes} → Strict depth (number text)
    a_boolean : {depth : ℕ} {b : Bool} → Strict depth (boolean b)
    a_null : {depth : ℕ} → Strict depth null

  pub data StrictMembers : ℕ → Members → Type 0 where
    end : {depth : ℕ} → StrictMembers depth no_members
    member_of :
        {depth : ℕ} {name : Bytes} {v : JsonValue} {rest : Members}
        → Strict depth v
        → StrictMembers depth rest
        → StrictMembers depth (with_member name v rest)

  pub data StrictItems : ℕ → Items → Type 0 where
    no_more : {depth : ℕ} → StrictItems depth no_items
    item_of :
        {depth : ℕ} {v : JsonValue} {rest : Items}
        → Strict depth v
        → StrictItems depth rest
        → StrictItems depth (with_item v rest)

-- A failure, or a thing that has the property.
data Gives {A : Type 0} (P : A → Type 0) : Parsed A → Type 0 where
  fails : {e : JsonError} → Gives P (err e)
  gives : {a : A} {rest : Bytes} → P a → Gives P (ok (a, rest))

module _ {A : Type 0} {P : A → Type 0} where
  Gives-eq-ok : {p : Parsed A} {a : A} {rest : Bytes} → Gives P p → p ≡ ok (a, rest) → P a
  Gives-eq-ok fails e = cc
  Gives-eq-ok (gives h) e = subst P (ok-injective e).0 h

  Gives-if : (b : Bool) {x y : Parsed A} → Gives P x → Gives P y → Gives P (if b then x else y)
  Gives-if true h k = h
  Gives-if false h k = k

  Gives-bind :
      {B : Type 0} {Q : B → Type 0} {p : Parsed B} (f : B × Bytes → Parsed A)
      → Gives Q p
      → ((b : B) (rest : Bytes) → Q b → Gives P (f (b, rest)))
      → Gives P (p >>= f)
  Gives-bind f fails k = fails
  Gives-bind f (gives {a} {rest} h) k = k a rest h

  Gives-or_err :
      {B : Type 0} (o : Option B) (f : B → Parsed A)
      → ((b : B) → Gives P (f b))
      → Gives P (or_err o invalid_json >>= f)
  Gives-or_err none f h = fails
  Gives-or_err (some b) f h = h b

anything : {A : Type 0} (p : Parsed A) → Gives (λ _. Unit {0}) p
anything (ok (a, rest)) = gives tt
anything (err e) = fails

-- None of the names was seen before.
Apart : List Bytes → List Bytes → Type 0
Apart seen [] = Unit
Apart seen (n ∷ ns) = (any (λ m. bytes_eq m n) seen ≡ false) × Apart seen ns

Apart-cons :
    (n : Bytes) (seen ns : List Bytes)
    → Apart (n ∷ seen) ns
    → (any (λ m. bytes_eq n m) ns ≡ false) × Apart seen ns
unfolding Apart
Apart-cons n seen [] h = (refl, tt)
Apart-cons n seen (m ∷ ns) (h, k) =
    let (first, others) = Apart-cons n seen ns k in
    (ground (arith, h, first), (ground (arith, h), others))

Apart-nil : (ns : List Bytes) → Apart [] ns
unfolding Apart
Apart-nil [] = tt
Apart-nil (n ∷ ns) = (refl, Apart-nil ns)

-- The members that a loop reads when these names were seen.
Fresh : ℕ → List Bytes → Members → Type 0
Fresh depth seen ms = StrictMembers depth ms × Distinct (names ms) × Apart seen (names ms)

module _ (extra : ℕ) where
  parse_name-Gives :
      (seen : List Bytes) (s : Bytes)
      → Gives (λ name. any (λ m. bytes_eq m name) seen ≡ false) (parse_name extra seen s)
  unfolding parse_name
  parse_name-Gives seen s =
      Gives-bind _ (anything (parse_string extra s))
        λ name s₁ u. unseen name s₁ (any (λ m. bytes_eq m name) seen) refl
    where
      unseen :
          (name s₁ : Bytes) (b : Bool)
          → any (λ m. bytes_eq m name) seen ≡ b
          → Gives
              (λ name. any (λ m. bytes_eq m name) seen ≡ false)
              (guard (not b) invalid_json >>= λ _.
                or_err (consume b':' (skip_whitespace s₁)) invalid_json >>= λ s₂.
                ok (name, skip_whitespace s₂))
      unseen name s₁ true e = fails
      unseen name s₁ false e = Gives-or_err (consume b':' (skip_whitespace s₁)) _ λ s₂. gives e

  module _ (depth : ℕ) (value : Bytes → Parsed JsonValue)
      (strict : (s : Bytes) → Gives (Strict depth) (value s)) where
    member_loop-Fresh :
        (fuel : ℕ) (seen : List Bytes) (s : Bytes)
        → Gives (Fresh depth seen) (member_loop extra value fuel seen s)
    unfolding member_loop Fresh Apart names
    member_loop-Fresh zero seen s = fails
    member_loop-Fresh (suc fuel) seen s = Gives-bind _ (parse_name-Gives seen s) λ name s₁ new.
        Gives-bind _ (strict s₁) λ v s₂ h.
          Gives-bind _ (anything (at_end b'}' s₂))
            λ done s₃ u. finish name v done s₃ new h (member_loop-Fresh fuel (name ∷ seen) s₃)
      where
        finish :
            (name : Bytes) (v : JsonValue) (done : Bool) (s₃ : Bytes)
            → any (λ m. bytes_eq m name) seen ≡ false
            → Strict depth v
            → {p : Parsed Members} → Gives (Fresh depth (name ∷ seen)) p
            → Gives (Fresh depth seen) (elim done [
              | true ↦ ok (with_member name v no_members, s₃)
              | false ↦ do (rest, s₄) ← p; ok (with_member name v rest, s₄)
            ])
        finish name v true s₃ new h k = gives (member_of h end, (refl, tt), (new, tt))
        finish name v false s₃ new h k = Gives-bind _ k λ rest s₄ (members, distinct, apart).
            let (first, others) = Apart-cons name seen (names rest) apart in
            gives (member_of h members, (first, distinct), (new, others))

    item_loop-Gives :
        (fuel : ℕ) (s : Bytes) → Gives (StrictItems depth) (item_loop extra value fuel s)
    unfolding item_loop
    item_loop-Gives zero s = fails
    item_loop-Gives (suc fuel) s = Gives-bind _ (strict s) λ v s₁ h.
        Gives-bind _ (anything (at_end b']' s₁))
          λ done s₂ u. finish v done s₂ h (item_loop-Gives fuel s₂)
      where
        finish :
            (v : JsonValue) (done : Bool) (s₂ : Bytes)
            → Strict depth v
            → {p : Parsed Items} → Gives (StrictItems depth) p
            → Gives (StrictItems depth) (elim done [
              | true ↦ ok (with_item v no_items, s₂)
              | false ↦ do (rest, s₃) ← p; ok (with_item v rest, s₃)
            ])
        finish v true s₂ h k = gives (item_of h no_more)
        finish v false s₂ h k = Gives-bind _ k λ rest s₃ items. gives (item_of h items)

    parse_object-Strict : (s : Bytes) → Gives (Strict (suc depth)) (parse_object extra value s)
    unfolding parse_object Fresh names
    parse_object-Strict s =
        split (consume b'}' (skip_whitespace s))
          (member_loop-Fresh (suc (length s + extra)) [] (skip_whitespace s))
      where
        split :
            (o : Option Bytes) {p : Parsed Members}
            → Gives (Fresh depth []) p
            → Gives (Strict (suc depth)) (elim o [
              | some rest ↦ ok (object no_members, rest)
              | none ↦ do (members, rest) ← p; ok (object members, rest)
            ])
        split (some rest) h = gives (an_object tt end)
        split none h =
            Gives-bind _ h λ ms rest (members, distinct, apart). gives (an_object distinct members)

    parse_array-Strict : (s : Bytes) → Gives (Strict (suc depth)) (parse_array extra value s)
    unfolding parse_array
    parse_array-Strict s =
        split (consume b']' (skip_whitespace s))
          (item_loop-Gives (suc (length s + extra)) (skip_whitespace s))
      where
        split :
            (o : Option Bytes) {p : Parsed Items}
            → Gives (StrictItems depth) p
            → Gives (Strict (suc depth)) (elim o [
              | some rest ↦ ok (array no_items, rest)
              | none ↦ do (items, rest) ← p; ok (array items, rest)
            ])
        split (some rest) h = gives (an_array no_more)
        split none h = Gives-bind _ h λ is rest items. gives (an_array items)

  parse_scalar-Strict : (depth c : ℕ) (s : Bytes) → Gives (Strict depth) (parse_scalar extra c s)
  unfolding parse_scalar
  parse_scalar-Strict depth c s =
      Gives-if (c == b'"') (Gives-bind _ (anything (parse_string extra s)) λ _ _ _. gives a_string)
        (Gives-if (c == b't')
          (Gives-or_err (consume_literal (codes "true") s) _ λ _. gives a_boolean)
          (Gives-if (c == b'f')
            (Gives-or_err (consume_literal (codes "false") s) _ λ _. gives a_boolean)
            (Gives-if (c == b'n')
              (Gives-or_err (consume_literal (codes "null") s) _ λ _. gives a_null)
              (Gives-if (c == b'-' || within b'0' b'9' c)
                (Gives-bind _ (anything (parse_number s)) λ _ _ _. gives a_number) fails))))

  dispatch-Strict :
      (depth : ℕ) (container : ℕ → Bytes → Parsed JsonValue)
      → ((c : ℕ) (s : Bytes) → Gives (Strict depth) (container c s))
      → (s : Bytes) → Gives (Strict depth) (dispatch extra container s)
  unfolding dispatch
  dispatch-Strict depth container strict [] = fails
  dispatch-Strict depth container strict (c ∷ s) =
      Gives-if (c == b'{' || c == b'[') (strict c s) (parse_scalar-Strict depth c (c ∷ s))

  parse_container-Strict :
      (depth c : ℕ) (s : Bytes) → Gives (Strict depth) (parse_container extra depth c s)
  unfolding parse_container
  parse_container-Strict zero c s = fails
  parse_container-Strict (suc depth) c s =
      let strict =
        dispatch-Strict depth (parse_container extra depth) (parse_container-Strict depth) in
      Gives-if (c == b'{') (parse_object-Strict depth _ strict s)
        (parse_array-Strict depth _ strict s)

  parse_value-Strict : (depth : ℕ) (s : Bytes) → Gives (Strict depth) (parse_value extra depth s)
  unfolding parse_value
  parse_value-Strict depth =
      dispatch-Strict depth (parse_container extra depth) (parse_container-Strict depth)

-- An accepted text stands for a value in which no object has a name twice, and in which objects and
-- arrays are nested at most two deep.
pub parse_strict_json-Strict :
    (text : Bytes) (v : JsonValue) → parse_strict_json text ≡ ok v → Strict 2 v
unfolding parse_strict_json parse_with
parse_strict_json-Strict text v h =
    let (okay, h₁) = guard_then (valid text) invalid_json _ h in
    let ((w, rest), e, h₂) = bind-eq-ok _ _ h₁ in
    let (empty, h₃) = guard_then (is_empty (skip_whitespace rest)) invalid_json _ h₂ in
    let same : w ≡ v = cc in
    subst (Strict 2) same (Gives-eq-ok (parse_value-Strict 0 2 (skip_whitespace text)) e)
