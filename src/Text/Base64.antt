-- ===== src/Text/Base64.antt =====
-- `encoding/base64`, RawURLEncoding.
use vaultsmith.Base.{
  ℕ, ◌+◌, ◌*◌, ◌/◌, ◌%◌, ◌-◌, ◌<◌, ◌≡◌, refl, ap, sym, subst, ◌∙◌, Bool, true, false, any, is_empty,
  Option-cases, inl, inr, ◌||◌, ◌==◌, Option, none, some, List, [], ◌∷◌, map, arith, ltb, within,
  if◌then◌else◌, Bytes, All, AreBytes,
}

-- The alphabet: A-Z a-z 0-9 - _.
pub digit : ℕ → ℕ
digit n =
    if ltb n 26
    then b'A' + n
    else if ltb n 52
    then b'a' + (n - 26)
    else if ltb n 62
    then b'0' + (n - 52)
    else if n == 62
    then b'-'
    else b'_'

pub value : ℕ → Option ℕ
value c =
    if within b'A' b'Z' c
    then some (c - b'A')
    else if within b'a' b'z' c
    then some (c - b'a' + 26)
    else if within b'0' b'9' c
    then some (c - b'0' + 52)
    else if c == b'-'
    then some 62
    else if c == b'_'
    then some 63
    else none

-- Bytes as groups of six bits; what the last group lacks is zero.
split : Bytes → List ℕ
split [] = []
split (x ∷ []) = x / 4 ∷ x % 4 * 16 ∷ []
split (x ∷ y ∷ []) = x / 4 ∷ (x % 4 * 16 + y / 16) ∷ y % 16 * 4 ∷ []
split (x ∷ y ∷ z ∷ s) = x / 4 ∷ (x % 4 * 16 + y / 16) ∷ (y % 16 * 4 + z / 64) ∷ z % 64 ∷ split s

abbrev three : ℕ → ℕ → ℕ → ℕ → Option Bytes → Option Bytes
three a b c d none = none
three a b c d (some s) = some ((a * 4 + b / 16) ∷ (b % 16 * 16 + c / 4) ∷ (c % 4 * 64 + d) ∷ s)

-- One group alone is an error, and the bits that a last group has too many are left out.
join : List ℕ → Option Bytes
join [] = some []
join (a ∷ []) = none
join (a ∷ b ∷ []) = some ((a * 4 + b / 16) ∷ [])
join (a ∷ b ∷ c ∷ []) = some ((a * 4 + b / 16) ∷ (b % 16 * 16 + c / 4) ∷ [])
join (a ∷ b ∷ c ∷ d ∷ s) = three a b c d (join s)

abbrev group : Option ℕ → Option (List ℕ) → Option (List ℕ)
group (some x) (some xs) = some (x ∷ xs)
group _ _ = none

-- The decoder passes over line ends.
values : Bytes → Option (List ℕ)
unfolding value
values [] = some []
values (c ∷ s) = if c == b'\r' || c == b'\n' then values s else group (value c) (values s)

unfoldable pub encode : Bytes → Bytes
unfolding digit split
encode s = map digit (split s)

unfoldable pub decode : Bytes → Option Bytes
unfolding values join
decode s = elim (values s) [ none ↦ none | some xs ↦ join xs ]

value-digit : (n : ℕ) → n < 64 → value (digit n) ≡ some n
unfolding value digit
value-digit n h = ground arith

digit_no_line_end : (n : ℕ) → n < 64 → (digit n == b'\r' || digit n == b'\n') ≡ Bool.false
unfolding digit
digit_no_line_end n h = ground arith

values-digit : (xs : List ℕ) → All (λ n. n < 64) xs → values (map digit xs) ≡ some xs
unfolding values
values-digit [] h = refl
values-digit (n ∷ xs) (h, k) = rw (digit_no_line_end n h, value-digit n h, values-digit xs k)

split-All : (s : Bytes) → AreBytes s → All (λ n. n < 64) (split s)
unfolding split
split-All [] h = tt
split-All (x ∷ []) (hx, h) = (omega arith, (omega arith, tt))
split-All (x ∷ y ∷ []) (hx, (hy, h)) = (omega arith, (omega arith, (omega arith, tt)))
split-All (x ∷ y ∷ z ∷ s) (hx, (hy, (hz, h))) =
    (omega arith, (omega arith, (omega arith, (omega arith, split-All s h))))

cons_both : {x y : ℕ} {s t : Bytes} → x ≡ y → s ≡ t → (x ∷ s) ≡ (y ∷ t)
cons_both {x} {t} e f = ap (◌∷◌ x) f ∙ ap (λ a. a ∷ t) e

join-split : (s : Bytes) → AreBytes s → join (split s) ≡ some s
unfolding join split
join-split [] h = refl
join-split (x ∷ []) (hx, h) = ap some (cons_both (omega arith) refl)
join-split (x ∷ y ∷ []) (hx, (hy, h)) =
    ap some (cons_both (omega arith) (cons_both (omega arith) refl))
join-split (x ∷ y ∷ z ∷ s) (hx, (hy, (hz, h))) =
    ap (three _ _ _ _) (join-split s h)
    ∙ ap some (cons_both (omega arith) (cons_both (omega arith) (cons_both (omega arith) refl)))

pub decode-encode : (s : Bytes) → AreBytes s → decode (encode s) ≡ some s
unfolding decode encode
decode-encode s h =
    ap (λ o. elim o [ none ↦ none | some xs ↦ join xs ]) (values-digit (split s) (split-All s h))
    ∙ join-split s h

-- A result, if there is one, has the property.
data OnSome {A : Type 0} (P : A → Type 0) : Option A → Type 0 where
  nothing : OnSome P none
  something : {a : A} → P a → OnSome P (some a)

OnSome-eq-some :
    {A : Type 0} {P : A → Type 0} {o : Option A} {a : A} → o ≡ some a → OnSome P o → P a
OnSome-eq-some e nothing = cc
OnSome-eq-some {A} {P} e (something {a} h) = let same : ◌≡◌ {A = A} a _ = cc in subst P same h

OnSome-if :
    {A : Type 0} {P : A → Type 0} (b : Bool) {x y : Option A}
    → OnSome P x
    → OnSome P y
    → OnSome P (if b then x else y)
OnSome-if true h k = h
OnSome-if false h k = k

value-OnSome : (c : ℕ) → OnSome (λ n. n < 64) (value c)
unfolding value
value-OnSome c = elim (Option-cases (value c)) [
  | inl e ↦ subst (OnSome (λ n. n < 64)) (sym e) nothing
  | inr (n, e) ↦ subst (OnSome (λ n. n < 64)) (sym e) (something (ground arith))
]

abbrev AreSextets : List ℕ → Type 0
AreSextets = All (λ n. n < 64)

group-OnSome :
    (x : Option ℕ) (xs : Option (List ℕ))
    → OnSome (λ n. n < 64) x
    → OnSome AreSextets xs
    → OnSome AreSextets (group x xs)
group-OnSome none xs h k = nothing
group-OnSome (some n) none h k = nothing
group-OnSome (some n) (some ns) (something h) (something k) = something (h, k)

values-OnSome : (s : Bytes) → OnSome AreSextets (values s)
unfolding values
values-OnSome [] = something tt
values-OnSome (c ∷ s) =
    OnSome-if (c == b'\r' || c == b'\n') (values-OnSome s)
      (group-OnSome (value c) (values s) (value-OnSome c) (values-OnSome s))

three-OnSome :
    (a b c d : ℕ) (o : Option Bytes)
    → AreSextets (a ∷ b ∷ c ∷ d ∷ [])
    → OnSome AreBytes o
    → OnSome AreBytes (three a b c d o)
three-OnSome a b c d none h k = nothing
three-OnSome a b c d (some s) (ha, (hb, (hc, (hd, h)))) (something k) =
    something (omega arith, (omega arith, (omega arith, k)))

join-OnSome : (xs : List ℕ) → AreSextets xs → OnSome AreBytes (join xs)
unfolding join
join-OnSome [] h = something tt
join-OnSome (a ∷ []) h = nothing
join-OnSome (a ∷ b ∷ []) (ha, (hb, h)) = something (omega arith, tt)
join-OnSome (a ∷ b ∷ c ∷ []) (ha, (hb, (hc, h))) = something (omega arith, (omega arith, tt))
join-OnSome (a ∷ b ∷ c ∷ d ∷ xs) (ha, (hb, (hc, (hd, h)))) =
    three-OnSome a b c d (join xs) (ha, (hb, (hc, (hd, tt)))) (join-OnSome xs h)

-- What is decoded are bytes.
pub decode-AreBytes : (s : Bytes) {bytes : Bytes} → decode s ≡ some bytes → AreBytes bytes
unfolding decode
decode-AreBytes s h = OnSome-eq-some h (split_values (values s) (values-OnSome s))
  where
    split_values :
        (o : Option (List ℕ))
        → OnSome AreSextets o
        → OnSome AreBytes (elim o [ none ↦ none | some xs ↦ join xs ])
    split_values none k = nothing
    split_values (some xs) (something k) = join-OnSome xs k

-- What is encoded holds no padding, and it is empty only for no bytes.
digit_no_padding : (n : ℕ) → n < 64 → (digit n == b'=') ≡ Bool.false
unfolding digit
digit_no_padding n h = ground arith

digits_no_padding :
    (xs : List ℕ) → All (λ n. n < 64) xs → any (λ c. c == b'=') (map digit xs) ≡ Bool.false
digits_no_padding [] h = refl
digits_no_padding (n ∷ xs) (h, k) = rw (digit_no_padding n h, digits_no_padding xs k)

pub encode_no_padding : (s : Bytes) → AreBytes s → any (λ c. c == b'=') (encode s) ≡ Bool.false
unfolding encode
encode_no_padding s h = digits_no_padding (split s) (split-All s h)

pub is_empty-encode : (s : Bytes) → is_empty (encode s) ≡ is_empty s
unfolding encode split
is_empty-encode [] = refl
is_empty-encode (x ∷ []) = refl
is_empty-encode (x ∷ y ∷ []) = refl
is_empty-encode (x ∷ y ∷ z ∷ s) = refl
