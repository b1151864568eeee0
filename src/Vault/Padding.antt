-- ===== src/Vault/Padding.antt =====
-- pkcs7Pad and pkcs7Unpad.
use vaultsmith.Base.{
  ℕ, zero, suc, ◌+◌, ◌-◌, ◌%◌, ◌<◌, ◌≤◌, ◌≡◌, ◌↔◌, refl, ap, sym, ◌∙◌, Bool, true, false, ◌||◌,
  ◌&&◌, not, Option, none, some, [], ◌∷◌, ◌++◌, arith, ltb, ◌==◌, if◌then◌else◌, Bytes, length,
  take, drop, replicate, length-append, length-take, length-drop, length-replicate, take_append,
  drop_append, take-append-drop, is_empty,
}

-- The count of padding bytes, as a byte.
unfoldable pub pkcs7_pad : Bytes → ℕ → Bytes
pkcs7_pad value block_size =
    let padding = block_size - length value % block_size in
    value ++ replicate padding (padding % 256)

-- The last byte; it is read only where there is one.
last : Bytes → ℕ
last [] = 0
last (c ∷ []) = c
last (c ∷ d ∷ s) = last (d ∷ s)

-- The loop over the padding bytes.
all_equal : ℕ → Bytes → Bool
all_equal p [] = true
all_equal p (c ∷ s) = c == p && all_equal p s

unfoldable pub pkcs7_unpad : Bytes → ℕ → Option Bytes
unfolding last all_equal
pkcs7_unpad value block_size =
    let size = length value in
    let padding = last value in
    if is_empty value || not (size % block_size == 0)
    then none
    else if padding == 0 || ltb block_size padding || ltb size padding
    then none
    else if not (all_equal padding (drop (size - padding) value))
    then none
    else some (take (size - padding) value)

last-append : (xs : Bytes) (c : ℕ) (ys : Bytes) → last (xs ++ (c ∷ ys)) ≡ last (c ∷ ys)
unfolding last
last-append [] c ys = refl
last-append (x ∷ []) c ys = refl
last-append (x ∷ y ∷ xs) c ys = last-append (y ∷ xs) c ys

last-replicate : (n c : ℕ) → last (replicate (suc n) c) ≡ c
unfolding last
last-replicate zero c = refl
last-replicate (suc n) c = last-replicate n c

all_equal-replicate : (p n : ℕ) → all_equal p (replicate n p) ≡ true
unfolding all_equal
all_equal-replicate p zero = refl
all_equal-replicate p (suc n) = ground (arith, all_equal-replicate p n)

replicate-of_all_equal : (p : ℕ) (s : Bytes) → all_equal p s ≡ true → s ≡ replicate (length s) p
unfolding all_equal
replicate-of_all_equal p [] h = refl
replicate-of_all_equal p (c ∷ s) h = ground (arith, replicate-of_all_equal p s)

last_padded : (v : Bytes) (n : ℕ) → 0 < n → last (v ++ replicate n n) ≡ n
last_padded v zero h = absurd (omega arith)
last_padded v (suc n) h = last-append v (suc n) (replicate n (suc n)) ∙ last-replicate n (suc n)

is_empty-length : (s : Bytes) → 0 < length s → is_empty s ≡ false
is_empty-length [] h = absurd (omega arith)
is_empty-length (c ∷ s) h = refl

-- `aes.BlockSize`
abbrev pub block_size : ℕ
block_size = 16

-- How many bytes of padding a value gets.
abbrev gap : Bytes → ℕ
gap v = block_size - length v % block_size

padded : (v : Bytes) → pkcs7_pad v block_size ≡ v ++ replicate (gap v) (gap v)
unfolding pkcs7_pad
padded v = ap (λ (c : ℕ). v ++ replicate (gap v) c) (omega arith)

length-padded : (v : Bytes) (n c : ℕ) → length (v ++ replicate n c) ≡ length v + n
length-padded v n c = omega (arith, length-append v (replicate n c), length-replicate n c)

-- Unpadding by the parts that it looks at.
unpad_parts :
    (v : Bytes) (n : ℕ)
    → 0 < n
    → n ≤ block_size
    → (length v + n) % block_size ≡ 0
    → pkcs7_unpad (v ++ replicate n n) block_size ≡ some v
unfolding pkcs7_unpad
unpad_parts v n pos small whole = ground (
  arith,
  length-padded v n n,
  last_padded v n pos,
  is_empty-length (v ++ replicate n n),
  drop_append v (replicate n n),
  take_append v (replicate n n),
  all_equal-replicate n n,
)

pub pkcs7_unpad-pad : (v : Bytes) → pkcs7_unpad (pkcs7_pad v block_size) block_size ≡ some v
pkcs7_unpad-pad v = rw (padded v) (unpad_parts v (gap v) (omega arith) (omega arith) (omega arith))

-- What the checks of pkcs7Unpad establish.
record Checked (w v : Bytes) : Type 0 where
  whole : length w % block_size ≡ 0
  positive : 0 < last w
  small : last w ≤ block_size
  fits : last w ≤ length w
  same : all_equal (last w) (drop (length w - last w) w) ≡ true
  kept : v ≡ take (length w - last w) w

checks : (w v : Bytes) → pkcs7_unpad w block_size ≡ some v → Checked w v
unfolding pkcs7_unpad
checks w v h = ground arith

module _ (w v : Bytes) (c : Checked w v) where
  length-kept : length v ≡ length w - last w
  length-kept = omega (arith, ap length c.kept, length-take (length w - last w) w, c.fits)

  tail_is : drop (length w - last w) w ≡ replicate (last w) (last w)
  tail_is =
      replicate-of_all_equal (last w) (drop (length w - last w) w) c.same
      ∙ ap (λ n. replicate n (last w)) (omega (arith, length-drop (length w - last w) w, c.fits))

  gap_is : gap v ≡ last w
  gap_is = omega (arith, length-kept, c.whole, c.positive, c.small, c.fits)

  rebuilt : w ≡ pkcs7_pad v block_size
  rebuilt =
      rw (padded v, gap_is) (rw (← tail_is, c.kept) (sym (take-append-drop (length w - last w) w)))

-- Unpadding accepts exactly the padded values: it returns `v` when the text is `v` padded, and
-- refuses every other text.
pub pkcs7_unpad_iff :
    (w v : Bytes) → (pkcs7_unpad w block_size ≡ some v) ↔ (w ≡ pkcs7_pad v block_size)
pkcs7_unpad_iff w v = (λ h. rebuilt w v (checks w v h), λ e. rw e (pkcs7_unpad-pad v))
