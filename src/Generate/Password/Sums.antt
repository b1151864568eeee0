-- ===== src/Generate/Password/Sums.antt =====
-- Sums of weights, and the sum that counts strings by how many characters are of one class.
use vaultsmith.Base.{
  ℕ, zero, suc, ◌+◌, ◌-◌, ◌*◌, ◌^◌, ◌<◌, ◌≤◌, ◌≡◌, inl, inr, refl, sym, ap, ◌∙◌, arith, ltb, ltb→lt,
  not-ltb→le, Bool-cases,
}
use native.Mathlib.Nat.{pow-succ'}
use vaultsmith.Generate.Password.{binomial, sum_weights}
use vaultsmith.Generate.Password.Ranks.{sum_weights-suc}

pub sum-ext :
    (f g : ℕ → ℕ) (k n : ℕ)
    → ((i : ℕ) → k ≤ i → i < k + n → f i ≡ g i)
    → sum_weights f k n ≡ sum_weights g k n
unfolding sum_weights
sum-ext f g k zero h = refl
sum-ext f g k (suc n) h = omega (
  arith,
  h k (omega arith) (omega arith),
  sum-ext f g (suc k) n (λ i le less. h i (omega (arith, le)) (omega (arith, less))),
)

pub sum-zero : (k n : ℕ) → sum_weights (λ _. 0) k n ≡ 0
unfolding sum_weights
sum-zero k zero = refl
sum-zero k (suc n) = omega (arith, sum-zero (suc k) n)

pub sum-add :
    (f g : ℕ → ℕ) (k n : ℕ)
    → sum_weights (λ i. f i + g i) k n ≡ sum_weights f k n + sum_weights g k n
unfolding sum_weights
sum-add f g k zero = refl
sum-add f g k (suc n) = omega (arith, sum-add f g (suc k) n)

pub sum-scale :
    (a : ℕ) (f : ℕ → ℕ) (k n : ℕ) → sum_weights (λ i. a * f i) k n ≡ a * sum_weights f k n
unfolding sum_weights
sum-scale a f k zero = omega arith
sum-scale a f k (suc n) = omega (arith, sum-scale a f (suc k) n)

sum-shift : (f : ℕ → ℕ) (k n : ℕ) → sum_weights f (suc k) n ≡ sum_weights (λ i. f (suc i)) k n
unfolding sum_weights
sum-shift f k zero = refl
sum-shift f k (suc n) = omega (arith, sum-shift f (suc k) n)

pub sum-split :
    (f : ℕ → ℕ) (k m n : ℕ) → sum_weights f k (m + n) ≡ sum_weights f k m + sum_weights f (k + m) n
unfolding sum_weights
sum-split f k zero n =
    let e : sum_weights f (k + 0) n ≡ sum_weights f k n =
      ap (λ i. sum_weights f i n) (omega arith) in
    let e₂ : sum_weights f k (0 + n) ≡ sum_weights f k n = ap (sum_weights f k) (omega arith) in
    omega (arith, e, e₂)
sum-split f k (suc m) n =
    let e : sum_weights f (suc k + m) n ≡ sum_weights f (k + suc m) n =
      ap (λ i. sum_weights f i n) (omega arith) in
    let e₂ : sum_weights f k (suc m + n) ≡ sum_weights f k (suc (m + n)) =
      ap (sum_weights f k) {y = suc (m + n)} (omega arith) in
    omega (arith, e, e₂, sum-split f (suc k) m n)

binomial-above : (n k : ℕ) → n < k → binomial n k ≡ 0
unfolding binomial
binomial-above n zero h = absurd (omega (arith, h))
binomial-above zero (suc k) h = refl
binomial-above (suc n) (suc k) h =
    omega
      (arith, binomial-above n k (omega (arith, h)), binomial-above n (suc k) (omega (arith, h)))

-- The sum of binomial n k * a ^ k * f (n - k) for the k from m to n.
unfoldable pub chosen : ℕ → (ℕ → ℕ) → ℕ → ℕ → ℕ
chosen a f m n = sum_weights (λ k. binomial n k * a ^ k * f (n - k)) m (suc n - m)

-- The terms with a later first character.
module _ (a : ℕ) (f : ℕ → ℕ) where
  abbrev later : ℕ → ℕ → ℕ
  later n i = binomial n (suc i) * a ^ suc i * f (n - i)

  later-term : (n i : ℕ) → i < n → later n i ≡ binomial n (suc i) * a ^ suc i * f (suc (n - suc i))
  later-term n i less = ap (λ x. binomial n (suc i) * a ^ suc i * f x) (omega (arith, less))

  later-sum :
      (m n : ℕ)
      → sum_weights (later n) m (suc n - m)
        ≡ sum_weights (λ k. binomial n k * a ^ k * f (suc (n - k))) (suc m) (n - m)
  unfolding sum_weights
  later-sum m n = elim (Bool-cases (ltb n m)) [
    | inl above ↦
        let less = ltb→lt n m above in
        let e : suc n - m ≡ 0 = omega (arith, less) in
        let e₂ : n - m ≡ 0 = omega (arith, less) in rw (e, e₂) refl
    | inr within ↦
        let le = not-ltb→le n m within in
        let e : suc n - m ≡ suc (n - m) = omega (arith, le) in
        let top : later n (m + (n - m)) ≡ 0 =
          ap (λ b. b * a ^ suc (m + (n - m)) * f (n - (m + (n - m))))
            (binomial-above n (suc (m + (n - m))) (omega (arith, le)))
          ∙ omega arith in
        ap (sum_weights (later n) m) e
        ∙ sum_weights-suc (later n) m (n - m)
        ∙ omega (arith, top)
        ∙ sum-ext (later n) (λ i. binomial n (suc i) * a ^ suc i * f (suc (n - suc i))) m (n - m)
            (λ i _ less. later-term n i (omega (arith, less, le)))
        ∙ sym (sum-shift (λ k. binomial n k * a ^ k * f (suc (n - k))) m (n - m))
  ]

  -- One character more, with one of the first class: it comes first, or one of a later class does.
  with_first :
      (m n : ℕ)
      → sum_weights (λ i. binomial (suc n) (suc i) * a ^ suc i * f (suc n - suc i)) m (suc n - m)
        ≡ a * chosen a f m n + sum_weights (later n) m (suc n - m)
  unfolding chosen binomial
  with_first m n =
      sum-ext _ (λ i. a * (binomial n i * a ^ i * f (n - i)) + later n i) m (suc n - m)
        (λ i _ _. term i)
      ∙ sum-add (λ i. a * (binomial n i * a ^ i * f (n - i))) (later n) m (suc n - m)
      ∙ ap (λ x. x + sum_weights (later n) m (suc n - m))
          (sum-scale a (λ i. binomial n i * a ^ i * f (n - i)) m (suc n - m))
    where
      term :
          (i : ℕ)
          → (binomial n i + binomial n (suc i)) * a ^ suc i * f (suc n - suc i)
            ≡ a * (binomial n i * a ^ i * f (n - i)) + later n i
      term i =
          let power : binomial n i * a ^ suc i * f (n - i)
              ≡ binomial n i * (a * a ^ i) * f (n - i) =
            ap (λ p. binomial n i * p * f (n - i)) (pow-succ' a i) in
          ap (λ x. (binomial n i + binomial n (suc i)) * a ^ suc i * f x) {y = n - i} (omega arith)
          ∙ omega (arith, power)

  -- The first character is one of the first class, or one of a later class.
  pub chosen-suc :
      (m n : ℕ) → chosen a f m (suc n) ≡ a * chosen a f (m - 1) n + chosen a (λ r. f (suc r)) m n
  unfolding chosen sum_weights binomial
  chosen-suc zero n =
      let w : ℕ → ℕ = λ k. binomial (suc n) k * a ^ k * f (suc n - k) in
      let v : ℕ → ℕ = λ k. binomial n k * a ^ k * f (suc (n - k)) in
      let e : sum_weights w 0 (suc (suc n) - 0) ≡ w 0 + sum_weights w 1 (suc n - 0) =
        ap (sum_weights w 0) {y = suc (suc n - 0)} (omega arith) in
      let e₂ : sum_weights v 0 (suc n - 0) ≡ v 0 + sum_weights v 1 (n - 0) =
        ap (sum_weights v 0) {y = suc (n - 0)} (omega arith) in
      let first : w 0 ≡ v 0 = ap (λ x. 1 * a ^ 0 * f x) {y = suc (n - 0)} (omega arith) in
      let whole : chosen a f 0 (suc n) ≡ sum_weights w 0 (suc (suc n) - 0) = refl in
      let others : chosen a (λ r. f (suc r)) 0 n ≡ sum_weights v 0 (suc n - 0) = refl in
      omega (
        arith,
        whole,
        others,
        e,
        e₂,
        first,
        sum-shift w 0 (suc n - 0),
        with_first 0 n,
        later-sum 0 n,
      )
  chosen-suc (suc m) n =
      let w : ℕ → ℕ = λ k. binomial (suc n) k * a ^ k * f (suc n - k) in
      let v : ℕ → ℕ = λ k. binomial n k * a ^ k * f (suc (n - k)) in
      let e : sum_weights w (suc m) (suc (suc n) - suc m) ≡ sum_weights w (suc m) (suc n - m) =
        ap (sum_weights w (suc m)) (omega arith) in
      let e₂ : sum_weights v (suc m) (suc n - suc m) ≡ sum_weights v (suc m) (n - m) =
        ap (sum_weights v (suc m)) (omega arith) in
      let same : a * chosen a f (suc m - 1) n ≡ a * chosen a f m n =
        ap (λ x. a * chosen a f x n) (omega arith) in
      let whole : chosen a f (suc m) (suc n) ≡ sum_weights w (suc m) (suc (suc n) - suc m) = refl in
      let others : chosen a (λ r. f (suc r)) (suc m) n ≡ sum_weights v (suc m) (suc n - suc m) =
        refl in
      omega (
        arith,
        whole,
        others,
        e,
        e₂,
        same,
        sum-shift w m (suc n - m),
        with_first m n,
        later-sum m n,
      )
