-- ===== src/Generate/Password/Success.antt =====
-- The sampling of a password succeeds when the random source does.
use vaultsmith.Base.{
  ℕ, zero, suc, ◌+◌, ◌-◌, ◌*◌, ◌<◌, ◌≡◌, inl, inr, refl, ap, subst, ◌==◌, ==_iff, ltb, not-ltb→le,
  arith, List, [], ◌∷◌, Bytes, length, Option, some, Bool-cases, Option-cases, ok, or_err,
}
use vaultsmith.Generate.Password.{
  generation_failed, PasswordClass, suffix_minimum, rounds, sum_weights, count, count_weight, nth,
  decrement, only_non_empty, choose, random_index, select_remaining_class, sample_class_counts,
  sample_password_characters,
}
use vaultsmith.Generate.Password.Ranks.{class_count_for_rank_iff}
use vaultsmith.Generate.Password.Counts.{sum}
use vaultsmith.Generate.Password.Characters.{select-Left, sum-decrement}

nth-exists {ℓ} : {A : Type ℓ} (j : ℕ) (xs : List A) → j < length xs → (x : A) × (nth j xs ≡ some x)
unfolding nth
nth-exists j [] h = absurd (omega (arith, h))
nth-exists zero (x ∷ xs) h = (x, refl)
nth-exists (suc j) (x ∷ xs) h = nth-exists j xs (omega (arith, h))

nth-lt-length {ℓ} : {A : Type ℓ} (j : ℕ) (xs : List A) {x : A} → nth j xs ≡ some x → j < length xs
unfolding nth
nth-lt-length j [] e = cc
nth-lt-length zero (x ∷ xs) e = omega arith
nth-lt-length (suc j) (x ∷ xs) e = omega (arith, nth-lt-length j xs e)

length-decrement : (i : ℕ) (ns : List ℕ) → length (decrement i ns) ≡ length ns
unfolding decrement
length-decrement i [] = refl
length-decrement zero (n ∷ ns) = refl
length-decrement (suc i) (n ∷ ns) = omega (arith, length-decrement i ns)

choose-exists :
    (start choice : ℕ) (ns : List ℕ) → choice < sum ns → (i : ℕ) × (choose start choice ns ≡ some i)
unfolding choose sum
choose-exists start choice [] h = absurd (omega (arith, h))
choose-exists start choice (n ∷ ns) h = elim (Bool-cases (ltb choice n)) [
  | inl here ↦ (start, rw here refl)
  | inr later ↦
      let (i, e) =
        choose-exists (suc start) (choice - n) ns (omega (arith, h, not-ltb→le choice n later)) in
      (i, rw later e)
]

product_zero : (a b : ℕ) → 0 < a * b → 0 < b
product_zero a zero h = absurd (omega (arith, h))
product_zero a (suc b) h = omega arith

module _ (c : PasswordClass) (cs : List PasswordClass) (slots : ℕ) where
  count-positive_rest : (k : ℕ) → 0 < count_weight c cs slots k → 0 < count cs (slots - k)
  unfolding count_weight
  count-positive_rest k h = product_zero _ (count cs (slots - k)) h

  count-positive_exact :
      c.minimum + suffix_minimum cs ≡ slots
      → 0 < count (c ∷ cs) slots
      → 0 < count_weight c cs slots c.minimum
  unfolding count sum_weights count_weight
  count-positive_exact e h =
      let one : rounds c cs slots ≡ 1 = omega (arith, e) in
      omega (arith, subst (λ n. 0 < sum_weights (count_weight c cs slots) c.minimum n) one h)

-- What crypto/rand.Int does on a source that does not fail.
abbrev pub IsRandom : {R : Type 0} → (ℕ → R → Option (ℕ × R)) → Type 0
IsRandom {R} draw =
    (n : ℕ) (r : R) → 0 < n → (v : ℕ) × (next : R) × (draw n r ≡ some (v, next)) × (v < n)

module _ {R : Type 0} (draw : ℕ → R → Option (ℕ × R)) (random : IsRandom draw) where
  random_index-ok :
      (n : ℕ) (r : R)
      → 0 < n
      → (v : ℕ) × (next : R) × (random_index draw n r ≡ ok (v, next)) × (v < n)
  unfolding random_index
  random_index-ok zero r h = absurd (omega (arith, h))
  random_index-ok (suc zero) r h = (0, r, refl, omega arith)
  random_index-ok (suc (suc n)) r h =
      let (v, next, e, lt) = random (suc (suc n)) r (omega arith) in
      (v, next, ap (λ o. or_err o generation_failed) e, lt)

  select-ok :
      (ns : List ℕ) (n : ℕ) (r : R)
      → sum ns ≡ suc n
      → (i : ℕ) × (next : R) × (select_remaining_class draw ns (suc n) r ≡ ok (i, next))
  unfolding select_remaining_class
  select-ok ns n r total = elim (Option-cases (only_non_empty 0 ns)) [
    | inr (i, e) ↦ (i, r, rw (e, select_remaining_class) refl)
    | inl e ↦
        let (v, next, drawn, lt) = random_index-ok (suc n) r (omega arith) in
        let (i, chosen) = choose-exists 0 v ns (omega (arith, lt, total)) in
        (i, next, rw (e, select_remaining_class, drawn, chosen) refl)
  ]

  pub sample_password_characters-ok :
      (n : ℕ) (classes : List PasswordClass) (ns : List ℕ) (r : R)
      → length ns ≡ length classes
      → ((j : ℕ) (c : PasswordClass) → nth j classes ≡ some c → 0 < length c.alphabet)
      → sum ns ≡ n
      → (word : Bytes) × (next : R) × (sample_password_characters draw n classes ns r
          ≡ ok (word, next))
  unfolding sample_password_characters
  sample_password_characters-ok zero classes ns r same full total = ([], r, refl)
  sample_password_characters-ok (suc n) classes ns r same full total =
      let (i, r₁, e) = select-ok ns n r total in
      let (left, has) = select-Left draw ns (suc n) r e in
      let (class, is_class) = nth-exists i classes (omega (arith, same, nth-lt-length i ns has)) in
      let (k, r₂, e₂, lt) = random_index-ok (length class.alphabet) r₁ (full i class is_class) in
      let (c, drawn) = nth-exists k class.alphabet lt in
      let (rest, r₃, e₃) =
        sample_password_characters-ok n classes (decrement i ns) r₂
          (omega (arith, length-decrement i ns, same)) full
          (omega (arith, sum-decrement i left ns has, total)) in
      (c ∷ rest, r₃, rw (e, is_class, e₂, drawn, e₃) refl)

  pub sample_class_counts-ok :
      (c : PasswordClass) (cs : List PasswordClass) (slots : ℕ) (r : R)
      → 0 < count (c ∷ cs) slots
      → (ns : List ℕ) × (next : R) × (sample_class_counts draw (c ∷ cs) slots r ≡ ok (ns, next))
  unfolding sample_class_counts
  sample_class_counts-ok c [] slots r h = (slots ∷ [], r, refl)
  sample_class_counts-ok c (d ∷ cs) slots r h =
      elim (Bool-cases (c.minimum + suffix_minimum (d ∷ cs) == slots)) [
        | inl exact ↦
            let weight = count-positive_exact c (d ∷ cs) slots ((==_iff _ _).0 exact) h in
            let (ns, next, e) =
              sample_class_counts-ok d cs (slots - c.minimum) r
                (count-positive_rest c (d ∷ cs) slots c.minimum weight) in
            (c.minimum ∷ ns, next, rw (exact, sample_class_counts, e) refl)
        | inr loose ↦
            let (rank, r₁, drawn, lt) = random (count (c ∷ d ∷ cs) slots) r h in
            let (m, selected) = (class_count_for_rank_iff c (d ∷ cs) slots rank).1 lt in
            let (_, s) = ((class_count_for_rank_iff c (d ∷ cs) slots rank).0 m).0 selected in
            let weight : 0 < count_weight c (d ∷ cs) slots m = omega (arith, s.from, s.below) in
            let (ns, next, e) =
              sample_class_counts-ok d cs (slots - m) r₁
                (count-positive_rest c (d ∷ cs) slots m weight) in
            (m ∷ ns, next, rw (loose, sample_class_counts, drawn, selected, e) refl)
      ]
