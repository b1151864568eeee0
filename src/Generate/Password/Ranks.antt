-- ===== src/Generate/Password/Ranks.antt =====
-- The count of a class that a rank selects.
use vaultsmith.Base.{
  ℕ, zero, suc, ◌+◌, ◌-◌, ◌<◌, ◌≤◌, ◌≡◌, ◌↔◌, inl, inr, refl, sym, ap, subst, ◌∙◌, true, false,
  arith, ltb, leb, ltb→lt, not-ltb→le, List, ◌∷◌, none, some, Bool-cases,
}
use vaultsmith.Generate.Password.{
  PasswordClass, suffix_minimum, rounds, sum_weights, count, count_weight, rank_loop,
  class_count_for_rank,
}

pub sum_weights-suc :
    (weight : ℕ → ℕ) (k i : ℕ)
    → sum_weights weight k (suc i) ≡ sum_weights weight k i + weight (k + i)
unfolding sum_weights
sum_weights-suc weight k zero =
    let same : weight k ≡ weight (k + 0) = ap weight (omega arith) in omega (arith, same)
sum_weights-suc weight k (suc i) =
    let shift : weight (suc k + i) ≡ weight (k + suc i) = ap weight (omega arith) in
    omega (arith, sum_weights-suc weight (suc k) i, shift)

-- A rank in the part of a count.
pub record InPart (weight : ℕ → ℕ) (k n rank i : ℕ) : Type 0 where
  pub in_rounds : i < n
  pub from : sum_weights weight k i ≤ rank
  pub below : rank < sum_weights weight k (suc i)

rank_loop-of_InPart :
    (weight : ℕ → ℕ) (k n rank i : ℕ)
    → InPart weight k n rank i
    → rank_loop weight k n rank ≡ some (k + i)
unfolding rank_loop sum_weights
rank_loop-of_InPart weight k zero rank i p = absurd (omega (arith, p.in_rounds))
rank_loop-of_InPart weight k (suc n) rank zero p =
    let here : ltb rank (weight k) ≡ true = ground (arith, p.below) in
    rw here (ap some (omega arith))
rank_loop-of_InPart weight k (suc n) rank (suc i) p =
    let before : ltb rank (weight k) ≡ false = ground (arith, p.from) in
    rw before (
      rank_loop-of_InPart weight (suc k) n (rank - weight k) i (record {
        in_rounds = omega (arith, p.in_rounds);
        from = omega (arith, p.from);
        below = omega (arith, p.from, p.below);
      })
      ∙ ap some (omega arith))

InPart-exists :
    (weight : ℕ → ℕ) (k n rank : ℕ)
    → rank < sum_weights weight k n
    → (i : ℕ) × InPart weight k n rank i
unfolding sum_weights
InPart-exists weight k zero rank h = absurd (omega (arith, h))
InPart-exists weight k (suc n) rank h = elim (Bool-cases (ltb rank (weight k))) [
  | inl here ↦ (
    0,
    record {
      in_rounds = omega arith;
      from = omega arith;
      below = omega (arith, ltb→lt rank (weight k) here);
    },
  )
  | inr later ↦
      let le = not-ltb→le rank (weight k) later in
      let (i, p) = InPart-exists weight (suc k) n (rank - weight k) (omega (arith, h, le)) in
      (
        suc i,
        record {
          in_rounds = omega (arith, p.in_rounds);
          from = omega (arith, p.from, le);
          below = omega (arith, p.below, le);
        },
      )
]

-- The count that a rank selects: the weights of the smaller counts come before the rank, and the
-- rank is within the weight of this one.
pub record Selects (c : PasswordClass) (cs : List PasswordClass) (slots rank selected : ℕ)
    : Type 0 where
  pub above_minimum : ℕ
  pub selected-eq : selected ≡ c.minimum + above_minimum
  pub room : selected + suffix_minimum cs ≤ slots
  pub from : sum_weights (count_weight c cs slots) c.minimum above_minimum ≤ rank
  pub below :
      rank
      < sum_weights (count_weight c cs slots) c.minimum above_minimum
        + count_weight c cs slots selected

module _ (c : PasswordClass) (cs : List PasswordClass) (slots rank : ℕ) where
  abbrev weights : ℕ → ℕ
  weights = count_weight c cs slots

  count-weights : count (c ∷ cs) slots ≡ sum_weights weights c.minimum (rounds c cs slots)
  unfolding count count_weight
  count-weights = refl

  Selects-of_InPart :
      (i : ℕ)
      → InPart weights c.minimum (rounds c cs slots) rank i
      → Selects c cs slots rank (c.minimum + i)
  Selects-of_InPart i p = record {
    above_minimum = i;
    selected-eq = refl;
    room = omega (arith, p.in_rounds);
    from = p.from;
    below = omega (arith, p.below, sum_weights-suc weights c.minimum i);
  }

  selected :
      (i : ℕ)
      → InPart weights c.minimum (rounds c cs slots) rank i
      → rank < count (c ∷ cs) slots
      → class_count_for_rank c cs slots rank ≡ some (c.minimum + i)
  unfolding class_count_for_rank
  selected i p h =
      let small : leb (count (c ∷ cs) slots) rank ≡ false = ground (arith, h) in
      rw small (rank_loop-of_InPart weights c.minimum (rounds c cs slots) rank i p)

  none_above : count (c ∷ cs) slots ≤ rank → class_count_for_rank c cs slots rank ≡ none
  unfolding class_count_for_rank
  none_above h =
      let large : leb (count (c ∷ cs) slots) rank ≡ true = ground (arith, h) in rw large refl

  -- A rank selects a count exactly when it lies in the part of the ranks that has the weight of
  -- that count for its size, and every rank below the count of the strings selects one.
  pub class_count_for_rank_iff :
      ((m : ℕ)
        → (class_count_for_rank c cs slots rank ≡ some m)
          ↔ ((rank < count (c ∷ cs) slots) × Selects c cs slots rank m))
      × (rank < count (c ∷ cs) slots → (m : ℕ) × (class_count_for_rank c cs slots rank ≡ some m))
  class_count_for_rank_iff = (λ m. (to m, from m), found)
    where
      found :
          rank < count (c ∷ cs) slots → (m : ℕ) × (class_count_for_rank c cs slots rank ≡ some m)
      found h =
          let (i, p) =
            InPart-exists weights c.minimum (rounds c cs slots) rank
              (subst (λ n. rank < n) count-weights h) in
          (c.minimum + i, selected i p h)

      to :
          (m : ℕ)
          → class_count_for_rank c cs slots rank ≡ some m
          → (rank < count (c ∷ cs) slots) × Selects c cs slots rank m
      to m e = elim (Bool-cases (ltb rank (count (c ∷ cs) slots))) [
        | inr large ↦ cc (none_above (not-ltb→le _ _ large), e)
        | inl small ↦
            let h = ltb→lt rank (count (c ∷ cs) slots) small in
            let (i, p) =
              InPart-exists weights c.minimum (rounds c cs slots) rank
                (subst (λ n. rank < n) count-weights h) in
            let same : c.minimum + i ≡ m = cc (selected i p h, e) in
            (h, subst (Selects c cs slots rank) same (Selects-of_InPart i p))
      ]

      from :
          (m : ℕ)
          → (rank < count (c ∷ cs) slots) × Selects c cs slots rank m
          → class_count_for_rank c cs slots rank ≡ some m
      from m (h, s) =
          let same_weight : weights m ≡ weights (c.minimum + s.above_minimum) =
            ap weights s.selected-eq in
          selected s.above_minimum
            (record {
              in_rounds = omega (arith, s.selected-eq, s.room);
              from = s.from;
              below =
                  omega (
                    arith,
                    s.below,
                    same_weight,
                    sum_weights-suc weights c.minimum s.above_minimum,
                  );
            })
            h
          ∙ ap some (sym s.selected-eq)
