-- ===== src/Generate/Password/Counts.antt =====
-- The counts of the classes that sampleClassCounts gives.
use vaultsmith.Base.{
  ℕ, ◌+◌, ◌-◌, ◌≤◌, ◌≡◌, refl, subst, Bool, true, false, ◌==◌, ==_iff, arith, List, [], ◌∷◌, Option,
  Result, ok, ◌>>=◌, or_err, or_err_then, bind-eq-ok,
}
use vaultsmith.Generate.Password.{
  GenerationError, generation_failed, PasswordClass, suffix_minimum, count, class_count_for_rank,
  sample_class_counts,
}
use vaultsmith.Generate.Password.Ranks.{class_count_for_rank_iff}

-- One count for each class, at least its minimum.
pub data Meets : List PasswordClass → List ℕ → Type 0 where
  none_left : Meets [] []
  and_then :
      {c : PasswordClass} {n : ℕ} {cs : List PasswordClass} {ns : List ℕ}
      → c.minimum ≤ n
      → Meets cs ns
      → Meets (c ∷ cs) (n ∷ ns)

unfoldable pub sum : List ℕ → ℕ
sum [] = 0
sum (n ∷ ns) = n + sum ns

module _ {R : Type 0} (draw : ℕ → R → Option (ℕ × R)) where
  abbrev select_count :
      PasswordClass
      → PasswordClass
      → List PasswordClass
      → ℕ
      → R
      → Bool
      → Result GenerationError (ℕ × R)
  select_count c d cs remaining r exact = elim exact [
    | true ↦ ok (c.minimum, r)
    | false ↦ do
      (rank, r₁) ← or_err (draw (count (c ∷ d ∷ cs) remaining) r) generation_failed
      selected ← or_err (class_count_for_rank c (d ∷ cs) remaining rank) generation_failed
      ok (selected, r₁)
  ]

  selected-bounds :
      (c d : PasswordClass) (cs : List PasswordClass) (remaining : ℕ) (r : R) (n : ℕ) (r₁ : R)
      (exact : Bool)
      → (c.minimum + suffix_minimum (d ∷ cs) == remaining) ≡ exact
      → select_count c d cs remaining r exact ≡ ok (n, r₁)
      → (c.minimum ≤ n) × (n + suffix_minimum (d ∷ cs) ≤ remaining)
  selected-bounds c d cs remaining r n r₁ true exact h =
      let same : c.minimum ≡ n = cc in
      (omega (arith, same), omega (arith, same, (==_iff _ _).0 exact))
  selected-bounds c d cs remaining r n r₁ false exact h =
      let ((rank, r₂), _, h₁) =
        or_err_then (draw (count (c ∷ d ∷ cs) remaining) r) generation_failed _ h in
      let (m, e, h₂) =
        or_err_then (class_count_for_rank c (d ∷ cs) remaining rank) generation_failed _ h₁ in
      let (_, s) = ((class_count_for_rank_iff c (d ∷ cs) remaining rank).0 m).0 e in
      let same : m ≡ n = cc in (omega (arith, s.selected-eq, same), omega (arith, s.room, same))

  -- Sampled counts meet the minima and fill the length, whatever the random source gives.
  pub sample_class_counts-Meets :
      (classes : List PasswordClass) (remaining : ℕ) (r : R) {counts : List ℕ} {r' : R}
      → suffix_minimum classes ≤ remaining
      → sample_class_counts draw classes remaining r ≡ ok (counts, r')
      → Meets classes counts × (sum counts ≡ remaining)
  unfolding sample_class_counts suffix_minimum sum
  sample_class_counts-Meets [] remaining r fits h = cc
  sample_class_counts-Meets (c ∷ []) remaining r {counts} fits h =
      let same : remaining ∷ [] ≡ counts = cc in
      subst (λ ns. Meets (c ∷ []) ns × (sum ns ≡ remaining)) same
        (and_then (omega (arith, fits)) none_left, omega arith)
  sample_class_counts-Meets (c ∷ d ∷ cs) remaining r {counts} fits h =
      let ((n, r₁), e, h₁) =
        bind-eq-ok
          (select_count c d cs remaining r (c.minimum + suffix_minimum (d ∷ cs) == remaining)) _
          h in
      let ((ns, r₂), e₂, h₂) =
        bind-eq-ok (sample_class_counts draw (d ∷ cs) (remaining - n) r₁) _ h₁ in
      let (above, room) = selected-bounds c d cs remaining r n r₁ _ refl e in
      let (meets, total) =
        sample_class_counts-Meets (d ∷ cs) (remaining - n) r₁ (omega (arith, room)) e₂ in
      let same : n ∷ ns ≡ counts = cc in
      subst (λ ks. Meets (c ∷ d ∷ cs) ks × (sum ks ≡ remaining)) same
        (and_then above meets, omega (arith, total, room))
