-- ===== src/Generate/Password/Parameters.antt =====
-- The effective parameters of a password.
use vaultsmith.Base.{
  ℤ, pos, negsuc, ℕ, ◌+◌, ◌≤◌, ◌≡◌, inl, inr, sym, ap, subst, ◌∙◌, Bool, true, false, not, ◌||◌,
  ◌&&◌, ◌==◌, ltb, arith, List, [], ◌∷◌, Bytes, is_empty, if◌then◌else◌, some, Bool-cases, Result,
  ok, guard_then, or_err_then, bind-eq-ok, ok-injective,
}
use vaultsmith.Generate.Password.{
  GenerationError, invalid_parameters, PasswordClass, ClassDefinition, PasswordParameters,
  suffix_minimum, within_range, exclude_ambiguous, resolve_classes, resolve_password_parameters,
  or_default, definitions,
}

within_range-bounds :
    (low high : ℕ) (z : ℤ) {n : ℕ} → within_range low high z ≡ some n → (low ≤ n) × (n ≤ high)
unfolding within_range
within_range-bounds low high (negsuc k) h = cc
within_range-bounds low high (pos k) {n} h = elim (Bool-cases (ltb k low || ltb high k)) [
  | inl out ↦ cc (rw out at h)
  | inr ins ↦ let same : k ≡ n = cc (rw ins at h) in (ground (arith, same), ground (arith, same))
]

-- One round of the loop.
added :
    (enabled : Bool) (alphabet : Bytes) (minimum : ℕ) (cs : List PasswordClass) (t : ℕ)
    {classes : List PasswordClass} {total : ℕ}
    → t ≡ suffix_minimum cs
    → ◌≡◌ {A = Result GenerationError (List PasswordClass × ℕ)}
        (ok (
          if enabled
          then (record { alphabet = alphabet; minimum = minimum } ∷ cs, minimum + t)
          else (cs, t)))
        (ok (classes, total))
    → total ≡ suffix_minimum classes
unfolding suffix_minimum
added true alphabet minimum cs t e h =
    let (classes_are, total_is) = ok-injective h in
    sym total_is ∙ ap (λ n. minimum + n) e ∙ ap suffix_minimum classes_are
added false alphabet minimum cs t e h =
    let (classes_are, total_is) = ok-injective h in sym total_is ∙ e ∙ ap suffix_minimum classes_are

-- The sum of the minima that the loop keeps is that of the classes it gives.
resolve_classes-total :
    (exclude : Bool) (definitions : List ClassDefinition) {classes : List PasswordClass} {total : ℕ}
    → resolve_classes exclude definitions ≡ ok (classes, total)
    → total ≡ suffix_minimum classes
unfolding resolve_classes suffix_minimum
resolve_classes-total exclude [] h =
    let (none_is, zero_is) = ok-injective h in sym zero_is ∙ ap suffix_minimum none_is
resolve_classes-total exclude (d ∷ ds) {classes} {total} h =
    let (minimum, _, h₁) = or_err_then (within_range 0 32 d.minimum) invalid_parameters _ h in
    let (_, h₂) = guard_then (d.enabled || minimum == 0) invalid_parameters _ h₁ in
    let (_, h₃) =
      guard_then
        (not (d.enabled && is_empty (if exclude then exclude_ambiguous d.alphabet else d.alphabet)))
        invalid_parameters _ h₂ in
    let ((cs, t), e, h₄) = bind-eq-ok (resolve_classes exclude ds) _ h₃ in
    let before = resolve_classes-total exclude ds e in added d.enabled _ minimum cs t before h₄

-- Resolved parameters have a length from 22 to 128, which is enough for the minima.
pub resolve_password_parameters-bounds :
    (p : PasswordParameters) {size : ℕ} {classes : List PasswordClass}
    → resolve_password_parameters p ≡ ok (size, classes)
    → (22 ≤ size) × (size ≤ 128) × (suffix_minimum classes ≤ size)
unfolding resolve_password_parameters
resolve_password_parameters-bounds p {size} {classes} h =
    let (n, e, h₁) =
      or_err_then (within_range 22 128 (or_default p.length (pos 32))) invalid_parameters _ h in
    let ((cs, total), e₂, h₂) =
      bind-eq-ok (resolve_classes (or_default p.exclude_ambiguous false) (definitions p)) _ h₁ in
    let (checked, h₃) = guard_then (not (is_empty cs || ltb n total)) invalid_parameters _ h₂ in
    let (low, high) = within_range-bounds 22 128 (or_default p.length (pos 32)) e in
    let sums = resolve_classes-total (or_default p.exclude_ambiguous false) (definitions p) e₂ in
    let (n_is, cs_is) = ok-injective h₃ in
    (
      subst (λ k. 22 ≤ k) n_is low,
      subst (λ k. k ≤ 128) n_is high,
      subst (λ k. suffix_minimum classes ≤ k) n_is
          (subst (λ ks. suffix_minimum ks ≤ n) cs_is
            (subst (λ k. k ≤ n) sums (fits cs n total checked))),
    )
  where
    fits : (ks : List PasswordClass) (a b : ℕ) → not (is_empty ks || ltb a b) ≡ true → b ≤ a
    fits ks a b k = ground arith
