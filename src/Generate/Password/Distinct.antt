-- ===== src/Generate/Password/Distinct.antt =====
-- No character is in two classes of effective parameters.
use vaultsmith.Base.{
  pos, ℕ, ◌+◌, ◌≡◌, refl, sym, ap, ◌∙◌, Bool, true, false, not, ◌||◌, ◌&&◌, ◌==◌, ltb, List, [],
  ◌∷◌, ◌++◌, codes, Bytes, is_empty, if◌then◌else◌, Result, ok, guard_then, or_err_then, bind-eq-ok,
  ok-injective,
}
use vaultsmith.Generate.Password.{
  GenerationError, invalid_parameters, PasswordClass, ClassDefinition, PasswordParameters,
  within_range, exclude_ambiguous, resolve_classes, resolve_password_parameters, or_default,
  definition, definitions,
}
use vaultsmith.Generate.Password.Strings.{alphabet_of, distinct}

abbrev offered : Bool → Bool → Bytes → Bytes → Bytes
offered exclude enabled alphabet rest =
    if enabled then (if exclude then exclude_ambiguous alphabet else alphabet) ++ rest else rest

-- The characters of the enabled definitions.
offered_by : Bool → List ClassDefinition → Bytes
offered_by exclude [] = []
offered_by exclude (d ∷ ds) = offered exclude d.enabled d.alphabet (offered_by exclude ds)

added_alphabet :
    (exclude enabled : Bool) (alphabet : Bytes) (minimum : ℕ) (cs : List PasswordClass) (t : ℕ)
    (rest : Bytes) {classes : List PasswordClass} {total : ℕ}
    → alphabet_of cs ≡ rest
    → ◌≡◌ {A = Result GenerationError (List PasswordClass × ℕ)}
        (ok (
          if enabled
          then (
            record {
              alphabet = if exclude then exclude_ambiguous alphabet else alphabet;
              minimum = minimum;
            }
                ∷ cs,
            minimum + t,
          )
          else (cs, t)))
        (ok (classes, total))
    → alphabet_of classes ≡ offered exclude enabled alphabet rest
unfolding alphabet_of
added_alphabet exclude true alphabet minimum cs t rest e h =
    ap alphabet_of (sym (ok-injective h).0)
    ∙ ap (λ s. (if exclude then exclude_ambiguous alphabet else alphabet) ++ s) e
added_alphabet exclude false alphabet minimum cs t rest e h =
    ap alphabet_of (sym (ok-injective h).0) ∙ e

resolve_classes-alphabet :
    (exclude : Bool) (ds : List ClassDefinition) {classes : List PasswordClass} {total : ℕ}
    → resolve_classes exclude ds ≡ ok (classes, total)
    → alphabet_of classes ≡ offered_by exclude ds
unfolding resolve_classes offered_by alphabet_of
resolve_classes-alphabet exclude [] h = ap alphabet_of (sym (ok-injective h).0)
resolve_classes-alphabet exclude (d ∷ ds) h =
    let (minimum, _, h₁) = or_err_then (within_range 0 32 d.minimum) invalid_parameters _ h in
    let (_, h₂) = guard_then (d.enabled || minimum == 0) invalid_parameters _ h₁ in
    let (checked, h₃) =
      guard_then
        (not (d.enabled && is_empty (if exclude then exclude_ambiguous d.alphabet else d.alphabet)))
        invalid_parameters _ h₂ in
    let ((cs, t), e, h₄) = bind-eq-ok (resolve_classes exclude ds) _ h₃ in
    added_alphabet exclude d.enabled d.alphabet minimum cs t _
      (resolve_classes-alphabet exclude ds e) h₄

-- What holds of every three answers.
of_three :
    (P : Bool → Bool → Bool → Type 0)
    → P true true true
    → P true true false
    → P true false true
    → P true false false
    → P false true true
    → P false true false
    → P false false true
    → P false false false
    → (a b c : Bool) → P a b c
of_three P h₁ h₂ h₃ h₄ h₅ h₆ h₇ h₈ true true true = h₁
of_three P h₁ h₂ h₃ h₄ h₅ h₆ h₇ h₈ true true false = h₂
of_three P h₁ h₂ h₃ h₄ h₅ h₆ h₇ h₈ true false true = h₃
of_three P h₁ h₂ h₃ h₄ h₅ h₆ h₇ h₈ true false false = h₄
of_three P h₁ h₂ h₃ h₄ h₅ h₆ h₇ h₈ false true true = h₅
of_three P h₁ h₂ h₃ h₄ h₅ h₆ h₇ h₈ false true false = h₆
of_three P h₁ h₂ h₃ h₄ h₅ h₆ h₇ h₈ false false true = h₇
of_three P h₁ h₂ h₃ h₄ h₅ h₆ h₇ h₈ false false false = h₈

abbrev offer : Bool → Bool → Bool → Bool → Bool → Bytes
offer exclude lowercase uppercase digits symbols =
    offered exclude lowercase (codes "abcdefghijklmnopqrstuvwxyz") (
      offered exclude uppercase (codes "ABCDEFGHIJKLMNOPQRSTUVWXYZ") (
        offered exclude digits (codes "0123456789")
          (offered exclude symbols (codes "!#$%&()*+,-./:;<=>?@[]^_{|}~") [])))

offer-distinct :
    (exclude lowercase uppercase digits symbols : Bool)
    → distinct (offer exclude lowercase uppercase digits symbols) ≡ true
unfolding distinct exclude_ambiguous
offer-distinct true true =
    of_three (λ a b c. distinct (offer true true a b c) ≡ true) refl refl refl refl refl refl refl
      refl
offer-distinct true false =
    of_three (λ a b c. distinct (offer true false a b c) ≡ true) refl refl refl refl refl refl refl
      refl
offer-distinct false true =
    of_three (λ a b c. distinct (offer false true a b c) ≡ true) refl refl refl refl refl refl refl
      refl
offer-distinct false false =
    of_three (λ a b c. distinct (offer false false a b c) ≡ true) refl refl refl refl refl refl refl
      refl

definitions-distinct :
    (p : PasswordParameters)
    → distinct (offered_by (or_default p.exclude_ambiguous false) (definitions p)) ≡ true
unfolding offered_by definitions definition
definitions-distinct p =
    offer-distinct (or_default p.exclude_ambiguous false) (or_default p.lowercase true)
      (or_default p.uppercase true) (or_default p.digits true) (or_default p.symbols false)

-- The characters of effective parameters are distinct.
pub resolved-distinct :
    (p : PasswordParameters) {size : ℕ} {classes : List PasswordClass}
    → resolve_password_parameters p ≡ ok (size, classes)
    → distinct (alphabet_of classes) ≡ true
unfolding resolve_password_parameters
resolved-distinct p {size} {classes} h =
    let (n, e, h₁) =
      or_err_then (within_range 22 128 (or_default p.length (pos 32))) invalid_parameters _ h in
    let ((cs, total), e₂, h₂) =
      bind-eq-ok (resolve_classes (or_default p.exclude_ambiguous false) (definitions p)) _ h₁ in
    let (checked, h₃) = guard_then (not (is_empty cs || ltb n total)) invalid_parameters _ h₂ in
    let same : cs ≡ classes = (ok-injective h₃).1 in
    ap (λ ks. distinct (alphabet_of ks)) (sym same)
    ∙ ap distinct
        (resolve_classes-alphabet (or_default p.exclude_ambiguous false) (definitions p) e₂)
    ∙ definitions-distinct p
