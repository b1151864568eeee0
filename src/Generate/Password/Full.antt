-- ===== src/Generate/Password/Full.antt =====
-- When a password is generated: the classes of effective parameters have characters, and there are
-- enough strings.
use vaultsmith.Base.{
  ℕ, zero, suc, ◌+◌, ◌^◌, ◌<◌, ◌≤◌, ◌≡◌, ◌↔◌, refl, sym, subst, ◌∙◌, Bool, true, false, not, ◌||◌,
  ◌&&◌, ◌==◌, ltb, not-ltb→le, le→not-ltb, arith, List, [], ◌∷◌, Bytes, length, is_empty,
  if◌then◌else◌, Option, some, Result, ok, ◌>>=◌, guard_then, or_err_then, bind-eq-ok, ok-injective,
}
use vaultsmith.Generate.Password.{
  pos, GenerationError, invalid_parameters, PasswordClass, ClassDefinition, PasswordParameters,
  suffix_minimum, within_range, exclude_ambiguous, resolve_classes, resolve_password_parameters,
  or_default, definitions, nth, count, sample_class_counts, sample_password_characters,
  generate_password,
}
use vaultsmith.Generate.Password.Parameters.{resolve_password_parameters-bounds}
use vaultsmith.Generate.Password.Counts.{Meets, none_left, and_then, sample_class_counts-Meets}
use vaultsmith.Generate.Password.Strings.{alphabet_of, accepted, number_of}
use vaultsmith.Generate.Password.Accepted.{number_of-accepted}
use vaultsmith.Generate.Password.Distinct.{resolved-distinct}
use vaultsmith.Generate.Password.Success.{
  IsRandom, sample_class_counts-ok, sample_password_characters-ok,
}

-- Every class has a character.
abbrev Full : List PasswordClass → Type 0
Full classes = (j : ℕ) (c : PasswordClass) → nth j classes ≡ some c → 0 < length c.alphabet

length-positive : (s : Bytes) → is_empty s ≡ false → 0 < length s
length-positive [] h = cc
length-positive (c ∷ s) h = omega arith

cons-Full :
    (class : PasswordClass) (cs : List PasswordClass)
    → 0 < length class.alphabet
    → Full cs
    → Full (class ∷ cs)
unfolding nth
cons-Full class cs some_first full zero c e =
    let same : class ≡ c = cc in
    subst {A = PasswordClass} (λ x. 0 < length x.alphabet) same some_first
cons-Full class cs some_first full (suc j) c e = full j c e

added-Full :
    (enabled : Bool) (alphabet : Bytes) (minimum : ℕ) (cs : List PasswordClass) (t : ℕ)
    {classes : List PasswordClass} {total : ℕ}
    → not (enabled && is_empty alphabet) ≡ true
    → Full cs
    → ◌≡◌ {A = Result GenerationError (List PasswordClass × ℕ)}
        (ok (
          if enabled
          then (record { alphabet = alphabet; minimum = minimum } ∷ cs, minimum + t)
          else (cs, t)))
        (ok (classes, total))
    → Full classes
added-Full true alphabet minimum cs t checked full h = subst Full (ok-injective h).0 (
    cons-Full (record { alphabet = alphabet; minimum = minimum }) cs
      (length-positive alphabet (ground arith)) full)
added-Full false alphabet minimum cs t checked full h = subst Full (ok-injective h).0 full

resolve_classes-Full :
    (exclude : Bool) (ds : List ClassDefinition) {classes : List PasswordClass} {total : ℕ}
    → resolve_classes exclude ds ≡ ok (classes, total)
    → Full classes
unfolding resolve_classes nth
resolve_classes-Full exclude [] h = subst Full (ok-injective h).0 (λ j c e. cc)
resolve_classes-Full exclude (d ∷ ds) h =
    let (minimum, _, h₁) = or_err_then (within_range 0 32 d.minimum) invalid_parameters _ h in
    let (_, h₂) = guard_then (d.enabled || minimum == 0) invalid_parameters _ h₁ in
    let (checked, h₃) =
      guard_then
        (not (d.enabled && is_empty (if exclude then exclude_ambiguous d.alphabet else d.alphabet)))
        invalid_parameters _ h₂ in
    let ((cs, t), e, h₄) = bind-eq-ok (resolve_classes exclude ds) _ h₃ in
    added-Full d.enabled _ minimum cs t checked (resolve_classes-Full exclude ds e) h₄

some_class :
    (classes : List PasswordClass) (a b : ℕ)
    → not (is_empty classes || ltb a b) ≡ true
    → (c : PasswordClass) × (cs : List PasswordClass) × (classes ≡ c ∷ cs)
some_class [] a b h = cc
some_class (c ∷ cs) a b h = (c, cs, refl)

resolved-Full :
    (p : PasswordParameters) {size : ℕ} {classes : List PasswordClass}
    → resolve_password_parameters p ≡ ok (size, classes)
    → Full classes × ((c : PasswordClass) × (cs : List PasswordClass) × (classes ≡ c ∷ cs))
unfolding resolve_password_parameters
resolved-Full p {size} {classes} h =
    let (n, e, h₁) =
      or_err_then (within_range 22 128 (or_default p.length (pos 32))) invalid_parameters _ h in
    let ((cs, total), e₂, h₂) =
      bind-eq-ok (resolve_classes (or_default p.exclude_ambiguous false) (definitions p)) _ h₁ in
    let (checked, h₃) = guard_then (not (is_empty cs || ltb n total)) invalid_parameters _ h₂ in
    let same = (ok-injective h₃).1 in
    let (c, ds, e₃) = some_class cs n total checked in
    (
      subst Full same
          (resolve_classes-Full (or_default p.exclude_ambiguous false) (definitions p) e₂),
      (c, ds, sym same ∙ e₃),
    )

length-Meets :
    {classes : List PasswordClass} {ns : List ℕ} → Meets classes ns → length ns ≡ length classes
length-Meets none_left = refl
length-Meets (and_then le rest) = omega (arith, length-Meets rest)

module _ {R : Type 0} (draw : ℕ → R → Option (ℕ × R)) (random : IsRandom draw) where
  -- The counts and then the characters are sampled.
  abbrev sample : R → ℕ → List PasswordClass → Result GenerationError (Bytes × R)
  sample r size classes = sample_class_counts draw classes size r >>= λ p.
      sample_password_characters draw size classes p.0 p.1

  abbrev Sampled : R → ℕ → List PasswordClass → Type 0
  Sampled r size classes = (word : Bytes) × (next : R) × (sample r size classes ≡ ok (word, next))

  generate_then :
      (p : PasswordParameters) (r : R) (size : ℕ) (classes : List PasswordClass)
      → resolve_password_parameters p ≡ ok (size, classes)
      → 2 ^ 128 ≤ count classes size
      → generate_password draw p r ≡ sample r size classes
  unfolding generate_password
  generate_then p r size classes e enough =
      rw (generate_password, e, le→not-ltb (2 ^ 128) (count classes size) enough) refl

  sampled :
      (c : PasswordClass) (cs : List PasswordClass) (size : ℕ) (r : R)
      → Full (c ∷ cs)
      → 0 < count (c ∷ cs) size
      → suffix_minimum (c ∷ cs) ≤ size
      → Sampled r size (c ∷ cs)
  sampled c cs size r full positive fits =
      let (ns, r₁, e) = sample_class_counts-ok draw random c cs size r positive in
      let (meets, total) = sample_class_counts-Meets draw (c ∷ cs) size r fits e in
      let (word, next, e₂) =
        sample_password_characters-ok draw random size (c ∷ cs) ns r₁ (length-Meets meets) full
          total in
      (word, next, rw e e₂)

  generate_password-count_iff :
      (p : PasswordParameters) (r : R)
      → ((password : Bytes) × (next : R) × (generate_password draw p r ≡ ok (password, next))) ↔ (
          (size : ℕ) × (classes : List PasswordClass) × (resolve_password_parameters p
            ≡ ok (size, classes))
          × (2 ^ 128 ≤ count classes size))
  unfolding generate_password
  generate_password-count_iff p r = (needs, suffices)
    where
      needs :
          (password : Bytes) × (next : R) × (generate_password draw p r ≡ ok (password, next))
          → (size : ℕ) × (classes : List PasswordClass) × (resolve_password_parameters p
              ≡ ok (size, classes))
            × (2 ^ 128 ≤ count classes size)
      needs (password, next, h) =
          let ((size, classes), e, h₁) = bind-eq-ok (resolve_password_parameters p) _ h in
          let (enough, _) =
            guard_then (not (ltb (count classes size) (2 ^ 128))) invalid_parameters _ h₁ in
          (size, classes, e, not-ltb→le (count classes size) (2 ^ 128) (ground arith))

      suffices :
          (size : ℕ) × (classes : List PasswordClass) × (resolve_password_parameters p
              ≡ ok (size, classes))
            × (2 ^ 128 ≤ count classes size)
          → (password : Bytes) × (next : R) × (generate_password draw p r ≡ ok (password, next))
      suffices (size, classes, e, enough) =
          let (full, (c, cs, is_cons)) = resolved-Full p e in
          let (_, _, fits) = resolve_password_parameters-bounds p e in
          let (word, next, done) = subst (Sampled r size) (sym is_cons) (
            sampled c cs size r (subst Full is_cons full)
              (subst (λ ks. 0 < count ks size) is_cons (positive size classes enough))
              (subst (λ ks. suffix_minimum ks ≤ size) is_cons fits)) in
          (word, next, generate_then p r size classes e enough ∙ done)
        where
          positive : (n : ℕ) (ks : List PasswordClass) → 2 ^ 128 ≤ count ks n → 0 < count ks n
          positive n ks h = omega arith

  -- On a random source that does not fail, a password is generated exactly when the parameters
  -- resolve and there are at least 2^128 accepted strings: strings of the resolved length, of
  -- characters of the classes, with as many characters of each class as its minimum.
  pub generate_password_iff :
      (p : PasswordParameters) (r : R)
      → ((password : Bytes) × (next : R) × (generate_password draw p r ≡ ok (password, next))) ↔ (
          (size : ℕ) × (classes : List PasswordClass) × (resolve_password_parameters p
            ≡ ok (size, classes))
          × (2 ^ 128 ≤ number_of (accepted classes) (alphabet_of classes) size))
  generate_password_iff p r = (
    λ h.
        let (size, classes, e, enough) = (generate_password-count_iff p r).0 h in
        (size, classes, e, subst (λ n. 2 ^ 128 ≤ n) (sym (all_strings size classes e)) enough),
    λ (size, classes, e, enough).
        (generate_password-count_iff p r).1
          (size, classes, e, subst (λ n. 2 ^ 128 ≤ n) (all_strings size classes e) enough),
  )
    where
      all_strings :
          (size : ℕ) (classes : List PasswordClass)
          → resolve_password_parameters p ≡ ok (size, classes)
          → number_of (accepted classes) (alphabet_of classes) size ≡ count classes size
      all_strings size classes e = number_of-accepted size classes (resolved-distinct p e)
