-- ===== src/Generate/Password/Characters.antt =====
-- The characters of a sampled password.
use vaultsmith.Base.{
  ℕ, zero, suc, ◌+◌, ◌-◌, ◌^◌, ◌≤◌, ◌≡◌, ◌≢◌, inl, inr, refl, sym, ap, subst, ◌∙◌, true, not, ◌==◌,
  ==_iff, ltb, ltb→lt, arith, List, [], ◌∷◌, any, Bytes, length, if◌then◌else◌, Option, some,
  Bool-cases, Option-cases, ok, guard_then, or_err_then, bind-eq-ok, ok-injective,
}
use vaultsmith.Generate.Password.{
  generation_failed, invalid_parameters, PasswordClass, PasswordParameters, count, nth, decrement,
  only_non_empty, choose, random_index, select_remaining_class, sample_class_counts,
  sample_password_characters, generate_password, resolve_password_parameters,
}
use vaultsmith.Generate.Password.Counts.{Meets, none_left, and_then, sum, sample_class_counts-Meets}
use vaultsmith.Generate.Password.Parameters.{resolve_password_parameters-bounds}

-- How many characters of a word are of an alphabet.
unfoldable pub number_in : Bytes → Bytes → ℕ
number_in alphabet [] = 0
number_in alphabet (c ∷ word) =
    (if any (λ a. a == c) alphabet then 1 else 0) + number_in alphabet word

any-nth : (k c : ℕ) (alphabet : Bytes) → nth k alphabet ≡ some c → any (λ a. a == c) alphabet ≡ true
unfolding nth
any-nth k c [] e = cc
any-nth zero c (a ∷ s) e = let same : a ≡ c = cc in rw ((==_iff a c).1 same) refl
any-nth (suc k) c (a ∷ s) e = ground (arith, any-nth k c s e)

-- Where a class has some left.
abbrev Left : List ℕ → ℕ → Type 0
Left counts i = (m : ℕ) × (nth i counts ≡ some (suc m))

start_is : {start i : ℕ} → ◌≡◌ {A = Option ℕ} (some start) (some i) → i ≡ start + 0
start_is e = ground arith

only_non_empty-Left :
    (start : ℕ) (counts : List ℕ) {i : ℕ}
    → only_non_empty start counts ≡ some i
    → (k : ℕ) × (i ≡ start + k) × Left counts k
unfolding only_non_empty nth
only_non_empty-Left start [] h = cc
only_non_empty-Left start (zero ∷ counts) h =
    let (k, e, l) = only_non_empty-Left (suc start) counts h in (suc k, omega (arith, e), l)
only_non_empty-Left start (suc n ∷ counts) {i} h =
    elim (Bool-cases (any (λ m. not (m == 0)) counts)) [
      | inl more ↦ cc (rw more at h)
      | inr alone ↦
          let same : ◌≡◌ {A = Option ℕ} (some start) (some i) = rw alone at h in
          (0, start_is same, (n, refl))
    ]

choose-Left :
    (start choice : ℕ) (counts : List ℕ) {i : ℕ}
    → choose start choice counts ≡ some i
    → (k : ℕ) × (i ≡ start + k) × Left counts k
unfolding choose nth
choose-Left start choice [] h = cc
choose-Left start choice (n ∷ counts) {i} h = elim (Bool-cases (ltb choice n)) [
  | inr later ↦
      let (k, e, l) = choose-Left (suc start) (choice - n) counts (rw later at h) in
      (suc k, omega (arith, e), l)
  | inl here ↦
      let same : ◌≡◌ {A = Option ℕ} (some start) (some i) = rw here at h in
      let positive : suc (n - 1) ≡ n = omega (arith, ltb→lt choice n here) in
      (0, start_is same, (n - 1, ap some (sym positive)))
]

nth-le-sum : (j m : ℕ) (counts : List ℕ) → nth j counts ≡ some m → m ≤ sum counts
unfolding nth sum
nth-le-sum j m [] e = cc
nth-le-sum zero m (n ∷ ns) e = let same : n ≡ m = cc in omega (arith, same)
nth-le-sum (suc j) m (n ∷ ns) e = omega (arith, nth-le-sum j m ns e)

pub sum-decrement :
    (i m : ℕ) (counts : List ℕ)
    → nth i counts ≡ some (suc m)
    → suc (sum (decrement i counts)) ≡ sum counts
unfolding nth sum decrement
sum-decrement i m [] e = cc
sum-decrement zero m (n ∷ ns) e = let same : n ≡ suc m = cc in omega (arith, same)
sum-decrement (suc i) m (n ∷ ns) e = omega (arith, sum-decrement i m ns e)

nth-decrement :
    (i m : ℕ) (counts : List ℕ) → nth i counts ≡ some (suc m) → nth i (decrement i counts) ≡ some m
unfolding nth decrement
nth-decrement i m [] e = cc
nth-decrement zero m (n ∷ ns) e =
    let same : n ≡ suc m = cc in let less : n - 1 ≡ m = omega (arith, same) in ap some less
nth-decrement (suc i) m (n ∷ ns) e = nth-decrement i m ns e

nth_other : (j i : ℕ) (counts : List ℕ) → j ≢ i → nth j (decrement i counts) ≡ nth j counts
unfolding nth decrement
nth_other j i [] ne = refl
nth_other zero zero (n ∷ ns) ne = absurd (ne refl)
nth_other zero (suc i) (n ∷ ns) ne = refl
nth_other (suc j) zero (n ∷ ns) ne = refl
nth_other (suc j) (suc i) (n ∷ ns) ne = nth_other j i ns (λ e. ne (ap suc e))

-- A word has as many characters of each alphabet as the class has left, or more.
abbrev Covers : List PasswordClass → List ℕ → Bytes → Type 0
Covers classes counts word =
    (j m : ℕ) (c : PasswordClass)
    → nth j classes ≡ some c
    → nth j counts ≡ some m
    → m ≤ number_in c.alphabet word

Covers-cons :
    (classes : List PasswordClass) (counts : List ℕ) (i left k c : ℕ) (class : PasswordClass)
    (word : Bytes)
    → nth i counts ≡ some (suc left)
    → nth i classes ≡ some class
    → nth k class.alphabet ≡ some c
    → Covers classes (decrement i counts) word
    → Covers classes counts (c ∷ word)
unfolding number_in
Covers-cons classes counts i left k c class word has is_class drawn covers j m d e f =
    elim (Bool-cases (j == i)) [
      | inr other ↦
          let apart : j ≢ i = λ z. cc (other, (==_iff j i).1 z) in
          omega (arith, covers j m d e (nth_other j i counts apart ∙ f))
      | inl same ↦
          let j_is : j ≡ i = (==_iff j i).0 same in
          let class_is : class ≡ d = cc (is_class, e, j_is) in
          let m_is : suc left ≡ m = cc (has, f, j_is) in
          let one : any (λ a. a == c) d.alphabet ≡ true =
            subst (λ x. any (λ a. a == c) x.alphabet ≡ true) class_is
              (any-nth k c class.alphabet drawn) in
          rw one (
            omega (
              arith,
              m_is,
              covers j left d e
                  (ap (λ x. nth x (decrement i counts)) j_is ∙ nth-decrement i left counts has),
            ))
    ]

-- The word of all draws covers the counts and is as long as they add up to.
abbrev Drawn : ℕ → List PasswordClass → List ℕ → Bytes → Type 0
Drawn n classes counts word = (length word ≡ n) × Covers classes counts word

Drawn-cons :
    (n : ℕ) (classes : List PasswordClass) (counts : List ℕ) (i left k c : ℕ)
    (class : PasswordClass) (rest : Bytes) {word : Bytes}
    → nth i counts ≡ some (suc left)
    → nth i classes ≡ some class
    → nth k class.alphabet ≡ some c
    → Drawn n classes (decrement i counts) rest
    → c ∷ rest ≡ word
    → Drawn (suc n) classes counts word
Drawn-cons n classes counts i left k c class rest has is_class drawn (size, covers) same =
    subst (Drawn (suc n) classes counts) same (
      omega (arith, size),
      Covers-cons classes counts i left k c class rest has is_class drawn covers,
    )

module _ {R : Type 0} (draw : ℕ → R → Option (ℕ × R)) where
  pub select-Left :
      (counts : List ℕ) (total : ℕ) (r : R) {i : ℕ} {r' : R}
      → select_remaining_class draw counts total r ≡ ok (i, r')
      → Left counts i
  unfolding select_remaining_class
  select-Left counts total r {i} {r'} h = elim (Option-cases (only_non_empty 0 counts)) [
    | inr (k, e) ↦
        let (same, _) = ok-injective (rw (e, select_remaining_class) at h) in
        let (k', e', l) = only_non_empty-Left 0 counts e in
        subst (Left counts) (omega (arith, e', same)) l
    | inl e ↦
        let ((choice, r₁), _, h₁) =
          bind-eq-ok (random_index draw total r) _ (rw (e, select_remaining_class) at h) in
        let (k, chosen, h₂) = or_err_then (choose 0 choice counts) generation_failed _ h₁ in
        let (same, _) = ok-injective h₂ in
        let (k', e', l) = choose-Left 0 choice counts chosen in
        subst (Left counts) (omega (arith, e', same)) l
  ]

  sample-Covers :
      (n : ℕ) (classes : List PasswordClass) (counts : List ℕ) (r : R) {word : Bytes} {r' : R}
      → sum counts ≡ n
      → sample_password_characters draw n classes counts r ≡ ok (word, r')
      → Drawn n classes counts word
  unfolding sample_password_characters
  sample-Covers zero classes counts r {word} total h =
      let (same, _) = ok-injective h in
      subst (Drawn 0 classes counts) same
        (refl, λ j m c e f. omega (arith, nth-le-sum j m counts f, total))
  sample-Covers (suc n) classes counts r {word} total h =
      let ((i, r₁), e, h₁) = bind-eq-ok (select_remaining_class draw counts (suc n) r) _ h in
      let (class, is_class, h₂) = or_err_then (nth i classes) generation_failed _ h₁ in
      let ((k, r₂), _, h₃) = bind-eq-ok (random_index draw (length class.alphabet) r₁) _ h₂ in
      let (c, drawn, h₄) = or_err_then (nth k class.alphabet) generation_failed _ h₃ in
      let ((rest, r₃), more, h₅) =
        bind-eq-ok (sample_password_characters draw n classes (decrement i counts) r₂) _ h₄ in
      let (left, has) = select-Left counts (suc n) r e in
      let fewer : sum (decrement i counts) ≡ n =
        omega (arith, sum-decrement i left counts has, total) in
      Drawn-cons n classes counts i left k c class rest has is_class drawn
        (sample-Covers n classes (decrement i counts) r₂ fewer more) (ok-injective h₅).0

  Meets-nth :
      {classes : List PasswordClass} {counts : List ℕ} (j : ℕ) {c : PasswordClass}
      → Meets classes counts
      → nth j classes ≡ some c
      → (m : ℕ) × (nth j counts ≡ some m) × (c.minimum ≤ m)
  unfolding nth
  Meets-nth j none_left e = cc
  Meets-nth zero {c} (and_then {c = d} {n} le rest) e =
      let same : d ≡ c = cc in (n, refl, subst {A = PasswordClass} (λ x. x.minimum ≤ n) same le)
  Meets-nth (suc j) (and_then le rest) e = Meets-nth j rest e

  -- A generated password has the requested length, which is from 22 to 128, and of every class of
  -- the parameters at least the minimum of characters, whatever the random source gives.
  pub generate_password-meets :
      (parameters : PasswordParameters) (r : R) {password : Bytes} {r' : R}
      → generate_password draw parameters r ≡ ok (password, r')
      → (size : ℕ) × (classes : List PasswordClass) × (resolve_password_parameters parameters
          ≡ ok (size, classes))
        × (length password ≡ size)
        × (22 ≤ size)
        × (size ≤ 128)
        × ((j : ℕ) (c : PasswordClass)
            → nth j classes ≡ some c
            → c.minimum ≤ number_in c.alphabet password)
  unfolding generate_password
  generate_password-meets parameters r h =
      let ((size, classes), e, h₁) = bind-eq-ok (resolve_password_parameters parameters) _ h in
      let (_, h₂) = guard_then (not (ltb (count classes size) (2 ^ 128))) invalid_parameters _ h₁ in
      let ((counts, r₁), e₂, h₃) = bind-eq-ok (sample_class_counts draw classes size r) _ h₂ in
      let (low, high, fits) = resolve_password_parameters-bounds parameters e in
      let (meets, total) = sample_class_counts-Meets draw classes size r fits e₂ in
      let (long, covers) = sample-Covers size classes counts r₁ total h₃ in
      (
        size,
        classes,
        e,
        long,
        low,
        high,
        λ j c is_class.
            let (m, has, le) = Meets-nth j meets is_class in
            omega (arith, le, covers j m c is_class has),
      )
