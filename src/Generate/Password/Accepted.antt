-- ===== src/Generate/Password/Accepted.antt =====
-- The count is the number of accepted strings.
use vaultsmith.Base.{
  ℕ, zero, suc, ◌+◌, ◌-◌, ◌*◌, ◌^◌, ◌≡◌, refl, sym, ap, subst, ◌∙◌, true, false, ◌&&◌, arith, leb,
  List, [], ◌∷◌, ◌++◌, length, Bytes, if◌then◌else◌, append_assoc,
}
use native.Mathlib.Nat.{pow-zero}
use vaultsmith.Generate.Password.{PasswordClass, binomial, suffix_minimum, sum_weights, count}
use vaultsmith.Generate.Password.Characters.{number_in}
use vaultsmith.Generate.Password.Sums.{chosen}
use vaultsmith.Generate.Password.Strings.{
  alphabet_of, accepted, sum_over, number_of, has, distinct, has-append, has_later, has_earlier,
  sum_over-append, sum_over-constant, number_of-ext, distinct-behind,
}
use vaultsmith.Generate.Password.Recurrence.{
  lower, sum_classes, sum_classes-ext, count-chosen, count-suc,
}

accepted-append :
    (ps cs : List PasswordClass) (word : Bytes)
    → accepted (ps ++ cs) word ≡ (accepted ps word && accepted cs word)
unfolding accepted
accepted-append [] cs word = refl
accepted-append (p ∷ ps) cs word = let rest = accepted-append ps cs word in ground arith

alphabet_of-append :
    (ps cs : List PasswordClass) → alphabet_of (ps ++ cs) ≡ alphabet_of ps ++ alphabet_of cs
unfolding alphabet_of
alphabet_of-append [] cs = refl
alphabet_of-append (p ∷ ps) cs =
    ap (λ s. p.alphabet ++ s) (alphabet_of-append ps cs)
    ∙ sym (append_assoc p.alphabet (alphabet_of ps) (alphabet_of cs))

-- A character of no class is needed by none.
accepted-absent :
    (c : ℕ) (cs : List PasswordClass) (word : Bytes)
    → has c (alphabet_of cs) ≡ false
    → accepted cs (c ∷ word) ≡ accepted cs word
unfolding accepted alphabet_of number_in
accepted-absent c [] word h = refl
accepted-absent c (d ∷ cs) word h =
    let both = has-append c d.alphabet (alphabet_of cs) in
    let out : has c d.alphabet ≡ false = ground arith in
    let rest = accepted-absent c cs word (ground arith) in
    let less : (0 + number_in d.alphabet word) ≡ number_in d.alphabet word = omega arith in
    rw (out, less, rest) refl

accepted-present :
    (c : ℕ) (d : PasswordClass) (cs : List PasswordClass) (word : Bytes)
    → has c d.alphabet ≡ true
    → has c (alphabet_of cs) ≡ false
    → accepted (d ∷ cs) (c ∷ word) ≡ accepted (lower d ∷ cs) word
unfolding accepted lower number_in
accepted-present c d cs word inside out =
    let rest = accepted-absent c cs word out in
    let one : leb d.minimum (1 + number_in d.alphabet word)
        ≡ leb (d.minimum - 1) (number_in d.alphabet word) =
      ground arith in
    rw (inside, rest, one) refl

-- A character of one class is needed by that class only.
accepted-lower :
    (x : ℕ) (ps : List PasswordClass) (c : PasswordClass) (cs : List PasswordClass) (word : Bytes)
    → distinct (alphabet_of ps ++ (c.alphabet ++ alphabet_of cs)) ≡ true
    → has x c.alphabet ≡ true
    → accepted (ps ++ (c ∷ cs)) (x ∷ word) ≡ accepted (ps ++ (lower c ∷ cs)) word
accepted-lower x ps c cs word apart inside =
    let both = has-append x c.alphabet (alphabet_of cs) in
    let before : has x (alphabet_of ps) ≡ false =
      has_earlier x (alphabet_of ps) (c.alphabet ++ alphabet_of cs) apart (ground arith) in
    let behind : has x (alphabet_of cs) ≡ false =
      has_later x c.alphabet (alphabet_of cs)
        (distinct-behind (alphabet_of ps) (c.alphabet ++ alphabet_of cs) apart) inside in
    accepted-append ps (c ∷ cs) (x ∷ word)
    ∙ ap (λ b. b && accepted (c ∷ cs) (x ∷ word)) (accepted-absent x ps word before)
    ∙ ap (λ b. accepted ps word && b) (accepted-present x c cs word inside behind)
    ∙ sym (accepted-append ps (lower c ∷ cs) word)

module _ (alphabet : Bytes) (apart : distinct alphabet ≡ true) (n : ℕ)
    (shorter : (ds : List PasswordClass)
      → alphabet_of ds ≡ alphabet
      → number_of (accepted ds) alphabet n ≡ count ds n) where
  -- The strings that begin with a character of the classes `cs`, behind the classes `ps`.
  beginning :
      (ps cs : List PasswordClass)
      → alphabet_of ps ++ alphabet_of cs ≡ alphabet
      → sum_over
          (λ x. number_of (λ word. accepted (ps ++ cs) (x ∷ word)) alphabet n)
          (alphabet_of cs)
        ≡ sum_classes (λ ds. count (ps ++ ds) n) cs
  unfolding alphabet_of sum_over sum_classes lower
  beginning ps [] whole = refl
  beginning ps (c ∷ cs) whole =
      let others : sum_over f (alphabet_of cs) ≡ sum_classes (λ ds. count (ps ++ (c ∷ ds)) n) cs =
        ap
          (λ ks.
            sum_over (λ x. number_of (λ word. accepted ks (x ∷ word)) alphabet n) (alphabet_of cs))
          (sym (moved cs))
        ∙ beginning next cs still
        ∙ sum_classes-ext _ _ cs (λ ds. ap (λ ks. count ks n) (moved ds)) in
      sum_over-append f c.alphabet (alphabet_of cs) ∙ omega (arith, first, others)
    where
      f : ℕ → ℕ
      f x = number_of (λ word. accepted (ps ++ (c ∷ cs)) (x ∷ word)) alphabet n

      lowered : alphabet_of (ps ++ (lower c ∷ cs)) ≡ alphabet
      lowered = alphabet_of-append ps (lower c ∷ cs) ∙ whole

      first : sum_over f c.alphabet ≡ length c.alphabet * count (ps ++ (lower c ∷ cs)) n
      first = sum_over-constant f _ c.alphabet λ x inside.
          number_of-ext _ (accepted (ps ++ (lower c ∷ cs))) alphabet n (λ word.
            accepted-lower x ps c cs word (subst (λ s. distinct s ≡ true) (sym whole) apart) inside)
          ∙ shorter (ps ++ (lower c ∷ cs)) lowered

      next : List PasswordClass
      next = ps ++ (c ∷ [])

      moved : (ds : List PasswordClass) → next ++ ds ≡ ps ++ (c ∷ ds)
      moved ds = append_assoc ps (c ∷ []) ds

      still : alphabet_of next ++ alphabet_of cs ≡ alphabet
      still =
          sym (alphabet_of-append next cs)
          ∙ ap alphabet_of (moved cs)
          ∙ alphabet_of-append ps (c ∷ cs)
          ∙ whole

chosen-zero : (a : ℕ) (f : ℕ → ℕ) (m s : ℕ) → f 0 ≡ 1 - s → chosen a f m 0 ≡ 1 - (m + s)
unfolding chosen sum_weights binomial
chosen-zero a f zero s e =
    let one : sum_weights (λ k. binomial 0 k * a ^ k * f (0 - k)) 0 (suc 0 - 0)
        ≡ 1 * a ^ 0 * f 0 + 0 =
      refl in
    one ∙ ap (λ p. 1 * p * f 0 + 0) (pow-zero a) ∙ omega (arith, e)
chosen-zero a f (suc m) s e =
    let nothing : suc 0 - suc m ≡ 0 = omega arith in
    ap (sum_weights (λ k. binomial 0 k * a ^ k * f (0 - k)) (suc m)) nothing ∙ omega arith

count-zero : (cs : List PasswordClass) → count cs 0 ≡ 1 - suffix_minimum cs
unfolding count suffix_minimum
count-zero [] = refl
count-zero (c ∷ cs) =
    count-chosen c cs 0
    ∙ chosen-zero (length c.alphabet) (count cs) c.minimum (suffix_minimum cs) (count-zero cs)

number_of-zero :
    (cs : List PasswordClass) → (if accepted cs [] then 1 else 0) ≡ 1 - suffix_minimum cs
unfolding accepted suffix_minimum number_in
number_of-zero [] = refl
number_of-zero (c ∷ cs) = ground (arith, number_of-zero cs)

-- Where no character is in two classes, the count is the number of strings of the characters of
-- the classes that have as many of each class as it needs.
pub number_of-accepted :
    (n : ℕ) (cs : List PasswordClass)
    → distinct (alphabet_of cs) ≡ true
    → number_of (accepted cs) (alphabet_of cs) n ≡ count cs n
unfolding number_of alphabet_of
number_of-accepted zero cs apart = number_of-zero cs ∙ sym (count-zero cs)
number_of-accepted (suc n) cs apart =
    beginning (alphabet_of cs) apart n
      (λ ds e.
        subst (λ s. number_of (accepted ds) s n ≡ count ds n) e
          (number_of-accepted n ds (subst (λ s. distinct s ≡ true) (sym e) apart)))
      [] cs refl
    ∙ sym (count-suc cs n)
