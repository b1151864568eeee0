-- ===== src/Generate/Password/Recurrence.antt =====
-- The count by the first character of a string.
use vaultsmith.Base.{
  ℕ, suc, ◌+◌, ◌-◌, ◌*◌, ◌^◌, ◌<◌, ◌≡◌, refl, sym, ap, ◌∙◌, arith, List, [], ◌∷◌, length,
}
use vaultsmith.Generate.Password.{
  PasswordClass, binomial, suffix_minimum, rounds, sum_weights, count,
}
use vaultsmith.Generate.Password.Sums.{
  sum-ext, sum-zero, sum-add, sum-scale, sum-split, chosen, chosen-suc,
}

-- The same class, with one character fewer that it needs.
unfoldable pub lower : PasswordClass → PasswordClass
lower c = record c { minimum = c.minimum - 1 }

-- For each of the classes, the number of its characters times what `f` gives when the class is
-- lowered.
unfoldable pub sum_classes : (List PasswordClass → ℕ) → List PasswordClass → ℕ
sum_classes f [] = 0
sum_classes f (c ∷ cs) = length c.alphabet * f (lower c ∷ cs) + sum_classes (λ ds. f (c ∷ ds)) cs

pub sum_classes-ext :
    (f g : List PasswordClass → ℕ) (cs : List PasswordClass)
    → ((ds : List PasswordClass) → f ds ≡ g ds)
    → sum_classes f cs ≡ sum_classes g cs
unfolding sum_classes
sum_classes-ext f g [] h = refl
sum_classes-ext f g (c ∷ cs) h =
    let rest = sum_classes-ext (λ ds. f (c ∷ ds)) (λ ds. g (c ∷ ds)) cs (λ ds. h (c ∷ ds)) in
    let first = ap (λ x. length c.alphabet * x) (h (lower c ∷ cs)) in omega (arith, rest, first)

chosen-ext :
    (a : ℕ) (f g : ℕ → ℕ) (m n : ℕ) → ((r : ℕ) → f r ≡ g r) → chosen a f m n ≡ chosen a g m n
unfolding chosen
chosen-ext a f g m n h =
    sum-ext _ _ m (suc n - m) λ k _ _. ap (λ x. binomial n k * a ^ k * x) (h (n - k))

chosen-zero : (a m n : ℕ) → chosen a (λ _. 0) m n ≡ 0
unfolding chosen
chosen-zero a m n = sum-ext _ (λ _. 0) m (suc n - m) (λ k _ _. omega arith) ∙ sum-zero m (suc n - m)

chosen-linear :
    (a x : ℕ) (f g : ℕ → ℕ) (m n : ℕ)
    → chosen a (λ r. x * f r + g r) m n ≡ x * chosen a f m n + chosen a g m n
unfolding chosen
chosen-linear a x f g m n =
    let u : ℕ → ℕ = λ k. binomial n k * a ^ k * f (n - k) in
    let v : ℕ → ℕ = λ k. binomial n k * a ^ k * g (n - k) in
    sum-ext _ (λ k. x * u k + v k) m (suc n - m) (λ k _ _. omega arith)
    ∙ sum-add (λ k. x * u k) v m (suc n - m)
    ∙ ap (λ y. y + sum_weights v m (suc n - m)) (sum-scale x u m (suc n - m))

chosen-classes :
    (a m n : ℕ) (f : List PasswordClass → ℕ → ℕ) (cs : List PasswordClass)
    → chosen a (λ r. sum_classes (λ ds. f ds r) cs) m n ≡ sum_classes (λ ds. chosen a (f ds) m n) cs
unfolding sum_classes
chosen-classes a m n f [] = chosen-zero a m n
chosen-classes a m n f (c ∷ cs) =
    chosen-linear a (length c.alphabet) (f (lower c ∷ cs))
      (λ r. sum_classes (λ ds. f (c ∷ ds) r) cs) m n
    ∙ ap (λ y. length c.alphabet * chosen a (f (lower c ∷ cs)) m n + y)
        (chosen-classes a m n (λ ds. f (c ∷ ds)) cs)

count-few : (cs : List PasswordClass) (n : ℕ) → n < suffix_minimum cs → count cs n ≡ 0
unfolding count suffix_minimum sum_weights
count-few [] n h = absurd (omega (arith, h))
count-few (c ∷ cs) n h = let none_left : rounds c cs n ≡ 0 = omega (arith, h) in rw none_left refl

-- The rounds that the loop leaves out add nothing.
pub count-chosen :
    (c : PasswordClass) (cs : List PasswordClass) (n : ℕ)
    → count (c ∷ cs) n ≡ chosen (length c.alphabet) (count cs) c.minimum n
unfolding count chosen
count-chosen c cs n =
    let w : ℕ → ℕ = λ k. binomial n k * length c.alphabet ^ k * count cs (n - k) in
    let m = c.minimum in
    let more = (suc n - m) - rounds c cs n in
    let e : suc n - m ≡ rounds c cs n + more = omega arith in
    let nothing : sum_weights w (m + rounds c cs n) more ≡ 0 =
      sum-ext w (λ _. 0) (m + rounds c cs n) more
        (λ k le less.
          ap (λ x. binomial n k * length c.alphabet ^ k * x)
            (count-few cs (n - k) (omega (arith, le, less)))
          ∙ omega arith)
      ∙ sum-zero (m + rounds c cs n) more in
    sym (ap (sum_weights w m) e ∙ sum-split w m (rounds c cs n) more ∙ omega (arith, nothing))

-- The strings of one character more, by the class of the first.
pub count-suc :
    (cs : List PasswordClass) (n : ℕ) → count cs (suc n) ≡ sum_classes (λ ds. count ds n) cs
unfolding sum_classes lower count
count-suc [] n = refl
count-suc (c ∷ cs) n =
    let a = length c.alphabet in
    let first : a * chosen a (count cs) (c.minimum - 1) n ≡ a * count (lower c ∷ cs) n =
      ap (λ x. a * x) (sym (count-chosen (lower c) cs n)) in
    let others : chosen a (λ r. count cs (suc r)) c.minimum n
        ≡ sum_classes (λ ds. count (c ∷ ds) n) cs =
      chosen-ext a _ (λ r. sum_classes (λ ds. count ds r) cs) c.minimum n (count-suc cs)
      ∙ chosen-classes a c.minimum n count cs
      ∙ sum_classes-ext _ (λ ds. count (c ∷ ds) n) cs (λ ds. sym (count-chosen c ds n)) in
    count-chosen c cs (suc n) ∙ chosen-suc a (count cs) c.minimum n ∙ omega (arith, first, others)
