-- ===== src/Generate/Password/Strings.antt =====
-- Strings, the test whether they are accepted, and the number of those that are.
use vaultsmith.Base.{
  ℕ, zero, suc, ◌+◌, ◌*◌, ◌≡◌, inl, inr, refl, subst, Bool, true, false, not, ◌||◌, ◌&&◌, ◌==◌,
  ==_iff, arith, leb, List, [], ◌∷◌, ◌++◌, any, length, Bytes, if◌then◌else◌, Bool-cases,
}
use vaultsmith.Generate.Password.{PasswordClass}
use vaultsmith.Generate.Password.Characters.{number_in}

-- The characters of the classes.
unfoldable pub alphabet_of : List PasswordClass → Bytes
alphabet_of [] = []
alphabet_of (c ∷ cs) = c.alphabet ++ alphabet_of cs

-- Whether a string has as many characters of each class as the class needs.
unfoldable pub accepted : List PasswordClass → Bytes → Bool
accepted [] word = true
accepted (c ∷ cs) word = leb c.minimum (number_in c.alphabet word) && accepted cs word

unfoldable pub sum_over : (ℕ → ℕ) → Bytes → ℕ
sum_over f [] = 0
sum_over f (c ∷ s) = f c + sum_over f s

-- The number of strings of `n` characters of an alphabet that pass a test.
unfoldable pub number_of : (Bytes → Bool) → Bytes → ℕ → ℕ
number_of test alphabet zero = if test [] then 1 else 0
number_of test alphabet (suc n) =
    sum_over (λ c. number_of (λ word. test (c ∷ word)) alphabet n) alphabet

abbrev pub has : ℕ → Bytes → Bool
has c = any (λ a. a == c)

-- No character is there twice.
unfoldable pub distinct : Bytes → Bool
distinct [] = true
distinct (c ∷ s) = not (has c s) && distinct s

pub has-append : (c : ℕ) (s t : Bytes) → has c (s ++ t) ≡ (has c s || has c t)
has-append c [] t = refl
has-append c (a ∷ s) t = let rest = has-append c s t in ground arith

pub has_later : (c : ℕ) (s t : Bytes) → distinct (s ++ t) ≡ true → has c s ≡ true → has c t ≡ false
unfolding distinct
has_later c [] t h k = cc
has_later c (a ∷ s) t h k =
    let both = has-append a s t in
    elim (Bool-cases (a == c)) [
      | inl e ↦
          let same : a ≡ c = (==_iff a c).0 e in
          let free : has a t ≡ false = ground arith in subst (λ x. has x t ≡ false) same free
      | inr e ↦ has_later c s t (ground arith) (rw e at k)
    ]

pub has_earlier :
    (c : ℕ) (s t : Bytes) → distinct (s ++ t) ≡ true → has c t ≡ true → has c s ≡ false
has_earlier c s t h k = elim (Bool-cases (has c s)) [
  | inl e ↦ cc (has_later c s t h e, k)
  | inr e ↦ e
]

pub sum_over-ext : (f g : ℕ → ℕ) (s : Bytes) → ((c : ℕ) → f c ≡ g c) → sum_over f s ≡ sum_over g s
unfolding sum_over
sum_over-ext f g [] h = refl
sum_over-ext f g (c ∷ s) h = omega (arith, h c, sum_over-ext f g s h)

pub sum_over-append : (f : ℕ → ℕ) (s t : Bytes) → sum_over f (s ++ t) ≡ sum_over f s + sum_over f t
unfolding sum_over
sum_over-append f [] t = omega arith
sum_over-append f (c ∷ s) t = omega (arith, sum_over-append f s t)

pub sum_over-constant :
    (f : ℕ → ℕ) (v : ℕ) (s : Bytes)
    → ((c : ℕ) → has c s ≡ true → f c ≡ v)
    → sum_over f s ≡ length s * v
unfolding sum_over
sum_over-constant f v [] h = omega arith
sum_over-constant f v (c ∷ s) h =
    let self : (c == c) ≡ true = (==_iff c c).1 refl in
    omega (arith, h c (rw self refl), sum_over-constant f v s (λ x k. h x (ground arith)))

pub number_of-ext :
    (t u : Bytes → Bool) (alphabet : Bytes) (n : ℕ)
    → ((word : Bytes) → t word ≡ u word)
    → number_of t alphabet n ≡ number_of u alphabet n
unfolding number_of
number_of-ext t u alphabet zero h = rw (h []) refl
number_of-ext t u alphabet (suc n) h = sum_over-ext _ _ alphabet λ c.
    number_of-ext (λ word. t (c ∷ word)) (λ word. u (c ∷ word)) alphabet n (λ word. h (c ∷ word))

pub distinct-behind : (s t : Bytes) → distinct (s ++ t) ≡ true → distinct t ≡ true
unfolding distinct
distinct-behind [] t h = h
distinct-behind (a ∷ s) t h = distinct-behind s t (ground arith)
