-- ===== src/Generate/Password.antt =====
-- password.go: the parameters, the count of accepted strings, and the sampling of a password. The
-- random source is a state with one operation, `rand.Int` of crypto/rand.
pub mod Parameters
pub mod Ranks
pub mod Counts
pub mod Characters
pub mod Success
pub mod Sums
pub mod Recurrence
pub mod Strings
pub mod Accepted
pub mod Distinct
pub mod Full
use vaultsmith.Base.{
  ℤ, pos, negsuc, ℕ, zero, suc, ◌+◌, ◌-◌, ◌*◌, ◌^◌, ◌≡◌, ◌<◌, Bool, true, false, not, ◌||◌, ◌&&◌,
  ◌==◌, ltb, leb, List, [], ◌∷◌, any, length, codes, Bytes, is_empty, if◌then◌else◌, Option, none,
  some, Result, ok, err, ◌>>=◌, ◌>>◌, guard, or_err,
}

pub data GenerationError : Type 0 where
  invalid_parameters generation_failed : GenerationError

pub record PasswordParameters : Type 0 where
  pub length : Option ℤ
  pub lowercase : Option Bool
  pub uppercase : Option Bool
  pub digits : Option Bool
  pub symbols : Option Bool
  pub exclude_ambiguous : Option Bool
  pub min_lowercase : Option ℤ
  pub min_uppercase : Option ℤ
  pub min_digits : Option ℤ
  pub min_symbols : Option ℤ

pub record PasswordClass : Type 0 where
  pub alphabet : Bytes
  pub minimum : ℕ

record ClassDefinition : Type 0 where
  pub enabled : Bool
  pub minimum : ℤ
  pub alphabet : Bytes

abbrev or_default {ℓ} : {A : Type ℓ} → Option A → A → A
or_default none fallback = fallback
or_default (some value) fallback = value

minimum_or_default : Option ℤ → Bool → ℤ
minimum_or_default (some value) enabled = value
minimum_or_default none true = pos 1
minimum_or_default none false = pos 0

-- The value, if it is in the range.
unfoldable pub within_range : ℕ → ℕ → ℤ → Option ℕ
within_range low high (pos n) = if ltb n low || ltb high n then none else some n
within_range low high (negsuc n) = none

exclude_ambiguous : Bytes → Bytes
exclude_ambiguous [] = []
exclude_ambiguous (c ∷ s) =
    let rest = exclude_ambiguous s in if any (λ a. c == a) (codes "0O1lI|") then rest else c ∷ rest

-- The loop over the definitions, and the sum of the minima.
resolve_classes : Bool → List ClassDefinition → Result GenerationError (List PasswordClass × ℕ)
unfolding exclude_ambiguous within_range
resolve_classes exclude [] = ok ([], 0)
resolve_classes exclude (d ∷ ds) =
    let rest = resolve_classes exclude ds in
    let alphabet = if exclude then exclude_ambiguous d.alphabet else d.alphabet in
    do
      minimum ← or_err (within_range 0 32 d.minimum) invalid_parameters
      guard (d.enabled || minimum == 0) invalid_parameters
      guard (not (d.enabled && is_empty alphabet)) invalid_parameters
      (classes, total) ← rest
      ok (
          if d.enabled
          then (record { alphabet = alphabet; minimum = minimum } ∷ classes, minimum + total)
          else (classes, total))

definition : Option Bool → Bool → Option ℤ → Bytes → ClassDefinition
unfolding minimum_or_default
definition enabled fallback minimum alphabet = record {
  enabled = or_default enabled fallback;
  minimum = minimum_or_default minimum (or_default enabled fallback);
  alphabet = alphabet;
}

definitions : PasswordParameters → List ClassDefinition
unfolding definition
definitions p =
    definition p.lowercase true p.min_lowercase (codes "abcdefghijklmnopqrstuvwxyz")
    ∷ definition p.uppercase true p.min_uppercase (codes "ABCDEFGHIJKLMNOPQRSTUVWXYZ")
    ∷ definition p.digits true p.min_digits (codes "0123456789")
    ∷ definition p.symbols false p.min_symbols (codes "!#$%&()*+,-./:;<=>?@[]^_{|}~")
    ∷ []

-- The length and the classes of the effective parameters.
unfoldable pub resolve_password_parameters :
    PasswordParameters → Result GenerationError (ℕ × List PasswordClass)
unfolding resolve_classes definitions
resolve_password_parameters p = do
  size ← or_err (within_range 22 128 (or_default p.length (pos 32))) invalid_parameters
  (classes, total) ← resolve_classes (or_default p.exclude_ambiguous false) (definitions p)
  guard (not (is_empty classes || ltb size total)) invalid_parameters
  ok (size, classes)

-- `big.Int.Binomial`
unfoldable pub binomial : ℕ → ℕ → ℕ
binomial n zero = 1
binomial zero (suc k) = 0
binomial (suc n) (suc k) = binomial n k + binomial n (suc k)

-- `suffixMinimum` at the first of these classes.
unfoldable pub suffix_minimum : List PasswordClass → ℕ
suffix_minimum [] = 0
suffix_minimum (c ∷ cs) = c.minimum + suffix_minimum cs

-- The rounds of a loop from the minimum to `slots - suffixMinimum`, which may be none.
abbrev pub rounds : PasswordClass → List PasswordClass → ℕ → ℕ
rounds c cs slots = suc slots - (c.minimum + suffix_minimum cs)

unfoldable pub sum_weights : (ℕ → ℕ) → ℕ → ℕ → ℕ
sum_weights weight k zero = 0
sum_weights weight k (suc n) = weight k + sum_weights weight (suc k) n

-- The cache of the counts changes no result.
unfoldable pub count : List PasswordClass → ℕ → ℕ
count [] zero = 1
count [] (suc slots) = 0
count (c ∷ cs) slots =
    sum_weights (λ k. binomial slots k * length c.alphabet ^ k * count cs (slots - k)) c.minimum
      (rounds c cs slots)

unfoldable pub count_weight : PasswordClass → List PasswordClass → ℕ → ℕ → ℕ
count_weight c cs slots k = binomial slots k * length c.alphabet ^ k * count cs (slots - k)

unfoldable pub rank_loop : (ℕ → ℕ) → ℕ → ℕ → ℕ → Option ℕ
rank_loop weight k zero rank = none
rank_loop weight k (suc n) rank =
    let rest = rank_loop weight (suc k) n (rank - weight k) in
    if ltb rank (weight k) then some k else rest

unfoldable pub class_count_for_rank : PasswordClass → List PasswordClass → ℕ → ℕ → Option ℕ
class_count_for_rank c cs slots rank =
    if leb (count (c ∷ cs) slots) rank
    then none
    else rank_loop (count_weight c cs slots) c.minimum (rounds c cs slots) rank

unfoldable pub nth {ℓ} : {A : Type ℓ} → ℕ → List A → Option A
nth n [] = none
nth zero (x ∷ xs) = some x
nth (suc n) (x ∷ xs) = nth n xs

-- `remainingCounts[classIndex]--`
unfoldable pub decrement : ℕ → List ℕ → List ℕ
decrement n [] = []
decrement zero (x ∷ xs) = (x - 1) ∷ xs
decrement (suc n) (x ∷ xs) = x ∷ decrement n xs

-- The only class that has some left, if there is one such class alone.
unfoldable pub only_non_empty : ℕ → List ℕ → Option ℕ
only_non_empty i [] = none
only_non_empty i (zero ∷ counts) = only_non_empty (suc i) counts
only_non_empty i (suc n ∷ counts) = if any (λ m. not (m == 0)) counts then none else some i

unfoldable pub choose : ℕ → ℕ → List ℕ → Option ℕ
choose i choice [] = none
choose i choice (n ∷ counts) =
    let rest = choose (suc i) (choice - n) counts in if ltb choice n then some i else rest

module _ {R : Type 0} (draw : ℕ → R → Option (ℕ × R)) where
  unfoldable pub random_index : ℕ → R → Result GenerationError (ℕ × R)
  random_index zero r = err generation_failed
  random_index (suc zero) r = ok (0, r)
  random_index (suc (suc n)) r = or_err (draw (suc (suc n)) r) generation_failed

  unfoldable pub sample_class_counts :
      List PasswordClass → ℕ → R → Result GenerationError (List ℕ × R)
  sample_class_counts [] remaining r = err generation_failed
  sample_class_counts (c ∷ []) remaining r = ok (remaining ∷ [], r)
  sample_class_counts (c ∷ d ∷ cs) remaining r = do
    (selected, r₁) ← elim (c.minimum + suffix_minimum (d ∷ cs) == remaining) [
      | true ↦ ok (c.minimum, r)
      | false ↦ do
        (rank, r₁) ← or_err (draw (count (c ∷ d ∷ cs) remaining) r) generation_failed
        selected ← or_err (class_count_for_rank c (d ∷ cs) remaining rank) generation_failed
        ok (selected, r₁)
    ]
    (counts, r₂) ← sample_class_counts (d ∷ cs) (remaining - selected) r₁
    ok (selected ∷ counts, r₂)

  unfoldable pub select_remaining_class : List ℕ → ℕ → R → Result GenerationError (ℕ × R)
  select_remaining_class counts total r = elim (only_non_empty 0 counts) [
    | some i ↦ ok (i, r)
    | none ↦ do
      (choice, r₁) ← random_index total r
      i ← or_err (choose 0 choice counts) generation_failed
      ok (i, r₁)
  ]

  -- An index out of range would be a panic.
  unfoldable pub sample_password_characters :
      ℕ → List PasswordClass → List ℕ → R → Result GenerationError (Bytes × R)
  sample_password_characters zero classes counts r = ok ([], r)
  sample_password_characters (suc remaining) classes counts r = do
    (i, r₁) ← select_remaining_class counts (suc remaining) r
    class ← or_err (nth i classes) generation_failed
    (j, r₂) ← random_index (length class.alphabet) r₁
    character ← or_err (nth j class.alphabet) generation_failed
    (rest, r₃) ← sample_password_characters remaining classes (decrement i counts) r₂
    ok (character ∷ rest, r₃)

  -- The password, and the source behind it.
  unfoldable pub generate_password : PasswordParameters → R → Result GenerationError (Bytes × R)
  generate_password parameters r = do
    (size, classes) ← resolve_password_parameters parameters
    guard (not (ltb (count classes size) (2 ^ 128))) invalid_parameters
    (counts, r₁) ← sample_class_counts classes size r
    sample_password_characters size classes counts r₁
