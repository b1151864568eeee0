-- ===== src/Generate/Examples.antt =====
-- Tests of the password generator, and its theorems at concrete inputs.
use vaultsmith.Base.{
  pos, negsuc, ℕ, suc, ◌-◌, ◌<◌, ◌^◌, ◌≤◌, ◌≡◌, ◌↔◌, refl, arith, false, List, [], ◌∷◌, codes,
  Bytes, length, Option, none, some, ok, err,
}
use vaultsmith.Generate.Password.{
  invalid_parameters, PasswordParameters, PasswordClass, within_range, resolve_password_parameters,
  binomial, suffix_minimum, sum_weights, count, count_weight, rank_loop, class_count_for_rank, nth,
  decrement, only_non_empty, choose, random_index, sample_class_counts, select_remaining_class,
  sample_password_characters, generate_password,
}
use vaultsmith.Generate.Password.Ranks.{Selects, class_count_for_rank_iff}
use vaultsmith.Generate.Password.Counts.{Meets, sum, sample_class_counts-Meets}
use vaultsmith.Generate.Password.Characters.{number_in, generate_password-meets}
use vaultsmith.Generate.Password.Success.{IsRandom}
use vaultsmith.Generate.Password.Strings.{alphabet_of, accepted, sum_over, number_of}
use vaultsmith.Generate.Password.Full.{generate_password_iff}

abbrev digits_class : PasswordClass
digits_class = record { alphabet = codes "01"; minimum = 1 }

abbrev letters_class : PasswordClass
letters_class = record { alphabet = codes "abc"; minimum = 1 }

-- A source that gives the greatest value, and counts its draws.
abbrev greatest : ℕ → ℕ → Option (ℕ × ℕ)
greatest limit drawn = some (limit - 1, suc drawn)

-- Opens the generator for the tests below.
generator : Unit {0}
unfolding within_range resolve_password_parameters binomial suffix_minimum sum_weights count
    count_weight rank_loop class_count_for_rank nth decrement only_non_empty choose random_index
    sample_class_counts select_remaining_class sample_password_characters generate_password
generator = tt

-- Three characters of two digits and three letters with one of each: 5^3 - 2^3 - 3^3.
counted : count (digits_class ∷ letters_class ∷ []) 3 ≡ 90
unfolding generator
counted = refl

sampled : sample_class_counts greatest (digits_class ∷ letters_class ∷ []) 3 0 ≡ ok (2 ∷ 1 ∷ [], 1)
unfolding generator
sampled = refl

-- Lowercase letters alone: 28 of them give 2^128 strings.
abbrev letters_only : PasswordParameters
letters_only = record {
  length = some (pos 28);
  lowercase = none;
  uppercase = some false;
  digits = some false;
  symbols = none;
  exclude_ambiguous = none;
  min_lowercase = none;
  min_uppercase = none;
  min_digits = none;
  min_symbols = none;
}

abbrev last_letters : Bytes
last_letters = codes "zzzzzzzzzzzzzzzzzzzzzzzzzzzz"

generated : generate_password greatest letters_only 0 ≡ ok (last_letters, 28)
unfolding generator
generated = refl

negative_refused :
    generate_password greatest (record letters_only { min_lowercase = some (negsuc 0) }) 0
    ≡ err invalid_parameters
unfolding generator
negative_refused = refl

class_count_for_rank_iff_example :
    ((m : ℕ)
      → (class_count_for_rank digits_class (letters_class ∷ []) 3 60 ≡ some m) ↔ (
          (60 < count (digits_class ∷ letters_class ∷ []) 3)
          × Selects digits_class (letters_class ∷ []) 3 60 m))
    × (60 < count (digits_class ∷ letters_class ∷ []) 3
        → (m : ℕ) × (class_count_for_rank digits_class (letters_class ∷ []) 3 60 ≡ some m))
class_count_for_rank_iff_example = class_count_for_rank_iff digits_class (letters_class ∷ []) 3 60

sample_class_counts-Meets_example :
    Meets (digits_class ∷ letters_class ∷ []) (2 ∷ 1 ∷ []) × (sum (2 ∷ 1 ∷ []) ≡ 3)
unfolding generator
sample_class_counts-Meets_example =
    sample_class_counts-Meets greatest (digits_class ∷ letters_class ∷ []) 3 0 (omega arith) sampled

generate_password-meets_example :
    (size : ℕ) × (classes : List PasswordClass) × (resolve_password_parameters letters_only
      ≡ ok (size, classes))
    × (length last_letters ≡ size)
    × (22 ≤ size)
    × (size ≤ 128)
    × ((j : ℕ) (c : PasswordClass)
        → nth j classes ≡ some c
        → c.minimum ≤ number_in c.alphabet last_letters)
generate_password-meets_example = generate_password-meets greatest letters_only 0 generated

greatest-IsRandom : IsRandom greatest
greatest-IsRandom n r h = (n - 1, suc r, refl, omega (arith, h))

abbrev few_classes : List PasswordClass
few_classes =
    record { alphabet = codes "0"; minimum = 1 }
    ∷ record { alphabet = codes "ab"; minimum = 0 }
    ∷ []

generate_password_iff_example :
    ((password : Bytes) × (next : ℕ) × (generate_password greatest letters_only 0
        ≡ ok (password, next)))
    ↔ ((size : ℕ) × (classes : List PasswordClass) × (resolve_password_parameters letters_only
          ≡ ok (size, classes))
        × (2 ^ 128 ≤ number_of (accepted classes) (alphabet_of classes) size))
generate_password_iff_example = generate_password_iff greatest greatest-IsRandom letters_only 0

-- Strings of three characters, of which one at least is a digit.
three_characters : number_of (accepted few_classes) (alphabet_of few_classes) 3 ≡ 19
unfolding number_of sum_over accepted alphabet_of number_in
three_characters = refl
