-- ===== src/Text/Cut.antt =====
-- Searching and splitting at one byte: `strings.Cut`, `Split`, `SplitN`, `ContainsRune`.
use vaultsmith.Base.{
  ℕ, zero, suc, ◌≡◌, ◌≢◌, refl, ap, Bool, false, ◌||◌, ◌&&◌, Option, none, some, List, [], ◌∷◌,
  ◌++◌, arith, ◌==◌, if◌then◌else◌, Bytes, All, inl, inr, Bool-cases, Option-cases,
}

unfoldable pub contains : ℕ → Bytes → Bool
contains b [] = false
contains b (c ∷ s) = c == b || contains b s

-- The byte does not occur.
abbrev pub Free : ℕ → Bytes → Type 0
Free b = All (λ c. c ≢ b)

pub Free-of-contains : (b : ℕ) (s : Bytes) → contains b s ≡ false → Free b s
unfolding contains
Free-of-contains b [] h = tt
Free-of-contains b (c ∷ s) h = (ground arith, Free-of-contains b s (ground arith))

pub contains-of-Free : (b : ℕ) (s : Bytes) → Free b s → contains b s ≡ false
unfolding contains
contains-of-Free b [] h = refl
contains-of-Free b (c ∷ s) h = ground (arith, contains-of-Free b s h.1)

abbrev before : ℕ → Option (Bytes × Bytes) → Option (Bytes × Bytes)
before c none = none
before c (some (s, r)) = some (c ∷ s, r)

-- `strings.Cut(s, sep)` for a separator of one byte; `none` where it is not found.
unfoldable pub cut : ℕ → Bytes → Option (Bytes × Bytes)
cut b [] = none
cut b (c ∷ s) = if c == b then some ([], s) else before c (cut b s)

pub cut-append : (b : ℕ) (s r : Bytes) → Free b s → cut b (s ++ (b ∷ r)) ≡ some (s, r)
unfolding cut
cut-append b [] r h = ground arith
cut-append b (c ∷ s) r h = ground (arith, cut-append b s r h.1)

pub cut-none : (b : ℕ) (s : Bytes) → Free b s → cut b s ≡ none
unfolding cut
cut-none b [] h = refl
cut-none b (c ∷ s) h = ground (arith, cut-none b s h.1)

-- What `cut` found is the text before the first separator and the text after it.
pub cut-eq-some :
    (b : ℕ) (t : Bytes) {s r : Bytes} → cut b t ≡ some (s, r) → (t ≡ s ++ (b ∷ r)) × Free b s
unfolding cut
cut-eq-some b [] h = cc
cut-eq-some b (c ∷ t) {s} {r} h = elim (Bool-cases (c == b)) [
  | inl here ↦ ground arith
  | inr later ↦ elim (Option-cases (cut b t)) [
    | inl e ↦ cc (rw (later, e) at h)
    | inr ((s', r'), e) ↦ let rest = cut-eq-some b t e in ground (arith, rest)
  ]
]

abbrev pub onto_first : ℕ → List Bytes → List Bytes
onto_first c [] = (c ∷ []) ∷ []
onto_first c (p ∷ ps) = (c ∷ p) ∷ ps

-- `strings.Split(s, sep)` and `strings.SplitSeq`: never the empty list.
unfoldable pub split : ℕ → Bytes → List Bytes
split b [] = [] ∷ []
split b (c ∷ s) = let rest = split b s in if c == b then [] ∷ rest else onto_first c rest

pub split-append : (b : ℕ) (s r : Bytes) → Free b s → split b (s ++ (b ∷ r)) ≡ s ∷ split b r
unfolding split
split-append b [] r h = ground arith
split-append b (c ∷ s) r h = ground (arith, split-append b s r h.1)

pub split-Free : (b : ℕ) (s : Bytes) → Free b s → split b s ≡ s ∷ []
unfolding split
split-Free b [] h = refl
split-Free b (c ∷ s) h = ground (arith, split-Free b s h.1)

-- `strings.SplitN(s, sep, n)` for n > 0: at most n parts, the last with the separators left in it.
unfoldable pub split_n : ℕ → ℕ → Bytes → List Bytes
split_n zero b s = []
split_n (suc zero) b s = s ∷ []
split_n (suc (suc n)) b s = elim (cut b s) [
  | none ↦ s ∷ []
  | some (first, rest) ↦ first ∷ split_n (suc n) b rest
]

-- `strings.ReplaceAll(s, "\r\n", "\n")`
unfoldable pub replace_crlf : Bytes → Bytes
replace_crlf [] = []
replace_crlf (c ∷ []) = c ∷ []
replace_crlf (c ∷ d ∷ s) =
    let rest = replace_crlf (d ∷ s) in if c == b'\r' && d == b'\n' then rest else c ∷ rest

pub replace_crlf-Free : (s : Bytes) → Free b'\r' s → replace_crlf s ≡ s
unfolding replace_crlf
replace_crlf-Free [] h = refl
replace_crlf-Free (c ∷ []) h = refl
replace_crlf-Free (c ∷ d ∷ s) h = ground (arith, replace_crlf-Free (d ∷ s) h.1)

-- `strings.TrimSuffix(s, "\n")`
unfoldable pub trim_newline : Bytes → Bytes
trim_newline [] = []
trim_newline (c ∷ []) = if c == b'\n' then [] else c ∷ []
trim_newline (c ∷ d ∷ s) = c ∷ trim_newline (d ∷ s)

pub trim_newline-append : (s : Bytes) → trim_newline (s ++ (b'\n' ∷ [])) ≡ s
unfolding trim_newline
trim_newline-append [] = refl
trim_newline-append (c ∷ []) = refl
trim_newline-append (c ∷ d ∷ s) = ap (◌∷◌ c) (trim_newline-append (d ∷ s))
