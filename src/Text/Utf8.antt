-- ===== src/Text/Utf8.antt =====
-- `utf8.Valid`, as the automaton over the bytes.
use vaultsmith.Base.{
  ℕ, zero, suc, ◌<◌, ◌≡◌, refl, Bool, true, false, ◌&&◌, [], ◌∷◌, ◌++◌, arith, ltb, ◌==◌, within,
  if◌then◌else◌, Bytes, All, ap, ◌∙◌, Bool-cases, inl, inr, ==_iff,
}
use vaultsmith.Text.Cut.{replace_crlf, trim_newline}

-- Before a character; inside one, with the count of bytes after the next and the range of the
-- next; or past an invalid byte.
pub data Utf8State : Type 0 where
  start : Utf8State
  inside : ℕ → ℕ → ℕ → Utf8State
  bad : Utf8State

abbrev after : ℕ → Utf8State
after zero = start
after (suc n) = inside n 0x80 0xbf

unfoldable pub lead : ℕ → Utf8State
lead c =
    if ltb c 0x80
    then start
    else if within 0xc2 0xdf c
    then inside 0 0x80 0xbf
    else if c == 0xe0
    then inside 1 0xa0 0xbf
    else if c == 0xed
    then inside 1 0x80 0x9f
    else if within 0xe1 0xef c
    then inside 1 0x80 0xbf
    else if c == 0xf0
    then inside 2 0x90 0xbf
    else if within 0xf1 0xf3 c
    then inside 2 0x80 0xbf
    else if c == 0xf4
    then inside 2 0x80 0x8f
    else bad

unfoldable pub step : Utf8State → ℕ → Utf8State
unfolding lead
step start c = lead c
step (inside n lo hi) c = if within lo hi c then after n else bad
step bad c = bad

accepts : Utf8State → Bool
accepts start = true
accepts _ = false

run : Utf8State → Bytes → Bool
run s [] = accepts s
run s (c ∷ cs) = run (step s c) cs

unfoldable pub valid : Bytes → Bool
unfolding run step accepts
valid = run start

-- A byte below 0x80 is a character by itself, and stands in no other.
abbrev pub AreAscii : Bytes → Type 0
AreAscii = All (λ c. c < 0x80)

step_ascii : (c : ℕ) → c < 0x80 → step start c ≡ start
unfolding step
step_ascii c h = ground arith

-- The bytes inside a character are above 0x7f.
abbrev IsProper : Utf8State → Type 0
IsProper (inside n lo hi) = 0x7f < lo
IsProper _ = Unit

after-IsProper : (n : ℕ) → IsProper (after n)
after-IsProper zero = tt
after-IsProper (suc n) = omega arith

lead-IsProper : (c : ℕ) → IsProper (lead c)
unfolding lead
lead-IsProper c = ground arith

step-IsProper : (s : Utf8State) (c : ℕ) → IsProper s → IsProper (step s c)
unfolding step
step-IsProper start c h = lead-IsProper c
step-IsProper (inside n lo hi) c h = elim (Bool-cases (within lo hi c)) [
  | inl e ↦ rw e (after-IsProper n)
  | inr e ↦ rw e tt
]
step-IsProper bad c h = tt

run_bad : (s : Bytes) → run bad s ≡ false
unfolding run step accepts
run_bad [] = refl
run_bad (c ∷ s) = run_bad s

outside : (n lo hi c : ℕ) → 0x7f < lo → c < 0x80 → step (inside n lo hi) c ≡ bad
unfolding step
outside n lo hi c h small = ground arith

-- An ASCII byte is accepted before a character only.
ascii_start :
    (s : Utf8State) (c : ℕ) (t : Bytes) → IsProper s → c < 0x80 → run s (c ∷ t) ≡ true → s ≡ start
unfolding run
ascii_start start c t proper small h = refl
ascii_start (inside n lo hi) c t proper small h =
    cc (rw (outside n lo hi c proper small, run_bad t) at h)
ascii_start bad c t proper small h = cc (run_bad (c ∷ t), h)

run-ascii : (c : ℕ) (t : Bytes) → c < 0x80 → run start (c ∷ t) ≡ run start t
unfolding run
run-ascii c t small = ap (λ s. run s t) (step_ascii c small)

run-append : (s : Utf8State) (a b : Bytes) → run s a ≡ true → run s (a ++ b) ≡ run start b
unfolding run accepts
run-append start [] b h = refl
run-append (inside n lo hi) [] b h = cc
run-append bad [] b h = cc
run-append s (c ∷ a) b h = run-append (step s c) a b h

run-before :
    (s : Utf8State) (a : Bytes) (c : ℕ) (b : Bytes)
    → IsProper s
    → c < 0x80
    → run s (a ++ (c ∷ b)) ≡ true
    → run s a ≡ true
unfolding run accepts
run-before s [] c b proper small h = rw (ascii_start s c b proper small h)
run-before s (d ∷ a) c b proper small h =
    run-before (step s d) a c b (step-IsProper s d proper) small h

run-replace_crlf :
    (s : Utf8State) (t : Bytes) → IsProper s → run s t ≡ true → run s (replace_crlf t) ≡ true
unfolding run replace_crlf
run-replace_crlf s [] proper h = h
run-replace_crlf s (c ∷ []) proper h = h
run-replace_crlf s (c ∷ d ∷ t) proper h = elim (Bool-cases (c == b'\r' && d == b'\n')) [
  | inl pair ↦
      let is_cr : c ≡ b'\r' = ground arith in
      let small : c < 0x80 = omega arith in
      let at_start = ascii_start s c (d ∷ t) proper small h in
      let ih = run-replace_crlf start (d ∷ t) tt (rw (at_start, run-ascii c (d ∷ t) small) at h) in
      rw (pair, at_start) ih
  | inr other ↦ rw other (run-replace_crlf (step s c) (d ∷ t) (step-IsProper s c proper) h)
]

run-trim_newline :
    (s : Utf8State) (t : Bytes) → IsProper s → run s t ≡ true → run s (trim_newline t) ≡ true
unfolding run trim_newline accepts
run-trim_newline s [] proper h = h
run-trim_newline s (c ∷ []) proper h = elim (Bool-cases (c == b'\n')) [
  | inl e ↦
      let at_start = ascii_start s c [] proper (omega (arith, (==_iff c b'\n').0 e)) h in
      rw (e, at_start) refl
  | inr e ↦ rw e h
]
run-trim_newline s (c ∷ d ∷ t) proper h =
    run-trim_newline (step s c) (d ∷ t) (step-IsProper s c proper) h

pub valid-ascii : (s : Bytes) → AreAscii s → valid s ≡ true
unfolding valid
valid-ascii [] h = refl
valid-ascii (c ∷ s) h = run-ascii c s h.0 ∙ valid-ascii s h.1

-- What stands before an ASCII byte in a valid text is valid.
pub valid-before :
    (a : Bytes) (c : ℕ) (b : Bytes) → c < 0x80 → valid (a ++ (c ∷ b)) ≡ true → valid a ≡ true
unfolding valid
valid-before a c b small h = run-before start a c b tt small h

pub valid-append : (a b : Bytes) → valid a ≡ true → valid b ≡ true → valid (a ++ b) ≡ true
unfolding valid
valid-append a b h k = run-append start a b h ∙ k

pub valid-replace_crlf : (t : Bytes) → valid t ≡ true → valid (replace_crlf t) ≡ true
unfolding valid
valid-replace_crlf t h = run-replace_crlf start t tt h

pub valid-trim_newline : (t : Bytes) → valid t ≡ true → valid (trim_newline t) ≡ true
unfolding valid
valid-trim_newline t h = run-trim_newline start t tt h
