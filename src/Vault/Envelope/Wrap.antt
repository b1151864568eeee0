-- ===== src/Vault/Envelope/Wrap.antt =====
-- Breaking the body into lines and collecting them again.
use vaultsmith.Base.{
  ℕ, zero, suc, ◌≤◌, ◌<◌, ◌≡◌, ◌≢◌, refl, ap, ◌∙◌, true, false, some, List, [], ◌∷◌, ◌++◌, arith,
  ltb, ltb→lt, not-ltb→le, is_empty, Bytes, append-nil, All, All-take, All-drop, length, take, drop,
  length-take, length-drop, take-append-drop, inl, inr, Bool-cases, Option-cases, All-append,
}
use vaultsmith.Text.Cut.{Free, split, split-append, split-Free}
use vaultsmith.Text.Hex
use vaultsmith.Vault.Envelope.{wrap, collect, is_hex, line_width}

-- Every byte is a hexadecimal digit.
abbrev pub AreHex : Bytes → Type 0
AreHex = All (λ c. Hex.is_digit c ≡ true)

pub is_hex-of_AreHex : (s : Bytes) → AreHex s → is_hex s ≡ true
unfolding is_hex
is_hex-of_AreHex [] h = refl
is_hex-of_AreHex (c ∷ s) h = ground (arith, is_hex-of_AreHex s h.1)

pub AreHex-of_is_hex : (s : Bytes) → is_hex s ≡ true → AreHex s
unfolding is_hex
AreHex-of_is_hex [] h = tt
AreHex-of_is_hex (c ∷ s) h = (ground arith, AreHex-of_is_hex s (ground arith))

-- A digit is no line break.
pub Free-of_AreHex : (b : ℕ) (s : Bytes) → b < b'0' → AreHex s → Free b s
unfolding Hex.is_digit
Free-of_AreHex b [] small h = tt
Free-of_AreHex b (c ∷ s) small h = (ground (arith, h.0), Free-of_AreHex b s small h.1)

is_empty-take : (s : Bytes) → s ≢ [] → is_empty (take line_width s) ≡ false
is_empty-take [] h = absurd (h refl)
is_empty-take (c ∷ s) h = refl

nonempty-drop : (s : Bytes) → line_width < length s → drop line_width s ≢ []
nonempty-drop s h e = omega (arith, ap length e, length-drop line_width s)

-- One line in front of lines that collect to `rest`.
collect-cons :
    (line : Bytes) (lines : List Bytes) (rest : Bytes)
    → is_empty line ≡ false
    → length line ≤ line_width
    → AreHex line
    → collect lines ≡ some rest
    → collect (line ∷ lines) ≡ some (line ++ rest)
unfolding collect
collect-cons line lines rest ne fits hex e = ground (arith, is_hex-of_AreHex line hex)

is_empty-ne : (s : Bytes) → s ≢ [] → is_empty s ≡ false
is_empty-ne [] h = absurd (h refl)
is_empty-ne (c ∷ s) h = refl

collect-nil : collect [] ≡ some []
unfolding collect
collect-nil = refl

-- A body that fits on one line.
collect-line :
    (s : Bytes) → AreHex s → s ≢ [] → length s ≤ line_width → collect (split b'\n' s) ≡ some s
collect-line s hex ne fits =
    rw (split-Free b'\n' s (Free-of_AreHex b'\n' s (omega arith) hex))
      (collect-cons s [] [] (is_empty-ne s ne) fits hex collect-nil ∙ ap some (append-nil s))

-- A full line, a line break and more lines.
collect-break :
    (s more : Bytes) (rest : Bytes)
    → AreHex s
    → s ≢ []
    → collect (split b'\n' more) ≡ some rest
    → collect (split b'\n' (take line_width s ++ (b'\n' ∷ more))) ≡ some (take line_width s ++ rest)
collect-break s more rest hex ne e =
    let line = take line_width s in
    let line_hex = All-take (λ c. Hex.is_digit c ≡ true) line_width s hex in
    rw (split-append b'\n' line more (Free-of_AreHex b'\n' line (omega arith) line_hex)) (
      collect-cons line (split b'\n' more) rest (is_empty-take s ne)
        (omega (arith, length-take line_width s)) line_hex e)

-- The lines of a wrapped body make up the body, whenever the fuel reaches its length.
pub collect-wrap :
    (fuel : ℕ) (body : Bytes)
    → length body ≤ fuel
    → AreHex body
    → body ≢ []
    → collect (split b'\n' (wrap fuel body)) ≡ some body
unfolding wrap
collect-wrap zero [] h hex ne = absurd (ne refl)
collect-wrap zero (c ∷ s) h hex ne = absurd (omega arith)
collect-wrap (suc fuel) body h hex ne = elim (Bool-cases (ltb line_width (length body))) [
  | inl long ↦
      let more = drop line_width body in
      let longer = ltb→lt line_width (length body) long in
      let ih =
        collect-wrap fuel more (omega (arith, longer, length-drop line_width body))
          (All-drop (λ c. Hex.is_digit c ≡ true) line_width body hex) (nonempty-drop body longer) in
      rw long (
        collect-break body (wrap fuel more) more hex ne ih
        ∙ ap some (take-append-drop line_width body))
  | inr short ↦ rw short (collect-line body hex ne (not-ltb→le line_width (length body) short))
]

-- Conversely, lines that are accepted hold hexadecimal digits alone, at least one.
pub collect-AreHex : (lines : List Bytes) {body : Bytes} → collect lines ≡ some body → AreHex body
unfolding collect
collect-AreHex [] h = ground arith
collect-AreHex (line ∷ lines) h = elim (Option-cases (collect lines)) [
  | inl e ↦ ground arith
  | inr (rest, e) ↦ elim (Bool-cases (is_hex line)) [
    | inl hex ↦
        let all =
          All-append (λ c. Hex.is_digit c ≡ true) line rest (AreHex-of_is_hex line hex)
            (collect-AreHex lines e) in
        ground (arith, all)
    | inr other ↦ ground arith
  ]
]
