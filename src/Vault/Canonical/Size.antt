-- ===== src/Vault/Canonical/Size.antt =====
-- How long a canonical text is.
use vaultsmith.Base.{
  ℕ, zero, suc, ◌+◌, ◌*◌, ◌≤◌, ◌<◌, ◌≡◌, ◌≢◌, refl, ap, ◌∙◌, some, List, [], ◌∷◌, ◌++◌, map, arith,
  ltb, ltb→lt, Bytes, length, length-append, length-take, length-drop, take, drop, ok, Bool-cases,
  Option-cases, inl, inr,
}
use vaultsmith.Text.Cut.{split, replace_crlf, trim_newline, onto_first}
use vaultsmith.Vault.Envelope.{serialize_vault_envelope, wrap, collect, line_width}
use vaultsmith.Vault.Envelope.Parse.{parse_envelope-Parsed}
use vaultsmith.Vault.Canonical.{lower, canonical_envelope}
use vaultsmith.Vault.Canonical.Stable.{canonical_envelope-Canonical}

-- The bytes of the parts and one separator less than there are parts.
sizes : List Bytes → ℕ
sizes [] = 0
sizes (p ∷ ps) = suc (length p) + sizes ps

sizes-onto_first :
    (c : ℕ) (ps : List Bytes) → 0 < sizes ps → sizes (onto_first c ps) ≡ suc (sizes ps)
unfolding sizes
sizes-onto_first c [] h = absurd (omega arith)
sizes-onto_first c (p ∷ ps) h = omega arith

sizes-split : (b : ℕ) (s : Bytes) → sizes (split b s) ≡ suc (length s)
unfolding sizes split
sizes-split b [] = refl
sizes-split b (c ∷ s) = ground (arith, sizes-split b s, sizes-onto_first c (split b s))

collect_head :
    (line : Bytes) (lines : List Bytes) {body : Bytes}
    → collect (line ∷ lines) ≡ some body
    → (rest : Bytes) × (collect lines ≡ some rest)
      × (length line ≤ line_width)
      × (body ≡ line ++ rest)
unfolding collect
collect_head line lines h = elim (Option-cases (collect lines)) [
  | inl e ↦ absurd (ground arith)
  | inr (rest, e) ↦ (rest, e, ground arith, ground arith)
]

-- A body of `n` lines has at most `80 n` bytes, and its text one byte more for each line.
collect-sizes :
    (lines : List Bytes) {body : Bytes}
    → collect lines ≡ some body
    → (length body ≤ 80 * length lines) × (sizes lines ≡ length body + length lines)
unfolding sizes
collect-sizes [] h = unfold collect in ground arith
collect-sizes (line ∷ lines) h =
    let (rest, e, fits, is_append) = collect_head line lines h in
    let ih = collect-sizes lines e in
    let size = ap length is_append ∙ length-append line rest in
    (omega (arith, size, ih, fits), omega (arith, size, ih))

-- The breaks that wrapping adds: fewer than one for each 80 bytes.
wrap_size :
    (fuel : ℕ) (s : Bytes)
    → s ≢ []
    → (breaks : ℕ) × (length (wrap fuel s) ≡ length s + breaks) × (80 * breaks < length s)
unfolding wrap
wrap_size zero [] ne = absurd (ne refl)
wrap_size zero (c ∷ s) ne = (0, omega arith, omega arith)
wrap_size (suc fuel) s ne = elim (Bool-cases (ltb line_width (length s))) [
  | inl long ↦
      let more = drop line_width s in
      let longer = ltb→lt line_width (length s) long in
      let left = length-drop line_width s in
      let (breaks, same, few) =
        wrap_size fuel more (λ e. omega (arith, ap length e, left, longer)) in
      let joined = length-append (take line_width s) (b'\n' ∷ wrap fuel more) in
      (
        suc breaks,
        rw long (omega (arith, joined, length-take line_width s, left, longer, same)),
        omega (arith, few, left, longer),
      )
  | inr short ↦ (0, rw short (omega arith), nonempty s ne)
]
  where
    nonempty : (t : Bytes) → t ≢ [] → 80 * 0 < length t
    nonempty [] h = absurd (h refl)
    nonempty (c ∷ t) h = omega arith

length-replace_crlf-le : (s : Bytes) → length (replace_crlf s) ≤ length s
unfolding replace_crlf
length-replace_crlf-le [] = omega arith
length-replace_crlf-le (c ∷ []) = omega arith
length-replace_crlf-le (c ∷ d ∷ s) = ground (arith, length-replace_crlf-le (d ∷ s))

length-trim_newline-le : (s : Bytes) → length (trim_newline s) ≤ length s
unfolding trim_newline
length-trim_newline-le [] = omega arith
length-trim_newline-le (c ∷ []) = ground arith
length-trim_newline-le (c ∷ d ∷ s) = omega (arith, length-trim_newline-le (d ∷ s))

length-map-lower : (s : Bytes) → length (map lower s) ≡ length s
length-map-lower [] = refl
length-map-lower (c ∷ s) = ap suc (length-map-lower s)

length-serialize :
    (h b : Bytes)
    → length (serialize_vault_envelope h b) ≡ length h + length (wrap (length b) b) + 2
unfolding serialize_vault_envelope
length-serialize h b = omega (
  arith,
  length-append h (b'\n' ∷ (wrap (length b) b ++ (b'\n' ∷ []))),
  length-append (wrap (length b) b) (b'\n' ∷ []),
)

lower-ne-nil : (s : Bytes) → s ≢ [] → map lower s ≢ []
lower-ne-nil [] h e = h refl
lower-ne-nil (c ∷ s) h e = cc

-- The wrapped body is no longer than the text that the body was collected from.
wrap-le :
    (t : Bytes) {b : Bytes}
    → collect (split b'\n' t) ≡ some b
    → b ≢ []
    → length (wrap (length (map lower b)) (map lower b)) ≤ length t
wrap-le t {b} e ne =
    let (breaks, size, few) = wrap_size (length (map lower b)) (map lower b) (lower-ne-nil b ne) in
    omega
      (arith, collect-sizes (split b'\n' t) e, sizes-split b'\n' t, length-map-lower b, size, few)

-- A canonical text is at most one byte longer than the text it was made from.
pub length-canonical_envelope-le :
    (text c : Bytes) → canonical_envelope text ≡ ok c → length c ≤ length text + 1
length-canonical_envelope-le text c h =
    let k = canonical_envelope-Canonical text c h in
    let p = parse_envelope-Parsed text k.parsed in
    let header = k.envelope.header in
    omega (
      arith,
      ap length k.written,
      length-serialize header (map lower k.envelope.body),
      wrap-le p.body_text p.lines p.nonempty,
      ap length p.splits,
      length-append header (b'\n' ∷ p.body_text),
      length-trim_newline-le (replace_crlf text),
      length-replace_crlf-le text,
    )
