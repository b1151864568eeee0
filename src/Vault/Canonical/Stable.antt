-- ===== src/Vault/Canonical/Stable.antt =====
-- The canonical text denotes the envelope that it was made from, and is its own canonical text.
use vaultsmith.Base.{
  ℕ, zero, suc, ◌≤◌, ◌<◌, ◌≡◌, ◌≢◌, refl, ap, sym, ◌∙◌, true, not, ◌||◌, [], ◌∷◌, map, arith, ltb,
  le→not-ltb, Bytes, All-append, All-take, All-drop, take, drop, length, Result, ok, err,
  guard_then, bind-eq-ok, Bool-cases, inl, inr,
}
use vaultsmith.Text.Hex
use vaultsmith.Text.Utf8.{
  valid, valid-ascii, valid-before, valid-append, valid-replace_crlf, valid-trim_newline, AreAscii,
}
use vaultsmith.Vault.Envelope.{
  Envelope, VaultError, invalid_vault, parse_payload, parse_envelope, serialize_vault_envelope,
  max_vault_text_bytes, wrap, line_width,
}
use vaultsmith.Vault.Envelope.Wrap.{AreHex}
use vaultsmith.Vault.Envelope.Parse.{Parsed, parse_envelope-Parsed, parse_envelope-serialize}
use vaultsmith.Vault.Canonical.{lower, canonical_envelope}

value-lower : (c : ℕ) → Hex.value (lower c) ≡ Hex.value c
unfolding Hex.value lower
value-lower c = ground arith

decode-lower : (s : Bytes) → Hex.decode (map lower s) ≡ Hex.decode s
unfolding Hex.decode
decode-lower [] = refl
decode-lower (a ∷ []) = refl
decode-lower (a ∷ b ∷ s) = rw (value-lower a, value-lower b, decode-lower s)

is_digit-lower : (c : ℕ) → Hex.is_digit c ≡ true → Hex.is_digit (lower c) ≡ true
unfolding Hex.is_digit lower
is_digit-lower c h = ground arith

AreHex-lower : (s : Bytes) → AreHex s → AreHex (map lower s)
AreHex-lower [] h = tt
AreHex-lower (c ∷ s) h = (is_digit-lower c h.0, AreHex-lower s h.1)

lower_idem : (c : ℕ) → lower (lower c) ≡ lower c
unfolding lower
lower_idem c = ground arith

map-lower_idem : (s : Bytes) → map lower (map lower s) ≡ map lower s
map-lower_idem [] = refl
map-lower_idem (c ∷ s) = cc (lower_idem c, map-lower_idem s)

lower-ne-nil : (s : Bytes) → s ≢ [] → map lower s ≢ []
lower-ne-nil [] h e = h refl
lower-ne-nil (c ∷ s) h e = cc

-- The same envelope with its body in lower case.
abbrev pub lowered : Envelope → Envelope
lowered e = record e { body = map lower e.body }

abbrev lowered_result : Result VaultError Envelope → Result VaultError Envelope
lowered_result (ok e) = ok (lowered e)
lowered_result (err x) = err x

parse_payload-lower :
    (h b : Bytes) → parse_payload h (map lower b) ≡ lowered_result (parse_payload h b)
unfolding parse_payload
parse_payload-lower h b = rw (decode-lower b) (ground arith)

-- The canonical text of a parsed envelope is read back as that envelope with its body in lower
-- case.
pub parse_envelope-canonical :
    (text : Bytes) {e : Envelope}
    → parse_envelope text ≡ ok e
    → parse_envelope (serialize_vault_envelope e.header (map lower e.body)) ≡ ok (lowered e)
parse_envelope-canonical text {e} eq =
    let p = parse_envelope-Parsed text eq in
    parse_envelope-serialize e.header (map lower e.body) p.is_header (AreHex-lower e.body p.hex)
      (lower-ne-nil e.body p.nonempty)
    ∙ parse_payload-lower e.header e.body
    ∙ ap lowered_result p.payload

-- What a canonical text was made from.
pub record Canonical (text c : Bytes) : Type 0 where
  pub envelope : Envelope
  pub parsed : parse_envelope text ≡ ok envelope
  pub is_valid : valid text ≡ true
  pub written : c ≡ serialize_vault_envelope envelope.header (map lower envelope.body)
  pub reparsed : parse_envelope c ≡ ok (lowered envelope)

pub canonical_envelope-Canonical :
    (text c : Bytes) → canonical_envelope text ≡ ok c → Canonical text c
unfolding canonical_envelope
canonical_envelope-Canonical text c h =
    let (small, k) =
      guard_then (not (ltb max_vault_text_bytes (length text) || not (valid text))) invalid_vault _
        h in
    let (e, parsed, written) = bind-eq-ok (parse_envelope text) _ k in
    let made : c ≡ serialize_vault_envelope e.header (map lower e.body) = ground arith in
    record {
      envelope = e;
      parsed = parsed;
      is_valid = ground arith;
      written = made;
      reparsed = ap parse_envelope made ∙ parse_envelope-canonical text parsed;
    }

-- Digits and line breaks are ASCII.
AreAscii-of_AreHex : (s : Bytes) → AreHex s → AreAscii s
unfolding Hex.is_digit
AreAscii-of_AreHex [] h = tt
AreAscii-of_AreHex (c ∷ s) h = (ground (arith, h.0), AreAscii-of_AreHex s h.1)

AreAscii-wrap : (fuel : ℕ) (s : Bytes) → AreAscii s → AreAscii (wrap fuel s)
unfolding wrap
AreAscii-wrap zero s h = h
AreAscii-wrap (suc fuel) s h = elim (Bool-cases (ltb line_width (length s))) [
  | inl long ↦ rw long (
      All-append (λ c. c < 0x80) (take line_width s) _ (All-take (λ c. c < 0x80) line_width s h)
        (
          omega arith,
          AreAscii-wrap fuel (drop line_width s) (All-drop (λ c. c < 0x80) line_width s h),
        ))
  | inr short ↦ rw short h
]

valid-serialize :
    (h b : Bytes) → valid h ≡ true → AreHex b → valid (serialize_vault_envelope h b) ≡ true
unfolding serialize_vault_envelope
valid-serialize h b ok_header hex = valid-append h _ ok_header (
    valid-ascii _ (
      omega arith,
      All-append (λ c. c < 0x80) (wrap (length b) b) _
          (AreAscii-wrap (length b) b (AreAscii-of_AreHex b hex)) (omega arith, tt),
    ))

valid-header :
    (text : Bytes) {e : Envelope} → valid text ≡ true → Parsed text e → valid e.header ≡ true
valid-header text {e} v p =
    valid-before e.header b'\n' p.body_text (omega arith)
      (rw p.splits at (valid-trim_newline _ (valid-replace_crlf text v)))

-- A canonical text that is within the size limit is its own canonical text.
pub canonical_envelope_idem :
    (text c : Bytes)
    → canonical_envelope text ≡ ok c
    → length c ≤ max_vault_text_bytes
    → canonical_envelope c ≡ ok c
unfolding canonical_envelope
canonical_envelope_idem text c h fits =
    let k = canonical_envelope-Canonical text c h in
    let p = parse_envelope-Parsed text k.parsed in
    let hex = AreHex-lower k.envelope.body p.hex in
    let v : valid c ≡ true =
      rw k.written (valid-serialize k.envelope.header _ (valid-header text k.is_valid p) hex) in
    rw (le→not-ltb (length c) max_vault_text_bytes fits, v, k.reparsed)
      (ap ok (
        ap (serialize_vault_envelope k.envelope.header) (map-lower_idem k.envelope.body)
        ∙ sym k.written))
