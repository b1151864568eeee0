-- ===== src/Vault/Envelope/Parse.antt =====
-- What parseEnvelope accepts, and that it reads back what serializeVaultEnvelope writes.
use vaultsmith.Base.{
  ℕ, zero, suc, ltb, ◌==◌, Bool-cases, inl, inr, take, drop, All-take, All-drop, ◌≡◌, ◌≢◌, refl, ap,
  sym, ◌∙◌, true, false, not, some, [], ◌∷◌, ◌++◌, arith, append_assoc, Bytes, All-append,
  All-of_append, length, is_empty, guard_then, or_err_then, ok,
}
use vaultsmith.Text.Cut.{
  Free, Free-of-contains, contains, contains-of-Free, cut, cut-append, cut-eq-some, split,
  replace_crlf, replace_crlf-Free, trim_newline, trim_newline-append,
}
use vaultsmith.Text.Hex
use vaultsmith.Vault.Header.{is_supported_header}
use vaultsmith.Vault.Envelope.{
  Envelope, invalid_vault, wrap, serialize_vault_envelope, collect, parse_payload, parse_envelope,
  line_width,
}
use vaultsmith.Vault.Envelope.Wrap.{AreHex, Free-of_AreHex, collect-wrap, collect-AreHex}

-- A header that can stand on the first line.
pub record IsHeader (h : Bytes) : Type 0 where
  pub supported : is_supported_header h ≡ true
  pub one_line : Free b'\n' h
  pub no_return : Free b'\r' h

is_empty-append : (h t : Bytes) (c : ℕ) → is_empty (h ++ (c ∷ t)) ≡ false
is_empty-append [] t c = refl
is_empty-append (x ∷ h) t c = refl

wrap-Free : (b fuel : ℕ) (s : Bytes) → b ≢ b'\n' → Free b s → Free b (wrap fuel s)
unfolding wrap
wrap-Free b zero s ne free = free
wrap-Free b (suc fuel) s ne free = elim (Bool-cases (ltb line_width (length s))) [
  | inl long ↦ rw long (
      All-append (λ c. c ≢ b) (take line_width s) _ (All-take (λ c. c ≢ b) line_width s free)
        (
          λ e. ne (sym e),
          wrap-Free b fuel (drop line_width s) ne (All-drop (λ c. c ≢ b) line_width s free),
        ))
  | inr short ↦ rw short free
]

trim_newline-Free : (b : ℕ) (s : Bytes) → Free b s → Free b (trim_newline s)
unfolding trim_newline
trim_newline-Free b [] free = tt
trim_newline-Free b (c ∷ []) free = elim (Bool-cases (c == b'\n')) [
  | inl e ↦ rw e tt
  | inr e ↦ rw e free
]
trim_newline-Free b (c ∷ d ∷ s) free = (free.0, trim_newline-Free b (d ∷ s) free.1)

-- The text up to the final line break, and the whole.
parse_parts :
    (h t : Bytes) (b : Bytes)
    → IsHeader h
    → Free b'\r' t
    → collect (split b'\n' t) ≡ some b
    → parse_envelope (h ++ (b'\n' ∷ (t ++ (b'\n' ∷ [])))) ≡ parse_payload h b
unfolding parse_envelope
parse_parts h t b v free e =
    let whole = h ++ (b'\n' ∷ (t ++ (b'\n' ∷ []))) in
    let no_return : Free b'\r' whole =
      All-append (λ c. c ≢ b'\r') h _ v.no_return
        (omega arith, All-append (λ c. c ≢ b'\r') t _ free (omega arith, tt)) in
    let trimmed : trim_newline whole ≡ h ++ (b'\n' ∷ t) =
      ap trim_newline (sym (append_assoc h (b'\n' ∷ t) (b'\n' ∷ [])))
      ∙ trim_newline-append (h ++ (b'\n' ∷ t)) in
    rw (
      is_empty-append h (t ++ (b'\n' ∷ [])) b'\n',
      replace_crlf-Free whole no_return,
      contains-of-Free b'\r' whole no_return,
      trimmed,
      cut-append b'\n' h t v.one_line,
      v.supported,
      e,
    )

-- Reading a serialized envelope is reading its payload.
pub parse_envelope-serialize :
    (h b : Bytes)
    → IsHeader h
    → AreHex b
    → b ≢ []
    → parse_envelope (serialize_vault_envelope h b) ≡ parse_payload h b
unfolding serialize_vault_envelope
parse_envelope-serialize h b v hex ne =
    parse_parts h (wrap (length b) b) b v
      (wrap-Free b'\r' (length b) b (omega arith) (Free-of_AreHex b'\r' b (omega arith) hex))
      (collect-wrap (length b) b (omega arith) hex ne)

pub parse_payload_fields :
    (h b : Bytes) {e : Envelope} → parse_payload h b ≡ ok e → (e.header ≡ h) × (e.body ≡ b)
unfolding parse_payload
parse_payload_fields h b eq = ground arith

-- What an accepted text establishes.
pub record Parsed (text : Bytes) (e : Envelope) : Type 0 where
  pub is_header : IsHeader e.header
  pub hex : AreHex e.body
  pub nonempty : e.body ≢ []
  pub payload : parse_payload e.header e.body ≡ ok e
  pub body_text : Bytes
  pub splits : trim_newline (replace_crlf text) ≡ e.header ++ (b'\n' ∷ body_text)
  pub lines : collect (split b'\n' body_text) ≡ some e.body

not-payload-nil : (h : Bytes) {e : Envelope} → parse_payload h [] ≢ ok e
unfolding parse_payload Hex.decode cut
not-payload-nil h eq = cc

pub payload-ne-nil : (h b : Bytes) {e : Envelope} → parse_payload h b ≡ ok e → b ≢ []
payload-ne-nil h b {e} eq z = not-payload-nil h (rw z at eq)

Parsed-intro :
    (text h body_text b : Bytes) {e : Envelope}
    → IsHeader h
    → trim_newline (replace_crlf text) ≡ h ++ (b'\n' ∷ body_text)
    → collect (split b'\n' body_text) ≡ some b
    → parse_payload h b ≡ ok e
    → Parsed text e
Parsed-intro text h body_text b {e} v splits lines eq =
    let (h_is, b_is) = parse_payload_fields h b eq in
    record {
      is_header = rw h_is v;
      hex = rw b_is (collect-AreHex _ lines);
      nonempty = rw b_is (payload-ne-nil h b eq);
      payload = ap (λ x. parse_payload x e.body) h_is ∙ ap (parse_payload h) b_is ∙ eq;
      body_text = body_text;
      splits = rw h_is splits;
      lines = rw b_is lines;
    }

pub parse_envelope-Parsed :
    (text : Bytes) {e : Envelope} → parse_envelope text ≡ ok e → Parsed text e
unfolding parse_envelope
parse_envelope-Parsed text eq =
    let t = replace_crlf text in
    let (_, k₁) = guard_then (not (is_empty text)) invalid_vault _ eq in
    let (no_return, k₂) = guard_then (not (contains b'\r' t)) invalid_vault _ k₁ in
    let (parts, found, k₃) = or_err_then (cut b'\n' (trim_newline t)) invalid_vault _ k₂ in
    let (supported, k₄) = guard_then (is_supported_header parts.0) invalid_vault _ k₃ in
    let (b, collected, payload) = or_err_then (collect (split b'\n' parts.1)) invalid_vault _ k₄ in
    let (splits, one_line) = cut-eq-some b'\n' (trim_newline t) found in
    let free = trim_newline-Free b'\r' t (Free-of-contains b'\r' t (ground arith)) in
    Parsed-intro text parts.0 parts.1 b
      (record {
        supported = supported;
        one_line = one_line;
        no_return = (All-of_append (λ c. c ≢ b'\r') parts.0 _ (rw splits at free)).0;
      })
      splits collected payload
