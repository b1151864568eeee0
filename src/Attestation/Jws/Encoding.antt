-- ===== src/Attestation/Jws/Encoding.antt =====
-- decodeStrictBase64URL and decodeEncodedComponents.
use vaultsmith.Base.{
  ◌≡◌, sym, ap, ◌∙◌, subst, ◌↔◌, false, not, ◌||◌, ◌==◌, arith, any, bytes_eq, bytes_eq_iff,
  bytes_eq_refl, is_empty, Bytes, AreBytes, ok, guard_then, or_err_then, bind-eq-ok, length, ==_iff,
}
use vaultsmith.Text.Base64
use vaultsmith.Text.Base64.{decode-AreBytes, decode-encode, encode_no_padding, is_empty-encode}
use vaultsmith.Attestation.Errors.{malformed}
use vaultsmith.Attestation.Jws.{
  Signed, Components, decode_strict_base64url, decode_encoded_components,
}

accepted :
    (text bytes : Bytes)
    → decode_strict_base64url text ≡ ok bytes
    → AreBytes bytes × (is_empty bytes ≡ false) × (text ≡ Base64.encode bytes)
unfolding decode_strict_base64url
accepted text bytes h =
    let (plain, h₁) = guard_then (not (is_empty text || any (λ c. c == b'=') text)) malformed _ h in
    let (decoded, d, h₂) = or_err_then (Base64.decode text) malformed _ h₁ in
    let (same, h₃) = guard_then (bytes_eq (Base64.encode decoded) text) malformed _ h₂ in
    let e : decoded ≡ bytes = ground arith in
    let back : text ≡ Base64.encode bytes = sym ((bytes_eq_iff _ _).0 same) ∙ ap Base64.encode e in
    let full : is_empty text ≡ false = ground arith in
    (
      subst AreBytes e (decode-AreBytes text d),
      sym (is_empty-encode bytes) ∙ sym (ap is_empty back) ∙ full,
      back,
    )

written :
    (bytes : Bytes)
    → AreBytes bytes
    → is_empty bytes ≡ false
    → decode_strict_base64url (Base64.encode bytes) ≡ ok bytes
unfolding decode_strict_base64url
written bytes h e = rw (
  is_empty-encode bytes,
  e,
  encode_no_padding bytes h,
  decode-encode bytes h,
  bytes_eq_refl (Base64.encode bytes),
)

-- A text is accepted as an encoding of bytes exactly if it is what the encoder writes for them and
-- there is at least one.
pub decode_strict_base64url_iff :
    (text bytes : Bytes)
    → (decode_strict_base64url text ≡ ok bytes)
      ↔ (AreBytes bytes × (is_empty bytes ≡ false) × (text ≡ Base64.encode bytes))
decode_strict_base64url_iff text bytes = (
  accepted text bytes,
  λ (h, e, same). subst (λ t. decode_strict_base64url t ≡ ok bytes) (sym same) (written bytes h e),
)

-- The text is the encoding of these bytes, which are not none.
abbrev pub Encodes : Bytes → Bytes → Type 0
Encodes bytes text = AreBytes bytes × (is_empty bytes ≡ false) × (text ≡ Base64.encode bytes)

components_encoded :
    (s : Signed) (c : Components)
    → decode_encoded_components s ≡ ok c
    → Encodes c.protected_bytes s.protected
      × Encodes c.payload_bytes s.payload
      × Encodes c.signature_bytes s.signature
      × (length c.signature_bytes ≡ 64)
unfolding decode_encoded_components
components_encoded s c h =
    let (protected, e₁, h₁) = bind-eq-ok _ _ h in
    let (full₁, h₂) = guard_then (not (is_empty protected)) malformed _ h₁ in
    let (payload, e₂, h₃) = bind-eq-ok _ _ h₂ in
    let (full₂, h₄) = guard_then (not (is_empty payload)) malformed _ h₃ in
    let (signature, e₃, h₅) = bind-eq-ok _ _ h₄ in
    let (long, h₆) = guard_then (length signature == 64) malformed _ h₅ in
    let same₁ : protected ≡ c.protected_bytes = cc in
    let same₂ : payload ≡ c.payload_bytes = cc in
    let same₃ : signature ≡ c.signature_bytes = cc in
    (
      accepted s.protected _ (e₁ ∙ ap ok same₁),
      accepted s.payload _ (e₂ ∙ ap ok same₂),
      accepted s.signature _ (e₃ ∙ ap ok same₃),
      sym (ap length same₃) ∙ (==_iff (length signature) 64).0 long,
    )

encoded_components :
    (s : Signed) (c : Components)
    → Encodes c.protected_bytes s.protected
    → Encodes c.payload_bytes s.payload
    → Encodes c.signature_bytes s.signature
    → length c.signature_bytes ≡ 64
    → decode_encoded_components s ≡ ok c
unfolding decode_encoded_components
encoded_components s c p q r long = rw (
  (decode_strict_base64url_iff s.protected c.protected_bytes).1 p,
  p.1,
  (decode_strict_base64url_iff s.payload c.payload_bytes).1 q,
  q.1,
  (decode_strict_base64url_iff s.signature c.signature_bytes).1 r,
  long,
)

pub decode_encoded_components_iff :
    (s : Signed) (c : Components)
    → (decode_encoded_components s ≡ ok c) ↔ (
        Encodes c.protected_bytes s.protected
        × Encodes c.payload_bytes s.payload
        × Encodes c.signature_bytes s.signature
        × (length c.signature_bytes ≡ 64))
decode_encoded_components_iff s c =
    (components_encoded s c, λ (p, q, r, long). encoded_components s c p q r long)
