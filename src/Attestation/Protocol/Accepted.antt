-- ===== src/Attestation/Protocol/Accepted.antt =====
-- When Verify accepts a signed object, and which claims it ever gives out.
use vaultsmith.Base.{
  ℤ, pos, negsuc, ◌≡◌, refl, sym, ap, ◌∙◌, subst, ◌↔◌, true, false, not, ==_iff, [], ◌∷◌, bytes_eq,
  bytes_eq_iff, bytes_eq_refl, is_empty, Bytes, Option, some, none, Result, ok, ◌>>=◌, guard,
  guard_iff, with_error, with_error-eq-ok, map_error-eq-ok, bind-eq-ok, guard_then, arith,
  &&-eq-true,
}
use vaultsmith.Attestation.Errors.{
  key_revoked, unsupported_version, input_digest_mismatch, output_digest_mismatch, binding_mismatch,
  AttestationError, malformed,
}
use vaultsmith.Attestation.Claims.{Binding, RotationClaims, External, is_supported}
use vaultsmith.Attestation.Digest.{input_digest, output_digest}
use vaultsmith.Attestation.Jws.{Signed}
use vaultsmith.Attestation.Protocol.{
  VerifyOptions, Failure, alone, beside, field_matches, binding_matches, authenticate, check_digest,
  check_binding, check_claims, verify,
}
use vaultsmith.Attestation.Protocol.Authentic.{
  Authentic, authenticate-Authentic, Authentic-authenticate,
}

-- The claimed digest is that of the text, when there is one, or else the expected one, when there is
-- one.
abbrev pub DigestAgrees : (Bytes → Result AttestationError Bytes) → Bytes → Bytes → Bytes → Type 0
DigestAgrees digest_of [] expected claimed = is_empty expected ≡ false → claimed ≡ expected
DigestAgrees digest_of (c ∷ text) expected claimed = digest_of (c ∷ text) ≡ ok claimed

abbrev FieldAgrees : Bytes → Bytes → Type 0
FieldAgrees expected actual = is_empty expected ≡ false → actual ≡ expected

-- Every field of the expected binding that is there is in the claims.
abbrev pub BindingAgrees : Option Binding → Option Binding → Type 0
BindingAgrees none actual = Unit
BindingAgrees (some expected) none = ⊥
BindingAgrees (some expected) (some actual) =
    FieldAgrees expected.repository actual.repository
    × FieldAgrees expected.revision actual.revision
    × FieldAgrees expected.path actual.path
    × FieldAgrees expected.selector actual.selector

pub record Accepted (e : External) (signed : Signed) (o : VerifyOptions) (claims : RotationClaims)
    : Type 0 where
  pub authentic : Authentic e signed o claims false
  pub version : claims.version ≡ pos 1
  pub input :
      DigestAgrees
        (input_digest e.sha256)
        o.input_vault_text
        o.expected_input_digest
        claims.input.value
  pub output :
      DigestAgrees
        (output_digest e.sha256)
        o.output_vault_text
        o.expected_output_digest
        claims.output.value
  pub binding : BindingAgrees o.expected_binding claims.binding

field_matches_iff :
    (expected actual : Bytes) → (field_matches expected actual ≡ true) ↔ FieldAgrees expected actual
field_matches_iff [] actual = ((λ h k. cc), λ h. refl)
field_matches_iff (c ∷ expected) actual = (
  (λ h k. (bytes_eq_iff actual (c ∷ expected)).0 (ground arith)),
  λ h. let e = (bytes_eq_iff actual (c ∷ expected)).1 (h refl) in rw e,
)

pub is_supported_iff : (v : ℤ) → (is_supported v ≡ true) ↔ (v ≡ pos 1)
is_supported_iff (pos n) = ((λ h. ap pos ((==_iff n 1).0 h)), λ h. ground arith)
is_supported_iff (negsuc n) = ((λ h. cc), λ h. cc)

check_digest_iff :
    (digest_of : Bytes → Result AttestationError Bytes) (text expected claimed : Bytes)
    (mismatch : Failure)
    → (check_digest digest_of text expected claimed mismatch ≡ ok tt)
      ↔ DigestAgrees digest_of text expected claimed
unfolding check_digest
check_digest_iff digest_of [] expected claimed mismatch =
    let (there, back) = guard_iff (field_matches expected claimed) mismatch in
    let (agrees, matches) = field_matches_iff expected claimed in
    ((λ h. agrees (there h)), λ h. back (matches h))
check_digest_iff digest_of (c ∷ text) expected claimed mismatch = (agrees, matches)
  where
    agrees :
        (with_error (alone malformed) (digest_of (c ∷ text)) >>= λ d.
        guard (bytes_eq claimed d) mismatch)
          ≡ ok tt
        → digest_of (c ∷ text) ≡ ok claimed
    agrees h =
        let (d, e, h₁) = bind-eq-ok _ _ h in
        with_error-eq-ok (alone malformed) (digest_of (c ∷ text)) e
        ∙ ap ok (sym ((bytes_eq_iff claimed d).0 ((guard_iff _ mismatch).0 h₁)))

    matches :
        digest_of (c ∷ text) ≡ ok claimed
        → (with_error (alone malformed) (digest_of (c ∷ text)) >>= λ d.
            guard (bytes_eq claimed d) mismatch)
          ≡ ok tt
    matches e = rw (e, bytes_eq_refl claimed)

binding_matches_iff :
    (expected : Binding) (actual : Option Binding)
    → (binding_matches actual expected ≡ true) ↔ BindingAgrees (some expected) actual
unfolding binding_matches
binding_matches_iff expected none = ((λ h. cc), λ h. absurd h)
binding_matches_iff expected (some actual) =
    let (f₁, g₁) = field_matches_iff expected.repository actual.repository in
    let (f₂, g₂) = field_matches_iff expected.revision actual.revision in
    let (f₃, g₃) = field_matches_iff expected.path actual.path in
    let (f₄, g₄) = field_matches_iff expected.selector actual.selector in
    (
      λ h.
          let (k₁, h₄) = &&-eq-true _ _ h in
          let (k₂, h₃) = &&-eq-true _ _ k₁ in
          let (h₁, h₂) = &&-eq-true _ _ k₂ in (f₁ h₁, f₂ h₂, f₃ h₃, f₄ h₄),
      λ (h₁, h₂, h₃, h₄). rw (g₁ h₁, g₂ h₂, g₃ h₃, g₄ h₄),
    )

check_binding_iff :
    (expected : Option Binding) (claims : RotationClaims)
    → (check_binding expected claims ≡ ok tt) ↔ BindingAgrees expected claims.binding
check_binding_iff none claims = ((λ h. tt), λ h. refl)
check_binding_iff (some expected) claims =
    let (there, back) =
      guard_iff (binding_matches claims.binding expected) (beside claims binding_mismatch) in
    let (agrees, matches) = binding_matches_iff expected claims.binding in
    ((λ h. agrees (there h)), λ h. back (matches h))

module _ (e : External) (signed : Signed) (o : VerifyOptions) where
  verify-Accepted :
      (claims : RotationClaims) → verify e signed o ≡ ok claims → Accepted e signed o claims
  unfolding verify check_claims
  verify-Accepted claims h =
      let ((c, revoked), known, h₁) = bind-eq-ok _ _ h in
      let (active, h₂) = guard_then (not revoked) (beside c key_revoked) _ h₁ in
      let (version, h₃) = guard_then (is_supported c.version) (beside c unsupported_version) _ h₂ in
      let (u₁, input, h₄) = bind-eq-ok _ _ h₃ in
      let (u₂, output, h₅) = bind-eq-ok _ _ h₄ in
      let (u₃, binding, h₆) = bind-eq-ok _ _ h₅ in
      let same : c ≡ claims = cc in
      let usable : revoked ≡ false = ground arith in
      let authentic =
        authenticate-Authentic e signed o c revoked
          (map_error-eq-ok alone (authenticate e signed o) known) in
      subst (Accepted e signed o) same record {
        authentic = subst (Authentic e signed o c) usable authentic;
        version = (is_supported_iff c.version).0 version;
        input = (check_digest_iff _ o.input_vault_text _ c.input.value _).0 input;
        output = (check_digest_iff _ o.output_vault_text _ c.output.value _).0 output;
        binding = (check_binding_iff o.expected_binding c).0 binding;
      }

  Accepted-verify :
      (claims : RotationClaims) → Accepted e signed o claims → verify e signed o ≡ ok claims
  unfolding verify check_claims
  Accepted-verify claims a = rw (
    Authentic-authenticate e signed o claims false a.authentic,
    (is_supported_iff claims.version).1 a.version,
    (check_digest_iff _ o.input_vault_text _ claims.input.value
          (beside claims input_digest_mismatch)).1
        a.input,
    (check_digest_iff _ o.output_vault_text _ claims.output.value
          (beside claims output_digest_mismatch)).1
        a.output,
    (check_binding_iff o.expected_binding claims).1 a.binding,
  )

  -- Verify accepts a signed object with these claims exactly if they are authentic under a key that
  -- is not revoked, are of the version 1, and agree with the digests and the binding that the
  -- options ask for.
  pub verify_iff :
      (claims : RotationClaims) → (verify e signed o ≡ ok claims) ↔ Accepted e signed o claims
  verify_iff claims = (verify-Accepted claims, Accepted-verify claims)
