-- ===== src/Attestation/Protocol/Authentic.antt =====
-- What the claims that Verify returns have been checked for.
use vaultsmith.Base.{
  ◌≡◌, subst, Bool, true, ◌==◌, ==_iff, bytes_eq, bytes_eq_iff, Bytes, length, Option, some, ok,
  with_error-eq-ok, bind-eq-ok, guard_then, or_err_then, ok-injective,
}
use vaultsmith.Attestation.Errors.{
  malformed, verification, issuer_mismatch, unknown_key, signature_invalid,
}
use vaultsmith.Attestation.Claims.{RotationClaims, External}
use vaultsmith.Attestation.Claims.Parse.{parse_canonical_claims}
use vaultsmith.Attestation.Jws.{Signed, Components, decode_encoded_components}
use vaultsmith.Attestation.Jws.Encoding.{Encodes, decode_encoded_components_iff}
use vaultsmith.Attestation.Protocol.{
  KeyResolution, VerifyOptions, ProtectedHeader, signing_input, parse_canonical_protected,
  validate_verify_options, authenticate,
}

-- Under valid options, the signed object encodes a header and canonical claims of the expected
-- issuer, and its signature verifies under the key that the resolver has for that issuer and the
-- kid of the header.
pub record Authentic (e : External) (signed : Signed) (o : VerifyOptions) (claims : RotationClaims)
    (revoked : Bool) : Type 0 where
  pub resolver : Bytes → Bytes → Option KeyResolution
  pub options : validate_verify_options e o ≡ ok resolver
  pub parts : Components
  pub protected : Encodes parts.protected_bytes signed.protected
  pub payload : Encodes parts.payload_bytes signed.payload
  pub signature : Encodes parts.signature_bytes signed.signature
  pub length-signature : length parts.signature_bytes ≡ 64
  pub header : ProtectedHeader
  pub header_lem : parse_canonical_protected e parts.protected_bytes ≡ ok header
  pub claims_lem : parse_canonical_claims e parts.payload_bytes ≡ ok claims
  pub issuer : claims.issuer ≡ o.expected_issuer
  pub resolution : KeyResolution
  pub resolved : resolver claims.issuer header.kid ≡ some resolution
  pub length-key : length resolution.public_key ≡ 32
  pub verified :
      e.verify resolution.public_key
        (signing_input signed.protected signed.payload)
        parts.signature_bytes
      ≡ true
  pub state : resolution.revoked ≡ revoked

module _ (e : External) (signed : Signed) (o : VerifyOptions) where
  pub authenticate-Authentic :
      (claims : RotationClaims) (revoked : Bool)
      → authenticate e signed o ≡ ok (claims, revoked)
      → Authentic e signed o claims revoked
  unfolding authenticate
  authenticate-Authentic claims revoked h =
      let (resolver, options, h₁) = bind-eq-ok _ _ h in
      let (parts, decoded, h₂) = bind-eq-ok _ _ h₁ in
      let (header, header_ok, h₃) = bind-eq-ok _ _ h₂ in
      let (c, claims_ok, h₄) = bind-eq-ok _ _ h₃ in
      let (issuer, h₅) =
        guard_then (bytes_eq c.issuer o.expected_issuer) (verification issuer_mismatch) _ h₄ in
      let (resolution, resolved, h₆) =
        or_err_then (resolver c.issuer header.kid) (verification unknown_key) _ h₅ in
      let (long, h₇) =
        guard_then (length resolution.public_key == 32) (verification unknown_key) _ h₆ in
      let (verified, h₈) =
        guard_then
          (e.verify resolution.public_key (signing_input signed.protected signed.payload)
            parts.signature_bytes)
          (verification signature_invalid) _ h₇ in
      let (same, state) = ok-injective h₈ in
      let (p, q, r, l) =
        (decode_encoded_components_iff signed parts).0
          (with_error-eq-ok malformed (decode_encoded_components signed) decoded) in
      subst (λ d. Authentic e signed o d revoked) same
        record {
          resolver = resolver;
          options = options;
          parts = parts;
          protected = p;
          payload = q;
          signature = r;
          length-signature = l;
          header = header;
          header_lem =
              with_error-eq-ok malformed (parse_canonical_protected e parts.protected_bytes)
                header_ok;
          claims_lem =
              with_error-eq-ok malformed (parse_canonical_claims e parts.payload_bytes) claims_ok;
          issuer = (bytes_eq_iff _ _).0 issuer;
          resolution = resolution;
          resolved = resolved;
          length-key = (==_iff _ _).0 long;
          verified = verified;
          state = state;
        }

  pub Authentic-authenticate :
      (claims : RotationClaims) (revoked : Bool)
      → Authentic e signed o claims revoked
      → authenticate e signed o ≡ ok (claims, revoked)
  unfolding authenticate
  Authentic-authenticate claims revoked a =
      let decoded =
        (decode_encoded_components_iff signed a.parts).1
          (a.protected, a.payload, a.signature, a.length-signature) in
      let issuer = (bytes_eq_iff _ _).1 a.issuer in
      rw (
        a.options, decoded, a.header_lem, a.claims_lem, issuer, a.resolved, a.length-key,
        a.verified, a.state,
      )
