-- ===== src/Attestation/Protocol.antt =====
-- protocol.go: Sign and Verify.
pub mod Authentic
pub mod Accepted
pub mod Returned
pub mod RoundTrip
use vaultsmith.Base.{
  ℕ, ◌+◌, Bool, true, false, not, ◌||◌, ◌&&◌, ◌==◌, within, List, [], ◌∷◌, ◌++◌, bytes_eq, is_empty,
  codes, Bytes, length, if◌then◌else◌, Option, none, some, Result, ok, err, ◌>>=◌, ◌>>◌, guard,
  or_err, with_error, map_error,
}
use vaultsmith.Attestation.Json.{
  JsonValue, object, string, no_members, with_member, has_only_members,
}
use vaultsmith.Attestation.Json.Parse.{parse_strict_json}
use vaultsmith.Attestation.Errors.{
  VerificationReason, unknown_key, issuer_mismatch, signature_invalid, key_revoked,
  unsupported_version, input_digest_mismatch, output_digest_mismatch, binding_mismatch,
  AttestationError, malformed, invalid_signing_key, invalid_verify_options, verification,
}
use vaultsmith.Attestation.Claims.{
  Binding, RotationClaims, External, valid_kid, valid_issuer, valid_lower_hex_digest,
  validate_binding, is_supported, validate_signing_claims,
}
use vaultsmith.Attestation.Claims.Parse.{required_string_member, parse_canonical_claims}
use vaultsmith.Attestation.Claims.Values.{canonical_claims}
use vaultsmith.Attestation.Digest.{input_digest, output_digest}
use vaultsmith.Attestation.Jws.{
  Signed, Components, parse, encode_base64url, decode_encoded_components,
}

abbrev pub attestation_algorithm : Bytes
attestation_algorithm = codes "Ed25519"

abbrev pub attestation_type : Bytes
attestation_type = codes "application/vaultsmith-rotation-attestation+json"

pub record KeyResolution : Type 0 where
  pub public_key : Bytes
  pub revoked : Bool

-- A resolver takes the issuer and the kid; its failure is nothing. An absent field is empty.
pub record VerifyOptions : Type 0 where
  pub expected_issuer : Bytes
  pub resolver : Option (Bytes → Bytes → Option KeyResolution)
  pub expected_input_digest : Bytes
  pub expected_output_digest : Bytes
  pub input_vault_text : Bytes
  pub output_vault_text : Bytes
  pub expected_binding : Option Binding

pub record ProtectedHeader : Type 0 where
  pub alg : Bytes
  pub kid : Bytes
  pub typ : Bytes

-- What is returned with an error: claims, or their zero value.
pub record Failure : Type 0 where
  pub claims : Option RotationClaims
  pub error : AttestationError

abbrev pub alone : AttestationError → Failure
alone e = record { claims = none; error = e }

abbrev pub beside : RotationClaims → VerificationReason → Failure
beside c reason = record { claims = some c; error = verification reason }

lower_ascii : ℕ → ℕ
lower_ascii c = if within b'A' b'Z' c then c + 32 else c

-- stringsEqualFoldASCII.
unfoldable pub strings_equal_fold_ascii : Bytes → Bytes → Bool
unfolding lower_ascii
strings_equal_fold_ascii [] [] = true
strings_equal_fold_ascii (a ∷ s) (b ∷ t) =
    lower_ascii a == lower_ascii b && strings_equal_fold_ascii s t
strings_equal_fold_ascii _ _ = false

abbrev pub protected_members : List Bytes
protected_members = codes "alg" ∷ codes "kid" ∷ codes "typ" ∷ []

-- A field of a binding is as expected, when it is.
abbrev field_matches : Bytes → Bytes → Bool
field_matches expected actual = not (not (is_empty expected) && not (bytes_eq actual expected))

unfoldable pub binding_matches : Option Binding → Binding → Bool
binding_matches none expected = false
binding_matches (some actual) expected =
    field_matches expected.repository actual.repository
    && field_matches expected.revision actual.revision
    && field_matches expected.path actual.path
    && field_matches expected.selector actual.selector

abbrev pub signing_input : Bytes → Bytes → Bytes
signing_input protected payload = protected ++ b'.' ∷ payload

-- A digest of the claims against a Vault text, or else against an expected digest.
unfoldable pub check_digest :
    (Bytes → Result AttestationError Bytes)
    → Bytes
    → Bytes
    → Bytes
    → Failure
    → Result Failure (Unit {0})
check_digest digest_of [] expected claimed mismatch =
    guard (not (not (is_empty expected) && not (bytes_eq claimed expected))) mismatch
check_digest digest_of (c ∷ text) expected claimed mismatch = do
  digest ← with_error (alone malformed) (digest_of (c ∷ text))
  guard (bytes_eq claimed digest) mismatch

abbrev check_binding : Option Binding → RotationClaims → Result Failure (Unit {0})
check_binding none claims = ok tt
check_binding (some expected) claims =
    guard (binding_matches claims.binding expected) (beside claims binding_mismatch)

-- The members of the struct that canonicalProtectedHeader writes, by their tags.
unfoldable pub header_value : ProtectedHeader → JsonValue
header_value h = object (
    with_member (codes "alg") (string h.alg) (
      with_member (codes "kid") (string h.kid)
        (with_member (codes "typ") (string h.typ) no_members)))

abbrev pub signing_header : Bytes → ProtectedHeader
signing_header kid = record { alg = attestation_algorithm; kid = kid; typ = attestation_type }

module _ (e : External) where
  unfoldable pub canonical_protected_header : ProtectedHeader → Result AttestationError Bytes
  canonical_protected_header h = do
    raw ← or_err (e.marshal (header_value h)) malformed
    or_err (e.transform raw) malformed

  unfoldable pub sign : RotationClaims → Bytes → Bytes → Result AttestationError Signed
  sign claims kid private_key = do
    with_error malformed (validate_signing_claims e claims)
    guard (valid_kid kid) malformed
    guard (length private_key == 64) invalid_signing_key
    protected_bytes ← with_error malformed (canonical_protected_header (signing_header kid))
    payload_bytes ← with_error malformed (canonical_claims e claims)
    let protected = encode_base64url protected_bytes
    let payload = encode_base64url payload_bytes
    let signature = e.sign private_key (signing_input protected payload)
    ok record { protected = protected; payload = payload; signature = encode_base64url signature }

  unfoldable pub parse_canonical_protected : Bytes → Result AttestationError ProtectedHeader
  parse_canonical_protected text = do
    root ← with_error malformed (parse_strict_json text)
    guard (has_only_members root protected_members) malformed
    alg ← required_string_member root (codes "alg")
    kid ← required_string_member root (codes "kid")
    guard (valid_kid kid) malformed
    typ ← required_string_member root (codes "typ")
    guard (not (is_empty typ || not (strings_equal_fold_ascii typ attestation_type))) malformed
    guard (bytes_eq alg attestation_algorithm) malformed
    canonical ← or_err (e.transform text) malformed
    guard (bytes_eq canonical text) malformed
    ok record { alg = alg; kid = kid; typ = typ }

  abbrev expected_digest : Bytes → Bool
  expected_digest text = not (not (is_empty text) && not (valid_lower_hex_digest text))

  abbrev validate_expected_binding : Option Binding → Result AttestationError (Unit {0})
  validate_expected_binding none = ok tt
  validate_expected_binding (some b) = with_error invalid_verify_options (validate_binding e b)

  -- The resolver of valid options.
  unfoldable pub validate_verify_options :
      VerifyOptions → Result AttestationError (Bytes → Bytes → Option KeyResolution)
  validate_verify_options o = do
    resolver ← or_err o.resolver invalid_verify_options
    guard (valid_issuer e o.expected_issuer) invalid_verify_options
    guard (expected_digest o.expected_input_digest) invalid_verify_options
    guard (expected_digest o.expected_output_digest) invalid_verify_options
    validate_expected_binding o.expected_binding
    ok resolver

  -- Verify up to the signature: the claims, and whether the key is revoked.
  unfoldable pub authenticate :
      Signed → VerifyOptions → Result AttestationError (RotationClaims × Bool)
  authenticate signed o = do
    resolver ← validate_verify_options o
    parts ← with_error malformed (decode_encoded_components signed)
    header ← with_error malformed (parse_canonical_protected parts.protected_bytes)
    claims ← with_error malformed (parse_canonical_claims e parts.payload_bytes)
    guard (bytes_eq claims.issuer o.expected_issuer) (verification issuer_mismatch)
    resolution ← or_err (resolver claims.issuer header.kid) (verification unknown_key)
    guard (length resolution.public_key == 32) (verification unknown_key)
    guard
        (e.verify resolution.public_key (signing_input signed.protected signed.payload)
          parts.signature_bytes)
        (verification signature_invalid)
    ok (claims, resolution.revoked)

  -- Verify from the signature on.
  unfoldable pub check_claims :
      VerifyOptions → RotationClaims → Bool → Result Failure RotationClaims
  check_claims o claims revoked = do
    guard (not revoked) (beside claims key_revoked)
    guard (is_supported claims.version) (beside claims unsupported_version)
    check_digest (input_digest e.sha256) o.input_vault_text o.expected_input_digest
        claims.input.value (beside claims input_digest_mismatch)
    check_digest (output_digest e.sha256) o.output_vault_text o.expected_output_digest
        claims.output.value (beside claims output_digest_mismatch)
    check_binding o.expected_binding claims
    ok claims

  unfoldable pub verify : Signed → VerifyOptions → Result Failure RotationClaims
  verify signed o = do
    (claims, revoked) ← map_error alone (authenticate signed o)
    check_claims o claims revoked

  unfoldable pub verify_json : Bytes → VerifyOptions → Result Failure RotationClaims
  verify_json text o = do signed ← with_error (alone malformed) (parse text); verify signed o

  unfoldable pub verify_against_envelopes :
      Signed → Bytes → Bytes → Option Binding → VerifyOptions → Result Failure RotationClaims
  verify_against_envelopes signed input output expected o = verify signed record {
    expected_issuer = o.expected_issuer;
    resolver = o.resolver;
    expected_input_digest = o.expected_input_digest;
    expected_output_digest = o.expected_output_digest;
    input_vault_text = input;
    output_vault_text = output;
    expected_binding = expected;
  }
