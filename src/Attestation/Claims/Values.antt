-- ===== src/Attestation/Claims/Values.antt =====
-- claims.go: the JSON texts that claims and bindings are written as.
use vaultsmith.Base.{
  ℕ, zero, suc, ◌+◌, ◌/◌, ◌%◌, ℤ, pos, negsuc, ltb, [], ◌∷◌, ◌++◌, codes, Bytes, if◌then◌else◌,
  Option, none, some, Result, ◌>>=◌, ◌>>◌, or_err, with_error,
}
use vaultsmith.Attestation.Json.{
  JsonValue, object, string, number, Members, no_members, with_member,
}
use vaultsmith.Attestation.Errors.{AttestationError, malformed}
use vaultsmith.Attestation.Claims.{
  Digest, Binding, RotationClaims, External, binding_value, validate_claims,
}

-- Decimal digits; there are no more of them than the number and one.
digits : ℕ → ℕ → Bytes
digits zero n = []
digits (suc fuel) n =
    let rest = digits fuel (n / 10) in
    if ltb n 10 then (b'0' + n) ∷ [] else rest ++ (b'0' + n % 10) ∷ []

unfoldable pub format_int : ℤ → Bytes
unfolding digits
format_int (pos n) = digits (suc n) n
format_int (negsuc n) = b'-' ∷ digits (suc (suc n)) (suc n)

unfoldable pub digest_value : Digest → JsonValue
digest_value d = object (
    with_member (codes "algorithm") (string d.algorithm)
      (with_member (codes "digest") (string d.value) no_members))

abbrev pub binding_part : Option Binding → Members
binding_part none = no_members
binding_part (some b) = with_member (codes "binding") (binding_value b) no_members

-- The members of a RotationClaims, by their tags.
unfoldable pub claims_value : RotationClaims → JsonValue
unfolding format_int digest_value
claims_value c = object (
    with_member (codes "version") (number (format_int c.version)) (
      with_member (codes "issuer") (string c.issuer) (
        with_member (codes "issuedAt") (string c.issued_at) (
          with_member (codes "operation") (string c.operation) (
            with_member (codes "sourceProfileId") (string c.source_profile_id) (
              with_member (codes "destinationProfileId") (string c.destination_profile_id) (
                with_member (codes "input") (digest_value c.input) (
                  with_member (codes "output") (digest_value c.output)
                    (binding_part c.binding)))))))))

unfoldable pub canonical_claims : External → RotationClaims → Result AttestationError Bytes
canonical_claims e c = do
  with_error malformed (validate_claims e c)
  raw ← or_err (e.marshal (claims_value c)) malformed
  or_err (e.transform raw) malformed
