-- ===== src/Attestation/Claims/Alike.antt =====
-- parseClaims on values that differ in the order of members.
use vaultsmith.Base.{
  ℕ, ◌≡◌, refl, ap, [], codes, Bytes, Option, none, some, Result, ok, err, ◌>>=◌, guard, or_err,
  with_error,
}
use vaultsmith.Attestation.Json.{JsonValue, string, number}
use vaultsmith.Attestation.Json.Alike.{
  Alike, same, objects, AlikeMember, neither, both, member-Alike, has_only_members-Alike,
  or_err-Alike,
}
use vaultsmith.Attestation.Errors.{AttestationError, malformed}
use vaultsmith.Attestation.Claims.{Binding, External}
use vaultsmith.Attestation.Claims.Parse.{
  digest_members, binding_members, claims_members, valid_version_number, parse_int,
  required_string_member, version_member, optional_string_member, parse_digest, digest_member,
  parse_binding, binding_member, claims_of,
}

module _ {v w : JsonValue} (alike : Alike v w) where
  pub required_string_member-Alike :
      (name : Bytes) → required_string_member v name ≡ required_string_member w name
  unfolding required_string_member
  required_string_member-Alike name = split (member-Alike alike name)
    where
      split :
          {o p : Option JsonValue}
          → AlikeMember o p
          → ◌≡◌ {A = Result AttestationError Bytes}
              (elim o [ some (string text) ↦ ok text | _ ↦ err malformed ])
              (elim p [ some (string text) ↦ ok text | _ ↦ err malformed ])
      split neither = refl
      split (both same) = refl
      split (both (objects h k)) = refl

  optional_string_member-Alike :
      (name : Bytes) → optional_string_member v name ≡ optional_string_member w name
  unfolding optional_string_member
  optional_string_member-Alike name = split (member-Alike alike name)
    where
      split :
          {o p : Option JsonValue}
          → AlikeMember o p
          → ◌≡◌ {A = Result AttestationError Bytes}
              (elim o [ none ↦ ok [] | some (string text) ↦ ok text | _ ↦ err malformed ])
              (elim p [ none ↦ ok [] | some (string text) ↦ ok text | _ ↦ err malformed ])
      split neither = refl
      split (both same) = refl
      split (both (objects h k)) = refl

  version_member-Alike : version_member v ≡ version_member w
  version_member-Alike = split (member-Alike alike (codes "version"))
    where
      split :
          {o p : Option JsonValue}
          → AlikeMember o p
          → ◌≡◌ {A = Result AttestationError ℕ}
              (elim o [
                | some (number text) ↦ guard (valid_version_number text) malformed >>= λ _.
                    or_err (parse_int text) malformed
                | _ ↦ err malformed
              ])
              (elim p [
                | some (number text) ↦ guard (valid_version_number text) malformed >>= λ _.
                    or_err (parse_int text) malformed
                | _ ↦ err malformed
              ])
      split neither = refl
      split (both same) = refl
      split (both (objects h k)) = refl

parse_digest-Alike : (v w : JsonValue) → Alike v w → parse_digest v ≡ parse_digest w
unfolding parse_digest
parse_digest-Alike v w alike = rw (
  has_only_members-Alike alike digest_members,
  required_string_member-Alike alike (codes "algorithm"),
  required_string_member-Alike alike (codes "digest"),
)

digest_member-Alike :
    {v w : JsonValue} → Alike v w → (name : Bytes) → digest_member v name ≡ digest_member w name
digest_member-Alike alike name =
    or_err-Alike malformed parse_digest parse_digest-Alike (member-Alike alike name)

module _ (e : External) where
  parse_binding-Alike : (v w : JsonValue) → Alike v w → parse_binding e v ≡ parse_binding e w
  unfolding parse_binding
  parse_binding-Alike v w alike = rw (
    has_only_members-Alike alike binding_members,
    optional_string_member-Alike alike (codes "repository"),
    optional_string_member-Alike alike (codes "revision"),
    optional_string_member-Alike alike (codes "path"),
    optional_string_member-Alike alike (codes "selector"),
  )

  binding_member-Alike : {v w : JsonValue} → Alike v w → binding_member e v ≡ binding_member e w
  binding_member-Alike alike = split (member-Alike alike (codes "binding"))
    where
      split :
          {o p : Option JsonValue}
          → AlikeMember o p
          → ◌≡◌ {A = Result AttestationError (Option Binding)}
              (elim o [
                | none ↦ ok none
                | some x ↦ with_error malformed (parse_binding e x) >>= λ b. ok (some b)
              ])
              (elim p [
                | none ↦ ok none
                | some x ↦ with_error malformed (parse_binding e x) >>= λ b. ok (some b)
              ])
      split neither = refl
      split (both {v} {w} a) =
          ap (λ r. with_error malformed r >>= λ b. ok (some b)) (parse_binding-Alike v w a)

  -- The order of members does not matter to the reader.
  pub claims_of-Alike : {v w : JsonValue} → Alike v w → claims_of e v ≡ claims_of e w
  unfolding claims_of
  claims_of-Alike alike = rw (
    has_only_members-Alike alike claims_members,
    version_member-Alike alike,
    required_string_member-Alike alike (codes "issuer"),
    required_string_member-Alike alike (codes "issuedAt"),
    required_string_member-Alike alike (codes "operation"),
    required_string_member-Alike alike (codes "sourceProfileId"),
    required_string_member-Alike alike (codes "destinationProfileId"),
    digest_member-Alike alike (codes "input"),
    digest_member-Alike alike (codes "output"),
    binding_member-Alike alike,
  )
