-- ===== src/Attestation/Claims/Parse.antt =====
-- claims.go: claims out of a JSON text.
use vaultsmith.Base.{
  ℕ, ◌+◌, ◌-◌, ◌*◌, ◌^◌, pos, Bool, true, false, not, ◌||◌, ◌&&◌, ◌==◌, ltb, within, List, [], ◌∷◌,
  any, bytes_eq, codes, Bytes, Option, none, some, Result, ok, err, ◌>>=◌, ◌>>◌, guard, or_err,
  with_error,
}
use vaultsmith.Attestation.Json.{JsonValue, string, number, member, has_only_members}
use vaultsmith.Attestation.Json.Parse.{parse_strict_json}
use vaultsmith.Attestation.Errors.{AttestationError, malformed}
use vaultsmith.Attestation.Claims.{
  Digest, Binding, RotationClaims, External, validate_digest, validate_binding, validate_claims,
}

abbrev pub claims_members : List Bytes
claims_members =
    codes "version"
    ∷ codes "issuer"
    ∷ codes "issuedAt"
    ∷ codes "operation"
    ∷ codes "sourceProfileId"
    ∷ codes "destinationProfileId"
    ∷ codes "input"
    ∷ codes "output"
    ∷ codes "binding"
    ∷ []

abbrev pub digest_members : List Bytes
digest_members = codes "algorithm" ∷ codes "digest" ∷ []

abbrev pub binding_members : List Bytes
binding_members = codes "repository" ∷ codes "revision" ∷ codes "path" ∷ codes "selector" ∷ []

-- `strings.Trim(number, "0123456789") == ""`
all_digits : Bytes → Bool
all_digits [] = true
all_digits (c ∷ s) = within b'0' b'9' c && all_digits s

unfoldable pub valid_version_number : Bytes → Bool
unfolding all_digits
valid_version_number [] = false
valid_version_number (c ∷ s) =
    not (c == b'-' || any (λ d. d == b'.' || d == b'e' || d == b'E') (c ∷ s))
    && (bytes_eq (c ∷ s) (codes "0") || (within b'1' b'9' c && all_digits (c ∷ s)))

decimal : ℕ → Bytes → ℕ
decimal n [] = n
decimal n (c ∷ s) = decimal (n * 10 + (c - b'0')) s

-- `strconv.ParseInt(s, 10, 64)` of digits.
unfoldable pub parse_int : Bytes → Option ℕ
unfolding decimal
parse_int s = let n = decimal 0 s in elim (ltb n (2 ^ 63)) [ true ↦ some n | false ↦ none ]

unfoldable pub required_string_member : JsonValue → Bytes → Result AttestationError Bytes
required_string_member v name = elim (member v name) [
  | some (string text) ↦ ok text
  | _ ↦ err malformed
]

abbrev pub version_member : JsonValue → Result AttestationError ℕ
version_member v = elim (member v (codes "version")) [
  | some (number text) ↦ do
    guard (valid_version_number text) malformed
    or_err (parse_int text) malformed
  | _ ↦ err malformed
]

-- A member of a binding, which may be absent.
unfoldable pub optional_string_member : JsonValue → Bytes → Result AttestationError Bytes
optional_string_member v name = elim (member v name) [
  | none ↦ ok []
  | some (string text) ↦ ok text
  | _ ↦ err malformed
]

unfoldable pub parse_digest : JsonValue → Result AttestationError Digest
parse_digest v = do
  guard (has_only_members v digest_members) malformed
  algorithm ← required_string_member v (codes "algorithm")
  value ← required_string_member v (codes "digest")
  let digest : Digest = record { algorithm = algorithm; value = value }
  validate_digest digest
  ok digest

abbrev pub digest_member : JsonValue → Bytes → Result AttestationError Digest
digest_member v name = do w ← or_err (member v name) malformed; parse_digest w

module _ (e : External) where
  unfoldable pub parse_binding : JsonValue → Result AttestationError Binding
  parse_binding v = do
    guard (has_only_members v binding_members) malformed
    repository ← optional_string_member v (codes "repository")
    revision ← optional_string_member v (codes "revision")
    path ← optional_string_member v (codes "path")
    selector ← optional_string_member v (codes "selector")
    let binding : Binding = record {
      repository = repository;
      revision = revision;
      path = path;
      selector = selector;
    }
    validate_binding e binding
    ok binding

  abbrev pub binding_member : JsonValue → Result AttestationError (Option Binding)
  binding_member v = elim (member v (codes "binding")) [
    | none ↦ ok none
    | some w ↦ with_error malformed (parse_binding w) >>= λ b. ok (some b)
  ]

  -- The claims that an object holds.
  unfoldable pub claims_of : JsonValue → Result AttestationError RotationClaims
  claims_of root = do
    guard (has_only_members root claims_members) malformed
    version ← version_member root
    issuer ← required_string_member root (codes "issuer")
    issued_at ← required_string_member root (codes "issuedAt")
    operation ← required_string_member root (codes "operation")
    source ← required_string_member root (codes "sourceProfileId")
    destination ← required_string_member root (codes "destinationProfileId")
    input ← digest_member root (codes "input")
    output ← digest_member root (codes "output")
    binding ← binding_member root
    let claims : RotationClaims = record {
      version = pos version;
      issuer = issuer;
      issued_at = issued_at;
      operation = operation;
      source_profile_id = source;
      destination_profile_id = destination;
      input = input;
      output = output;
      binding = binding;
    }
    validate_claims e claims
    ok claims

  unfoldable pub parse_claims : Bytes → Result AttestationError RotationClaims
  parse_claims text = do root ← with_error malformed (parse_strict_json text); claims_of root

  unfoldable pub parse_canonical_claims : Bytes → Result AttestationError RotationClaims
  parse_canonical_claims text = do
    claims ← parse_claims text
    canonical ← or_err (e.transform text) malformed
    guard (bytes_eq canonical text) malformed
    ok claims
