-- ===== src/Attestation/Claims.antt =====
-- claims.go: the claims of a rotation and what makes them valid. Strings are never parsed as URLs
-- or times here: Go's net/url and time are parameters, and so are encoding/json and the JCS package
-- where texts are written.
pub mod Values
pub mod Parse
pub mod Alike
pub mod RoundTrip
use vaultsmith.Base.{
  ℕ, zero, suc, ◌+◌, ◌-◌, ◌*◌, ◌/◌, ◌%◌, ℤ, pos, negsuc, Bool, true, false, not, ◌||◌, ◌&&◌, ◌==◌,
  ltb, leb, within, List, [], ◌∷◌, ◌++◌, any, bytes_eq, is_empty, codes, Bytes, length,
  if◌then◌else◌, Option, none, some, Result, ok, err, ◌>>=◌, ◌>>◌, guard, or_err,
}
use vaultsmith.Text.Utf8.{valid}
use vaultsmith.Config.{is_valid_profile_id}
use vaultsmith.Attestation.Json.{
  JsonValue, object, string, number, Members, no_members, with_member,
}
use vaultsmith.Attestation.Errors.{AttestationError, malformed}

abbrev pub supported_version : ℕ
supported_version = 1

abbrev pub max_jcs_safe_integer : ℕ
max_jcs_safe_integer = 9007199254740991

pub record Digest : Type 0 where
  pub algorithm : Bytes
  pub value : Bytes

-- A field that is absent is empty.
pub record Binding : Type 0 where
  pub repository : Bytes
  pub revision : Bytes
  pub path : Bytes
  pub selector : Bytes

pub record RotationClaims : Type 0 where
  pub version : ℤ
  pub issuer : Bytes
  pub issued_at : Bytes
  pub operation : Bytes
  pub source_profile_id : Bytes
  pub destination_profile_id : Bytes
  pub input : Digest
  pub output : Digest
  pub binding : Option Binding

-- The fields of `url.URL` that are looked at, and what its method Hostname gives.
pub record Url : Type 0 where
  pub scheme : Bytes
  pub host : Bytes
  pub has_user : Bool
  pub opaque : Bytes
  pub path : Bytes
  pub raw_path : Bytes
  pub raw_query : Bytes
  pub force_query : Bool
  pub fragment : Bytes
  pub hostname : Bytes

-- `url.Parse`; `time.Parse` with RFC3339Nano and `Format` of what it gives with the same layout;
-- `json.Marshal` of a struct with these members; `jcs.Transform`; `ed25519.Sign` and `ed25519.Verify`
-- with the key first; SHA-256.
pub record External : Type 0 where
  pub parse_url : Bytes → Option Url
  pub reformat_time : Bytes → Option Bytes
  pub marshal : JsonValue → Option Bytes
  pub transform : Bytes → Option Bytes
  pub sign : Bytes → Bytes → Bytes
  pub verify : Bytes → Bytes → Bytes → Bool
  pub sha256 : Bytes → Bytes

-- A member of a struct that is left out when it is empty.
abbrev pub omit_empty : Bytes → Bytes → Members → Members
omit_empty name [] rest = rest
omit_empty name (c ∷ text) rest = with_member name (string (c ∷ text)) rest

-- The members of a Binding, by their tags.
unfoldable pub binding_value : Binding → JsonValue
binding_value b = object (
    omit_empty (codes "repository") b.repository (
      omit_empty (codes "revision") b.revision
        (omit_empty (codes "path") b.path (omit_empty (codes "selector") b.selector no_members))))

-- `unicode.IsControl` of a character, in UTF-8.
unfoldable pub has_control : Bytes → Bool
has_control [] = false
has_control (c ∷ []) = ltb c 0x20 || c == 0x7f
has_control (c ∷ d ∷ s) =
    ltb c 0x20 || c == 0x7f || (c == 0xc2 && within 0x80 0x9f d) || has_control (d ∷ s)

unfoldable pub valid_bound_string : Bytes → Bool
unfolding has_control
valid_bound_string text =
    not (is_empty text || ltb 1024 (length text) || not (valid text)) && not (has_control text)

all_lower_hex : Bytes → Bool
all_lower_hex [] = true
all_lower_hex (c ∷ s) = (within b'0' b'9' c || within b'a' b'f' c) && all_lower_hex s

unfoldable pub valid_lower_hex_digest : Bytes → Bool
unfolding all_lower_hex
valid_lower_hex_digest text = length text == 64 && all_lower_hex text

-- `strings.HasSuffix(value, "Z")`
ends_in_z : Bytes → Bool
ends_in_z [] = false
ends_in_z (c ∷ []) = c == b'Z'
ends_in_z (c ∷ d ∷ s) = ends_in_z (d ∷ s)

kid_character : ℕ → Bool
kid_character c =
    within b'A' b'Z' c
    || within b'a' b'z' c
    || within b'0' b'9' c
    || c == b'.'
    || c == b'_'
    || c == b'-'

all_kid_characters : Bytes → Bool
unfolding kid_character
all_kid_characters [] = true
all_kid_characters (c ∷ s) = kid_character c && all_kid_characters s

unfoldable pub valid_kid : Bytes → Bool
unfolding all_kid_characters
valid_kid text =
    not (length text == 0 || ltb 128 (length text) || not (valid text)) && all_kid_characters text

unfoldable pub validate_digest : Digest → Result AttestationError (Unit {0})
validate_digest d =
    guard
      (not (not (bytes_eq d.algorithm (codes "sha-256")) || not (valid_lower_hex_digest d.value)))
      malformed

-- The test that both loops over the fields make of one.
abbrev bound_field : Bytes → Bool
bound_field text = not (not (is_empty text) && not (valid_bound_string text))

abbrev bound_fields : Binding → Bool
bound_fields b =
    bound_field b.repository
    && bound_field b.revision
    && bound_field b.path
    && bound_field b.selector

abbrev all_empty : Binding → Bool
all_empty b = is_empty b.repository && is_empty b.revision && is_empty b.path && is_empty b.selector

unfoldable pub validate_binding_fields_only : Binding → Result AttestationError (Unit {0})
validate_binding_fields_only b = do
  guard (bound_fields b) malformed
  guard (not (all_empty b)) malformed
  ok tt

-- Neither negative nor above the greatest safe number.
abbrev pub safe_integer : ℤ → Bool
safe_integer (pos n) = not (ltb max_jcs_safe_integer n)
safe_integer (negsuc n) = false

-- The version is the supported one.
abbrev pub is_supported : ℤ → Bool
is_supported (pos n) = n == supported_version
is_supported (negsuc n) = false

module _ (e : External) where
  unfoldable pub valid_timestamp : Bytes → Bool
  unfolding ends_in_z
  valid_timestamp text =
      not (is_empty text || not (valid text) || not (ends_in_z text))
      && elim (e.reformat_time text) [ none ↦ false | some again ↦ bytes_eq again text ]

  valid_url : Url → Bool
  valid_url u =
      not (
        not (bytes_eq u.scheme (codes "https"))
        || is_empty u.host
        || u.has_user
        || not (is_empty u.opaque)
        || (not (is_empty u.path) && not (bytes_eq u.path (b'/' ∷ [])))
        || not (is_empty u.raw_path)
        || not (is_empty u.raw_query)
        || u.force_query
        || not (is_empty u.fragment))
      && not (is_empty u.hostname)

  unfoldable pub valid_issuer : Bytes → Bool
  unfolding valid_url
  valid_issuer text =
      not (is_empty text || not (valid text) || any (λ c. c == b'?' || c == b'#') text)
      && elim (e.parse_url text) [ none ↦ false | some u ↦ valid_url u ]

  unfoldable pub canonical_binding : Binding → Result AttestationError Bytes
  canonical_binding b = do
    validate_binding_fields_only b
    raw ← or_err (e.marshal (binding_value b)) malformed
    or_err (e.transform raw) malformed

  unfoldable pub validate_binding : Binding → Result AttestationError (Unit {0})
  validate_binding b = do
    guard (bound_fields b) malformed
    guard (not (all_empty b)) malformed
    canonical ← canonical_binding b
    guard (not (ltb 4096 (length canonical))) malformed

  -- Claims without a binding need none to be valid.
  abbrev pub validate_optional : Option Binding → Result AttestationError (Unit {0})
  validate_optional none = ok tt
  validate_optional (some b) = validate_binding b

  unfoldable pub validate_claims : RotationClaims → Result AttestationError (Unit {0})
  validate_claims c = do
    guard (safe_integer c.version) malformed
    guard (not (not (valid_issuer c.issuer) || not (valid_timestamp c.issued_at))) malformed
    guard (bytes_eq c.operation (codes "rotate")) malformed
    guard
        (not (
          not (is_valid_profile_id c.source_profile_id)
          || not (is_valid_profile_id c.destination_profile_id)))
        malformed
    validate_digest c.input
    validate_digest c.output
    validate_optional c.binding

  unfoldable pub validate_signing_claims : RotationClaims → Result AttestationError (Unit {0})
  validate_signing_claims c = do validate_claims c; guard (is_supported c.version) malformed
