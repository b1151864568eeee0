-- ===== src/Attestation/Examples.antt =====
-- Tests of the attestations on concrete texts, and the theorems at concrete inputs.
use vaultsmith.Base.{
  ℕ, ltb, ap, ◌∙◌, ◌&&◌, bytes_eq_refl, length-replicate, ◌<◌, ◌%◌, ◌≡◌, ◌↔◌, ◌⊎◌, refl, sym, subst,
  pos, Bool, true, false, [], ◌∷◌, ◌++◌, All-replicate, arith, some, none, bytes_eq, codes, Bytes,
  AreBytes, replicate, length, is_empty, ok, err,
}
use vaultsmith.Text.Cut
use vaultsmith.Text.Hex
use vaultsmith.Text.Base64
use vaultsmith.Text.Space.{trim_space}
use vaultsmith.Text.Utf8.{valid, lead, step}
use vaultsmith.Text.Runes.{decode_rune, encode_rune}
use vaultsmith.Config.{is_valid_profile_id}
use vaultsmith.Vault.Header.{validate_vault_id, header11, is_supported_header}
use vaultsmith.Vault.Envelope.{
  serialize_vault_envelope, parse_envelope, parse_payload, wrap, collect, is_hex,
}
use vaultsmith.Vault.Cipher.{inner}
use vaultsmith.Vault.Canonical.{lower, canonical_envelope}
use vaultsmith.Attestation.Json.{
  invalid_json, out_of_fuel, JsonValue, object, array, string, number, boolean, null, no_members,
  with_member, no_items, with_item, find_member, member, has_only_members,
}
use vaultsmith.Attestation.Json.Text.{
  skip_whitespace, consume, consume_literal, parse_unicode_escape, parse_escape, parse_character,
  string_loop, take_digits, parse_number,
}
use vaultsmith.Attestation.Json.Parse.{
  at_end, parse_string, parse_scalar, parse_name, member_loop, item_loop, parse_object, parse_array,
  dispatch, parse_container, parse_value, parse_with, parse_strict_json,
}
use vaultsmith.Attestation.Json.Parse.Fuel.{parse_strict_json_fuel}
use vaultsmith.Attestation.Json.Parse.Strict.{Strict, parse_strict_json-Strict}
use vaultsmith.Attestation.Errors.{key_revoked}
use vaultsmith.Attestation.Claims.{
  Digest, RotationClaims, External, valid_kid, valid_timestamp, valid_issuer,
  valid_lower_hex_digest, validate_digest, validate_claims, validate_signing_claims,
}
use vaultsmith.Attestation.Claims.Parse.{
  valid_version_number, parse_int, required_string_member, parse_digest, claims_of, parse_claims,
  parse_canonical_claims,
}
use vaultsmith.Attestation.Claims.Values.{claims_value, canonical_claims, format_int, digest_value}
use vaultsmith.Attestation.Digest.{digest_canonical, input_digest, output_digest}
use vaultsmith.Attestation.Digest.Roles.{
  Role, input_role, Collision, digest_of, digest_of-Collision,
}
use vaultsmith.Attestation.Jws.{
  Signed, encode_base64url, decode_strict_base64url, decode_encoded_components,
}
use vaultsmith.Attestation.Jws.Encoding.{decode_strict_base64url_iff}
use vaultsmith.Attestation.Protocol.{
  KeyResolution, VerifyOptions, beside, strings_equal_fold_ascii, signing_input,
  parse_canonical_protected, validate_verify_options, authenticate, check_digest, check_claims,
  verify, header_value, signing_header, sign, canonical_protected_header,
}
use vaultsmith.Attestation.Protocol.Authentic.{Authentic}
use vaultsmith.Attestation.Protocol.Accepted.{DigestAgrees, Accepted, verify_iff}
use vaultsmith.Attestation.Json.Alike.{same}
use vaultsmith.Attestation.Protocol.RoundTrip.{Writes, KeyPair, verify-sign}
use vaultsmith.Attestation.Protocol.Returned.{Returned, refused, verify-Returned}

abbrev nested_text : Bytes
nested_text = codes " {\"a\": [1, -2.5e+3, \"x\\u0041\\n\"], \"b\": {}, \"c\": null, \"d\": true}\n"

abbrev nested_value : JsonValue
nested_value = object (
    with_member (codes "a")
      (array (
        with_item (number (codes "1")) (
          with_item (number (codes "-2.5e+3"))
            (with_item (string (b'x' ∷ b'A' ∷ b'\n' ∷ [])) no_items))))
      (with_member (codes "b") (object no_members)
        (with_member (codes "c") null (with_member (codes "d") (boolean true) no_members))))

-- Opens the parser for the tests below.
json_syntax : Unit {0}
unfolding parse_strict_json parse_with valid parse_value dispatch skip_whitespace parse_container
    parse_object consume member_loop parse_name parse_string string_loop parse_character decode_rune
    parse_array item_loop parse_scalar at_end consume_literal parse_escape parse_number
    parse_unicode_escape take_digits bytes_eq Hex.decode Hex.value encode_rune lead step
json_syntax = tt

nested : parse_strict_json nested_text ≡ ok nested_value
unfolding json_syntax
nested = refl

duplicate : parse_strict_json (codes "{\"a\":1,\"a\":2}") ≡ err invalid_json
unfolding json_syntax
duplicate = refl

too_deep : parse_strict_json (codes "[[[]]]") ≡ err invalid_json
unfolding json_syntax
too_deep = refl

parse_strict_json_fuel_example :
    (¬ (parse_strict_json nested_text ≡ err out_of_fuel))
    × ((extra : ℕ) → parse_with extra nested_text ≡ parse_strict_json nested_text)
parse_strict_json_fuel_example = parse_strict_json_fuel nested_text

parse_strict_json-Strict_example : Strict 2 nested_value
parse_strict_json-Strict_example = parse_strict_json-Strict nested_text nested_value nested

abbrev three_bytes : Bytes
three_bytes = 1 ∷ 2 ∷ 3 ∷ []

decode_strict_base64url_iff_example : (decode_strict_base64url (codes "AQID") ≡ ok three_bytes) ↔ (
    AreBytes three_bytes
    × (is_empty three_bytes ≡ false)
    × (codes "AQID" ≡ Base64.encode three_bytes))
decode_strict_base64url_iff_example = decode_strict_base64url_iff (codes "AQID") three_bytes

-- An envelope, and a hash that is always the same.
abbrev pub envelope_text : Bytes
envelope_text =
    serialize_vault_envelope header11
      (Hex.encode (inner (replicate 32 9) (replicate 32 16) (replicate 16 7)))

abbrev pub constant_hash : Bytes → Bytes
constant_hash message = replicate 32 1

abbrev pub hash_text : Bytes
hash_text = Hex.encode (replicate 32 1)

-- Opens the envelopes.
envelope_format : Unit {0}
unfolding parse_envelope parse_payload serialize_vault_envelope wrap collect is_hex Cut.contains
    Cut.cut Cut.split Cut.split_n Cut.replace_crlf Cut.trim_newline Hex.encode Hex.decode Hex.value
    Hex.is_digit trim_space validate_vault_id is_supported_header bytes_eq inner valid lower
    canonical_envelope
envelope_format = tt

envelope_digest : digest_of constant_hash input_role envelope_text ≡ ok hash_text
unfolding envelope_format input_digest digest_canonical
envelope_digest = refl

digest_of-Collision_example :
    (◌≡◌ {A = Role} input_role input_role
      × (canonical_envelope envelope_text ≡ canonical_envelope envelope_text))
    ⊎ Collision constant_hash
digest_of-Collision_example =
    digest_of-Collision constant_hash (λ m. All-replicate (λ c. c < 256) 32 1 (omega arith))
      input_role input_role envelope_text envelope_text hash_text envelope_digest envelope_digest

abbrev digest_text : Bytes
digest_text = codes "{\"algorithm\":\"sha-256\",\"digest\":\"" ++ hash_text ++ codes "\"}"

abbrev claims_text : Bytes
claims_text =
    codes
      "{\"version\":1,\"issuer\":\"https://a\",\"issuedAt\":\"2024-01-02T03:04:05Z\",\"operation\":\"rotate\","
    ++ codes "\"sourceProfileId\":\"a\",\"destinationProfileId\":\"b\",\"input\":"
    ++ digest_text
    ++ codes ",\"output\":"
    ++ digest_text
    ++ codes "}"

abbrev header_text : Bytes
header_text =
    codes
      "{\"alg\":\"Ed25519\",\"kid\":\"k\",\"typ\":\"application/vaultsmith-rotation-attestation+json\"}"

-- Every URL is an HTTPS one and every time is written as it should be; two values can be written, and
-- every text is canonical; a signature is the length of the message, many times.
abbrev pub toy : External
toy = record {
  parse_url = λ text. some record {
    scheme = codes "https";
    host = codes "a";
    has_user = false;
    opaque = [];
    path = [];
    raw_path = [];
    raw_query = [];
    force_query = false;
    fragment = [];
    hostname = codes "a";
  };
  reformat_time = λ text. some text;
  marshal =
      λ v. elim (member v (codes "alg")) [ some kid ↦ some header_text | none ↦ some claims_text ];
  transform = λ text. some text;
  sign = λ key message. replicate 64 (length message % 256);
  verify = λ key message signature. bytes_eq signature (replicate 64 (length message % 256));
  sha256 = constant_hash;
}

abbrev pub digest : Digest
digest = record { algorithm = codes "sha-256"; value = hash_text }

abbrev pub claims : RotationClaims
claims = record {
  version = pos 1;
  issuer = codes "https://a";
  issued_at = codes "2024-01-02T03:04:05Z";
  operation = codes "rotate";
  source_profile_id = codes "a";
  destination_profile_id = codes "b";
  input = digest;
  output = digest;
  binding = none;
}

claims_parse : parse_canonical_claims toy claims_text ≡ ok claims
unfolding json_syntax envelope_format parse_canonical_claims parse_claims claims_of has_only_members
    member find_member valid_version_number parse_int required_string_member parse_digest
    validate_digest valid_lower_hex_digest validate_claims valid_issuer valid_timestamp
    is_valid_profile_id
claims_parse = refl

abbrev pub signed : Signed
signed = record {
  protected = Base64.encode header_text;
  payload = Base64.encode claims_text;
  signature =
      Base64.encode
        (toy.sign [] (signing_input (Base64.encode header_text) (Base64.encode claims_text)));
}

-- One key, which is revoked or not.
abbrev pub options : Bool → VerifyOptions
options revoked = record {
  expected_issuer = codes "https://a";
  resolver = some (λ issuer kid. some record { public_key = replicate 32 0; revoked = revoked });
  expected_input_digest = hash_text;
  expected_output_digest = [];
  input_vault_text = [];
  output_vault_text = envelope_text;
  expected_binding = none;
}

-- Opens the protocol.
protocol : Unit {0}
unfolding json_syntax envelope_format claims_parse Base64.encode Base64.decode
    decode_strict_base64url decode_encoded_components strings_equal_fold_ascii
    parse_canonical_protected valid_kid validate_verify_options authenticate check_digest
    check_claims verify input_digest output_digest digest_canonical
protocol = tt

accepts : verify toy signed (options false) ≡ ok claims
unfolding protocol
accepts = refl

refuses : verify toy signed (options true) ≡ err (beside claims key_revoked)
unfolding protocol
refuses = refl

verify_iff_example :
    (verify toy signed (options false) ≡ ok claims) ↔ Accepted toy signed (options false) claims
verify_iff_example = verify_iff toy signed (options false) claims

verify-Returned_example : (revoked : Bool) × Authentic toy signed (options true) claims revoked
verify-Returned_example =
    verify-Returned toy signed (options true) claims
      (subst (Returned claims) (sym refuses) (refused refl))

all_bytes : Bytes → Bool
all_bytes [] = true
all_bytes (c ∷ s) = ltb c 256 && all_bytes s

all_bytes-AreBytes : (s : Bytes) → all_bytes s ≡ true → AreBytes s
unfolding all_bytes
all_bytes-AreBytes [] h = tt
all_bytes-AreBytes (c ∷ s) h = (ground arith, all_bytes-AreBytes s (ground arith))

-- What the primitives above write is as they should write it, if the parser reads it.
toy-Writes :
    (v : JsonValue) (t : Bytes)
    → toy.marshal v ≡ some t
    → all_bytes t ≡ true
    → parse_strict_json t ≡ ok v
    → Writes toy v
toy-Writes v t m b h = record {
  text-AreBytes =
      λ raw text m₁ t₁. subst AreBytes (written raw text m₁ t₁) (all_bytes-AreBytes t b);
  text_again = λ raw text m₁ t₁. refl;
  text-Alike = λ raw text m₁ t₁. (v, ap parse_strict_json (sym (written raw text m₁ t₁)) ∙ h, same);
}
  where
    written :
        (raw text : Bytes) → toy.marshal v ≡ some raw → toy.transform raw ≡ some text → t ≡ text
    written raw text m₁ t₁ = let e : some t ≡ some text = sym m ∙ m₁ ∙ t₁ in ground arith

pub toy_header : Writes toy (header_value (signing_header (codes "k")))
unfolding protocol header_value all_bytes
toy_header = toy-Writes _ header_text refl refl refl

pub toy_claims : Writes toy (claims_value claims)
unfolding protocol claims_value all_bytes format_int digest_value
toy_claims = toy-Writes _ claims_text refl refl refl

toy_pair : KeyPair toy (replicate 64 0) (replicate 32 0)
toy_pair = record {
  length-sign = λ message. length-replicate 64 (length message % 256);
  sign-AreBytes = λ message. All-replicate (λ c. c < 256) 64 (length message % 256) (omega arith);
  verify-sign = λ message. bytes_eq_refl (replicate 64 (length message % 256));
}

-- Opens Sign.
unfoldable pub toy_signs : Unit {0}
unfolding protocol sign encode_base64url validate_signing_claims canonical_protected_header
    canonical_claims header_value claims_value format_int digest_value
toy_signs = tt

signs : sign toy claims (codes "k") (replicate 64 0) ≡ ok signed
unfolding toy_signs
signs = refl

abbrev the_key : KeyResolution
the_key = record { public_key = replicate 32 0; revoked = false }

valid_options : validate_verify_options toy (options false) ≡ ok (λ issuer kid. some the_key)
unfolding protocol
valid_options = refl

output_agrees : DigestAgrees (output_digest toy.sha256) envelope_text [] hash_text
unfolding protocol
output_agrees = refl

verify-sign_example : verify toy signed (options false) ≡ ok claims
verify-sign_example =
    verify-sign toy claims (codes "k") (replicate 64 0) the_key signed (options false)
      (λ issuer kid. some the_key) toy_header toy_claims toy_pair signs valid_options refl refl refl
      refl (λ h. refl) output_agrees tt
