-- ===== src/Keyring/Examples.antt =====
-- Tests of a keyring with one active and one revoked key, and the theorems at it.
use vaultsmith.Base.{
  ◌<◌, ◌%◌, ◌≡◌, ◌↔◌, refl, false, [], ◌∷◌, ◌++◌, All-replicate, length-replicate, arith, some,
  none, bytes_eq, bytes_eq_refl, codes, Bytes, drop, replicate, length, ok, err, List,
}
use vaultsmith.Text.Base64
use vaultsmith.Text.Utf8.{valid}
use vaultsmith.Attestation.Json.{
  JsonValue, object, array, string, number, no_members, with_member, no_items, with_item,
  find_member, member, has_only_members,
}
use vaultsmith.Attestation.Claims.{has_control, valid_kid}
use vaultsmith.Attestation.Examples.{toy, claims, signed, toy_header, toy_claims, toy_signs}
use vaultsmith.Attestation.Protocol.{KeyResolution, VerifyOptions, validate_verify_options, verify}
use vaultsmith.Attestation.Protocol.RoundTrip.{KeyPair}
use vaultsmith.Keyring.{
  active, revoked, unknown_key, KeyEntry, Snapshot, find_entry, active_count, insert, sort,
  required_string, decode_key_material, seed_from, parse_key_entry, parse_keys, canonical_issuer,
  parse, sign, resolve, resolver,
}
use vaultsmith.Keyring.Discovery.{Jwk, jwk, published, jwks}
use vaultsmith.Keyring.Valid.{ValidSnapshot, parse-ValidSnapshot}
use vaultsmith.Keyring.Signs.{verify-keyring_sign}
use vaultsmith.Keyring.Published.{Among, jwks_iff}

abbrev toy_key : Bytes → Bytes
toy_key seed = seed ++ replicate 32 0

abbrev same_case : Bytes → Bytes
same_case text = text

abbrev document : JsonValue
document = object (
    with_member (codes "version") (number (codes "1")) (
      with_member (codes "active") (string (codes "k")) (
        with_member (codes "keys")
          (array (
            with_item
              (object (
                with_member (codes "id") (string (codes "k")) (
                  with_member (codes "state") (string (codes "active")) (
                    with_member (codes "publicKey") (string (Base64.encode (replicate 32 0))) (
                      with_member (codes "privateKey") (string (Base64.encode (replicate 32 5)))
                        no_members)))))
              (with_item
                (object (
                  with_member (codes "id") (string (codes "b")) (
                    with_member (codes "state") (string (codes "revoked")) (
                      with_member (codes "publicKey") (string (Base64.encode (replicate 32 1)))
                        no_members))))
                no_items)))
          no_members)))

abbrev active_entry : KeyEntry
active_entry = record {
  id = codes "k";
  state = active;
  public_key = replicate 32 0;
  seed = some (replicate 32 5);
}

abbrev revoked_entry : KeyEntry
revoked_entry = record { id = codes "b"; state = revoked; public_key = replicate 32 1; seed = none }

abbrev snapshot : Snapshot
snapshot = record {
  issuer = codes "https://a";
  active = codes "k";
  keys = revoked_entry ∷ active_entry ∷ [];
  ordered_ids = codes "b" ∷ codes "k" ∷ [];
  content_hash = replicate 32 1;
}

-- Opens the keyring.
keyring : Unit {0}
unfolding parse parse_keys parse_key_entry seed_from decode_key_material required_string find_entry
    active_count insert sort canonical_issuer has_control has_only_members member find_member
    bytes_eq valid_kid valid Base64.encode Base64.decode resolve
keyring = tt

parses : parse toy toy_key same_case [] (some document) (codes "https://a") ≡ ok snapshot
unfolding keyring
parses = refl

parse-ValidSnapshot_example : ValidSnapshot toy_key snapshot
parse-ValidSnapshot_example =
    parse-ValidSnapshot toy toy_key same_case [] (some document) (codes "https://a") snapshot parses

refuses_unknown : resolve snapshot (codes "https://a") (codes "x") ≡ err unknown_key
unfolding keyring
refuses_unknown = refl

abbrev key_set : List Jwk
key_set = jwk (codes "k") (replicate 32 0) ∷ []

publishes : jwks snapshot ≡ key_set
unfolding keyring jwks published
publishes = refl

jwks_iff_example : Among (jwk (codes "k") (replicate 32 0)) (jwks snapshot) ↔ (
    (kid : Bytes) × (r : KeyResolution) × (resolve snapshot (codes "https://a") kid ≡ ok r)
    × (r.revoked ≡ false)
    × (jwk (codes "k") (replicate 32 0) ≡ jwk kid r.public_key))
jwks_iff_example =
    jwks_iff toy toy_key same_case [] (some document) (codes "https://a") snapshot
      (jwk (codes "k") (replicate 32 0)) parses

abbrev keyring_options : VerifyOptions
keyring_options = record {
  expected_issuer = codes "https://a";
  resolver = some (resolver snapshot);
  expected_input_digest = [];
  expected_output_digest = [];
  input_vault_text = [];
  output_vault_text = [];
  expected_binding = none;
}

toy_pairs : (seed : Bytes) → length seed ≡ 32 → KeyPair toy (toy_key seed) (drop 32 (toy_key seed))
toy_pairs seed h = record {
  length-sign = λ message. length-replicate 64 (length message % 256);
  sign-AreBytes = λ message. All-replicate (λ c. c < 256) 64 (length message % 256) (omega arith);
  verify-sign = λ message. bytes_eq_refl (replicate 64 (length message % 256));
}

signs : sign toy toy_key same_case snapshot claims ≡ ok signed
unfolding keyring toy_signs sign
signs = refl

valid_options : validate_verify_options toy keyring_options ≡ ok (resolver snapshot)
unfolding keyring toy_signs validate_verify_options
valid_options = refl

verify-keyring_sign_example : verify toy signed keyring_options ≡ ok claims
verify-keyring_sign_example =
    verify-keyring_sign toy toy_key same_case [] (some document) (codes "https://a") snapshot claims
      signed keyring_options parses toy_header toy_claims toy_pairs signs valid_options refl
      (λ h. cc) (λ h. cc) tt
