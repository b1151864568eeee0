-- ===== src/Attestation/Protocol/RoundTrip.antt =====
-- Sign and Verify of protocol.go together.
use vaultsmith.Base.{
  pos, ◌≡◌, refl, subst, true, false, ◌==◌, [], ◌∷◌, bytes_eq, bytes_eq_refl, codes, is_empty,
  Bytes, AreBytes, length, Option, some, Result, ok, ◌>>=◌, guard, or_err, or_err-eq-ok,
  or_err_then, with_error, with_error-eq-ok, bind-eq-ok, guard_then, guard_iff, arith,
}
use vaultsmith.Text.Base64
use vaultsmith.Text.Utf8.{valid}
use vaultsmith.Attestation.Json.{JsonValue, member, find_member, has_only_members, all_allowed}
use vaultsmith.Attestation.Json.Text.{skip_whitespace}
use vaultsmith.Attestation.Json.Parse.{parse_value, dispatch, parse_with, parse_strict_json}
use vaultsmith.Attestation.Json.Alike.{Alike, has_only_members-Alike}
use vaultsmith.Attestation.Errors.{AttestationError, malformed, invalid_signing_key}
use vaultsmith.Attestation.Claims.{
  RotationClaims, External, valid_kid, is_supported, validate_claims, validate_signing_claims,
}
use vaultsmith.Attestation.Claims.Parse.{
  required_string_member, parse_claims, parse_canonical_claims,
}
use vaultsmith.Attestation.Claims.Values.{claims_value, canonical_claims}
use vaultsmith.Attestation.Claims.Alike.{required_string_member-Alike, claims_of-Alike}
use vaultsmith.Attestation.Claims.RoundTrip.{claims_of-claims_value}
use vaultsmith.Attestation.Digest.{input_digest, output_digest}
use vaultsmith.Attestation.Jws.{Signed, encode_base64url}
use vaultsmith.Attestation.Protocol.{
  KeyResolution, VerifyOptions, header_value, signing_header, signing_input, protected_members,
  strings_equal_fold_ascii, canonical_protected_header, parse_canonical_protected,
  validate_verify_options, sign, verify,
}
use vaultsmith.Attestation.Protocol.Accepted.{
  DigestAgrees, BindingAgrees, verify_iff, is_supported_iff,
}

-- What RFC 8785 says of the canonical text of a value: it consists of bytes, it is its own canonical
-- text, and it holds the value, with its members in another order perhaps.
pub record Writes (e : External) (v : JsonValue) : Type 0 where
  pub text-AreBytes :
      (raw text : Bytes) → e.marshal v ≡ some raw → e.transform raw ≡ some text → AreBytes text
  pub text_again :
      (raw text : Bytes)
      → e.marshal v ≡ some raw
      → e.transform raw ≡ some text
      → e.transform text ≡ some text
  pub text-Alike :
      (raw text : Bytes)
      → e.marshal v ≡ some raw
      → e.transform raw ≡ some text
      → (w : JsonValue) × (parse_strict_json text ≡ ok w) × Alike w v

-- What RFC 8032 says of signatures with the two keys of a pair.
pub record KeyPair (e : External) (private_key public_key : Bytes) : Type 0 where
  pub length-sign : (message : Bytes) → length (e.sign private_key message) ≡ 64
  pub sign-AreBytes : (message : Bytes) → AreBytes (e.sign private_key message)
  pub verify-sign :
      (message : Bytes) → e.verify public_key message (e.sign private_key message) ≡ true

full_text : (text : Bytes) (v : JsonValue) → parse_strict_json text ≡ ok v → is_empty text ≡ false
unfolding parse_strict_json parse_with parse_value dispatch skip_whitespace valid
full_text [] v h = cc
full_text (c ∷ text) v h = refl

-- What the canonical text of a value is, from the result of writing it.
record Written (e : External) (v : JsonValue) (text : Bytes) : Type 0 where
  bytes : AreBytes text
  full : is_empty text ≡ false
  again : e.transform text ≡ some text
  value : JsonValue
  parsed : parse_strict_json text ≡ ok value
  alike : Alike value v

written :
    (e : External) (v : JsonValue) (text : Bytes)
    → Writes e v
    → (or_err (e.marshal v) malformed >>= λ raw. or_err (e.transform raw) malformed) ≡ ok text
    → Written e v text
written e v text laws h =
    let (raw, m, h₁) = or_err_then (e.marshal v) malformed _ h in
    let t = or_err-eq-ok (e.transform raw) malformed h₁ in
    let (w, parsed, alike) = laws.text-Alike raw text m t in
    record {
      bytes = laws.text-AreBytes raw text m t;
      full = full_text text w parsed;
      again = laws.text_again raw text m t;
      value = w;
      parsed = parsed;
      alike = alike;
    }

not_empty : (s : Bytes) → length s ≡ 64 → is_empty s ≡ false
not_empty [] h = absurd (omega (arith, h))
not_empty (c ∷ s) h = refl

module _ (e : External) where
  header_read :
      (kid text : Bytes)
      → valid_kid kid ≡ true
      → Written e (header_value (signing_header kid)) text
      → parse_canonical_protected e text ≡ ok (signing_header kid)
  unfolding parse_canonical_protected header_value required_string_member member find_member
      has_only_members all_allowed bytes_eq strings_equal_fold_ascii
  header_read kid text h w = rw (
    w.parsed,
    has_only_members-Alike w.alike protected_members,
    required_string_member-Alike w.alike (codes "alg"),
    required_string_member-Alike w.alike (codes "kid"),
    required_string_member-Alike w.alike (codes "typ"),
    h,
    w.again,
    bytes_eq_refl text,
  )

  claims_read :
      (c : RotationClaims) (text : Bytes)
      → c.version ≡ pos 1
      → validate_claims e c ≡ ok tt
      → Written e (claims_value c) text
      → parse_canonical_claims e text ≡ ok c
  unfolding parse_canonical_claims parse_claims
  claims_read c text v h w = rw (
    w.parsed,
    claims_of-Alike e w.alike,
    claims_of-claims_value e c v h,
    w.again,
    bytes_eq_refl text,
  )

  -- What a signed object is, from the result of signing.
  record SignedAs (claims : RotationClaims) (kid private_key : Bytes) (signed : Signed)
      : Type 0 where
    valid_claims : validate_claims e claims ≡ ok tt
    version : claims.version ≡ pos 1
    kid_valid : valid_kid kid ≡ true
    header_bytes : Bytes
    payload_bytes : Bytes
    header_written : canonical_protected_header e (signing_header kid) ≡ ok header_bytes
    payload_written : canonical_claims e claims ≡ ok payload_bytes
    protected_text : signed.protected ≡ Base64.encode header_bytes
    payload_text : signed.payload ≡ Base64.encode payload_bytes
    signature_text :
        signed.signature
        ≡ Base64.encode (e.sign private_key (signing_input signed.protected signed.payload))

  sign-SignedAs :
      (claims : RotationClaims) (kid private_key : Bytes) (signed : Signed)
      → sign e claims kid private_key ≡ ok signed
      → SignedAs claims kid private_key signed
  unfolding sign validate_signing_claims encode_base64url
  sign-SignedAs claims kid private_key signed h =
      let (u, checked, h₁) =
        bind-eq-ok (with_error malformed (validate_signing_claims e claims)) _ h in
      let (v, claims_ok, supported) =
        bind-eq-ok (validate_claims e claims) (λ _. guard (is_supported claims.version) malformed)
          (with_error-eq-ok malformed (validate_signing_claims e claims) checked) in
      let (kid_ok, h₂) = guard_then (valid_kid kid) malformed _ h₁ in
      let (long, h₃) = guard_then (length private_key == 64) invalid_signing_key _ h₂ in
      let (header, header_ok, h₄) =
        bind-eq-ok (with_error malformed (canonical_protected_header e (signing_header kid))) _
          h₃ in
      let (payload, payload_ok, h₅) =
        bind-eq-ok (with_error malformed (canonical_claims e claims)) _ h₄ in
      subst (SignedAs claims kid private_key) (ok_injective h₅) record {
        valid_claims = claims_ok;
        version = (is_supported_iff claims.version).0 ((guard_iff _ malformed).0 supported);
        kid_valid = kid_ok;
        header_bytes = header;
        payload_bytes = payload;
        header_written =
            with_error-eq-ok malformed (canonical_protected_header e (signing_header kid))
              header_ok;
        payload_written = with_error-eq-ok malformed (canonical_claims e claims) payload_ok;
        protected_text = refl;
        payload_text = refl;
        signature_text = refl;
      }
    where
      ok_injective : {s t : Signed} → ◌≡◌ {A = Result AttestationError Signed} (ok s) (ok t) → s ≡ t
      ok_injective h = cc

  -- Verify accepts what Sign signed and gives the claims back, whenever the texts that are written
  -- for the header and the claims are canonical and hold them, the keys are a pair, the resolver has
  -- for the issuer and the kid the public key, of 32 bytes and not revoked, the issuer is the
  -- expected one, and the valid options ask for no digest and no binding that the claims do not have.
  pub verify-sign :
      (claims : RotationClaims) (kid private_key : Bytes) (key : KeyResolution) (signed : Signed)
      (o : VerifyOptions) (resolver : Bytes → Bytes → Option KeyResolution)
      → Writes e (header_value (signing_header kid))
      → Writes e (claims_value claims)
      → KeyPair e private_key key.public_key
      → sign e claims kid private_key ≡ ok signed
      → validate_verify_options e o ≡ ok resolver
      → claims.issuer ≡ o.expected_issuer
      → resolver claims.issuer kid ≡ some key
      → key.revoked ≡ false
      → length key.public_key ≡ 32
      → DigestAgrees
          (input_digest e.sha256)
          o.input_vault_text
          o.expected_input_digest
          claims.input.value
      → DigestAgrees
          (output_digest e.sha256)
          o.output_vault_text
          o.expected_output_digest
          claims.output.value
      → BindingAgrees o.expected_binding claims.binding
      → verify e signed o ≡ ok claims
  unfolding canonical_protected_header canonical_claims
  verify-sign claims kid private_key key signed o resolver header_laws claims_laws pair h options
        issuer resolved usable long input output binding =
      let s = sign-SignedAs claims kid private_key signed h in
      let header = written e _ s.header_bytes header_laws s.header_written in
      let (u, checked, rest) =
        bind-eq-ok (with_error malformed (validate_claims e claims)) _ s.payload_written in
      let payload = written e _ s.payload_bytes claims_laws rest in
      let message = signing_input signed.protected signed.payload in
      (verify_iff e signed o claims).1 record {
        authentic = record {
          resolver = resolver;
          options = options;
          parts = record {
            protected_bytes = s.header_bytes;
            payload_bytes = s.payload_bytes;
            signature_bytes = e.sign private_key message;
          };
          protected = (header.bytes, header.full, s.protected_text);
          payload = (payload.bytes, payload.full, s.payload_text);
          signature = (
            pair.sign-AreBytes message,
            not_empty _ (pair.length-sign message),
            s.signature_text,
          );
          length-signature = pair.length-sign message;
          header = signing_header kid;
          header_lem = header_read kid s.header_bytes s.kid_valid header;
          claims_lem = claims_read claims s.payload_bytes s.version s.valid_claims payload;
          issuer = issuer;
          resolution = key;
          resolved = resolved;
          length-key = long;
          verified = pair.verify-sign message;
          state = usable;
        };
        version = s.version;
        input = input;
        output = output;
        binding = binding;
      }
