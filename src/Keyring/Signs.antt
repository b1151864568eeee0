-- ===== src/Keyring/Signs.antt =====
-- Sign of a keyring and Verify of protocol.go together.
use vaultsmith.Base.{
  ◌≡◌, refl, sym, ap, ◌∙◌, subst, drop, bytes_eq, bytes_eq_iff, Bytes, length, Option, none, some,
  Result, ok, err, or_err_then, guard_then, map_error,
}
use vaultsmith.Attestation.Json.{JsonValue}
use vaultsmith.Attestation.Errors.{AttestationError}
use vaultsmith.Attestation.Claims.{RotationClaims, External}
use vaultsmith.Attestation.Claims.Values.{claims_value}
use vaultsmith.Attestation.Digest.{input_digest, output_digest}
use vaultsmith.Attestation.Jws.{Signed}
use vaultsmith.Attestation.Protocol
use vaultsmith.Attestation.Protocol.{
  KeyResolution, VerifyOptions, header_value, signing_header, validate_verify_options, verify,
}
use vaultsmith.Attestation.Protocol.Accepted.{DigestAgrees, BindingAgrees}
use vaultsmith.Attestation.Protocol.RoundTrip.{Writes, KeyPair, verify-sign}
use vaultsmith.Keyring.{
  issuer_mismatch, not_ready, not_signed, KeyState, active, retired, revoked, KeyEntry, Snapshot,
  find_entry, is_revoked, parse, sign, resolver,
}
use vaultsmith.Keyring.Valid.{SeedFits, ValidEntry, parse-ValidSnapshot}
use vaultsmith.Keyring.Lookup.{find_entry-ValidEntry, resolve-find_entry}

some_injective : {a b : Bytes} → ◌≡◌ {A = Option Bytes} (some a) (some b) → a ≡ b
some_injective h = cc

module _ (e : External) (new_key to_lower : Bytes → Bytes) where
  signed_by :
      (s : Snapshot) (claims : RotationClaims) (signed : Signed)
      → sign e new_key to_lower s claims ≡ ok signed
      → (k : KeyEntry) × (seed : Bytes) × (claims.issuer ≡ s.issuer)
        × (find_entry s.active s.keys ≡ some k)
        × (k.seed ≡ some seed)
        × (Protocol.sign e claims k.id (new_key seed) ≡ ok signed)
  unfolding sign
  signed_by s claims signed h =
      let (issuer, h₁) = guard_then (bytes_eq claims.issuer s.issuer) issuer_mismatch _ h in
      let (k, found, h₂) = or_err_then (find_entry s.active s.keys) not_ready _ h₁ in
      let (seed, has, h₃) = or_err_then k.seed not_ready _ h₂ in
      (
        k,
        seed,
        (bytes_eq_iff _ _).0 issuer,
        found,
        has,
        signed_ok (Protocol.sign e claims k.id (new_key seed)) h₃,
      )
    where
      signed_ok :
          (r : Result AttestationError Signed) → map_error not_signed r ≡ ok signed → r ≡ ok signed
      signed_ok (ok t) h = let same : t ≡ signed = cc in ap ok same
      signed_ok (err f) h = cc

  -- An entry with a seed is active, and the seed makes its public key.
  seed_active :
      (k : KeyEntry) (seed : Bytes)
      → ValidEntry new_key k
      → k.seed ≡ some seed
      → (k.state ≡ active) × (length seed ≡ 32) × (drop 32 (new_key seed) ≡ k.public_key)
  seed_active k seed valid has = split k.state refl valid.seed
    where
      split :
          (state : KeyState)
          → k.state ≡ state
          → SeedFits new_key state k.public_key k.seed
          → (k.state ≡ active) × (length seed ≡ 32) × (drop 32 (new_key seed) ≡ k.public_key)
      split active e (made, is, long, makes) =
          let same : made ≡ seed = some_injective (sym is ∙ has) in
          (e, sym (ap length same) ∙ long, sym (ap (λ t. drop 32 (new_key t)) same) ∙ makes)
      split retired e none_has = cc
      split revoked e none_has = cc

  -- Verify with a parsed keyring as the resolver accepts what the same keyring signs and gives the
  -- claims back, whenever the texts that are written for the header and the claims are canonical and
  -- hold them, a key made from a seed of 32 bytes and its own last 32 bytes are a pair, the issuer is
  -- the expected one, and the valid options ask for no digest and no binding that the claims do not
  -- have.
  pub verify-keyring_sign :
      (text : Bytes) (value : Option JsonValue) (issuer : Bytes) (s : Snapshot)
      (claims : RotationClaims) (signed : Signed) (o : VerifyOptions)
      → parse e new_key to_lower text value issuer ≡ ok s
      → Writes e (header_value (signing_header s.active))
      → Writes e (claims_value claims)
      → ((seed : Bytes) → length seed ≡ 32 → KeyPair e (new_key seed) (drop 32 (new_key seed)))
      → sign e new_key to_lower s claims ≡ ok signed
      → validate_verify_options e o ≡ ok (resolver s)
      → claims.issuer ≡ o.expected_issuer
      → DigestAgrees
          (input_digest e.sha256)
          o.input_vault_text
          o.expected_input_digest
          claims.input.value
      → DigestAgrees
          (output_digest e.sha256)
          o.output_vault_text
          o.expected_output_digest
          claims.output.value
      → BindingAgrees o.expected_binding claims.binding
      → verify e signed o ≡ ok claims
  verify-keyring_sign text value issuer s claims signed o parsed header_laws claims_laws pairs h
        options same_issuer input output binding =
      let valid = parse-ValidSnapshot e new_key to_lower text value issuer s parsed in
      let (k, seed, own, found, has, signs) = signed_by s claims signed h in
      let (entry, named) = find_entry-ValidEntry new_key s.active s.keys k valid.keys found in
      let (usable, long, makes) = seed_active k seed entry has in
      let resolved =
        ap (λ r. elim r [ ok resolution ↦ some resolution | err f ↦ none ])
          (resolve-find_entry s claims.issuer s.active k own found) in
      verify-sign e claims s.active (new_key seed)
        (record { public_key = k.public_key; revoked = is_revoked k.state }) signed o (resolver s)
        header_laws claims_laws (subst (KeyPair e (new_key seed)) makes (pairs seed long))
        (subst (λ id. Protocol.sign e claims id (new_key seed) ≡ ok signed) named signs) options
        same_issuer resolved (ap is_revoked usable) entry.length-public_key input output binding
