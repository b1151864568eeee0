-- ===== src/Attestation/Protocol/Returned.antt =====
-- Which claims Verify ever gives out, be it with an error.
use vaultsmith.Base.{
  ◌≡◌, refl, subst, Bool, false, not, [], ◌∷◌, bytes_eq, Bytes, Option, some, none, Result, ok, err,
  ◌>>=◌, map_error, Fails, fine, Fails-eq-err, Fails-bind, Fails-guard, Fails-with_error, arith,
}
use vaultsmith.Attestation.Errors.{VerificationReason, AttestationError, malformed}
use vaultsmith.Attestation.Claims.{Binding, RotationClaims, External, is_supported}
use vaultsmith.Attestation.Jws.{Signed}
use vaultsmith.Attestation.Protocol.{
  VerifyOptions, Failure, alone, beside, binding_matches, authenticate, check_digest, check_binding,
  check_claims, verify,
}
use vaultsmith.Attestation.Protocol.Accepted.{verify_iff}
use vaultsmith.Attestation.Protocol.Authentic.{Authentic, authenticate-Authentic}

-- These claims come back, with success or beside any error.
pub data Returned (claims : RotationClaims) : Result Failure RotationClaims → Type 0 where
  accepted : Returned claims (ok claims)
  refused : {f : Failure} → f.claims ≡ some claims → Returned claims (err f)

-- No other claims come back with this failure.
Only : RotationClaims → Failure → Type 0
Only c f = (d : RotationClaims) → f.claims ≡ some d → c ≡ d

beside-Only : (c : RotationClaims) (reason : VerificationReason) → Only c (beside c reason)
unfolding Only
beside-Only c reason d h = ground arith

alone-Only : (c : RotationClaims) (e : AttestationError) → Only c (alone e)
unfolding Only
alone-Only c e d h = cc

check_digest-Only :
    (c : RotationClaims) (digest_of : Bytes → Result AttestationError Bytes)
    (text expected claimed : Bytes) (reason : VerificationReason)
    → Fails (Only c) (check_digest digest_of text expected claimed (beside c reason))
unfolding check_digest
check_digest-Only c digest_of [] expected claimed reason = Fails-guard _ _ (beside-Only c reason)
check_digest-Only c digest_of (x ∷ text) expected claimed reason =
    Fails-bind _ (Fails-with_error _ (digest_of (x ∷ text)) (alone-Only c malformed))
      λ d. Fails-guard (bytes_eq claimed d) _ (beside-Only c reason)

check_binding-Only :
    (expected : Option Binding) (c : RotationClaims) → Fails (Only c) (check_binding expected c)
check_binding-Only none c = fine
check_binding-Only (some b) c = Fails-guard (binding_matches c.binding b) _ (beside-Only c _)

module _ (e : External) (signed : Signed) (o : VerifyOptions) where
  check_claims-Only :
      (c : RotationClaims) (revoked : Bool) → Fails (Only c) (check_claims e o c revoked)
  unfolding check_claims
  check_claims-Only c revoked = Fails-bind _ (Fails-guard (not revoked) _ (beside-Only c _)) λ u₁.
      Fails-bind _ (Fails-guard (is_supported c.version) _ (beside-Only c _)) λ u₂.
        Fails-bind _
          (check_digest-Only c _ o.input_vault_text o.expected_input_digest c.input.value _)
          λ u₃.
            Fails-bind _
              (check_digest-Only c _ o.output_vault_text o.expected_output_digest c.output.value _)
              λ u₄. Fails-bind _ (check_binding-Only o.expected_binding c) λ u₅. fine

  beside-Authentic :
      (claims : RotationClaims) (f : Failure)
      → f.claims ≡ some claims
      → verify e signed o ≡ err f
      → (revoked : Bool) × Authentic e signed o claims revoked
  unfolding verify Only
  beside-Authentic claims f given h = split (authenticate e signed o) refl h
    where
      split :
          (r : Result AttestationError (RotationClaims × Bool))
          → authenticate e signed o ≡ r
          → (map_error alone r >>= λ p. check_claims e o p.0 p.1) ≡ err f
          → (revoked : Bool) × Authentic e signed o claims revoked
      split (err g) k h = cc
      split (ok (c, revoked)) k h =
          let same = Fails-eq-err h (check_claims-Only c revoked) claims given in
          (
            revoked,
            subst (λ d. Authentic e signed o d revoked) same
                (authenticate-Authentic e signed o c revoked k),
          )

  -- Claims that Verify gives out, with success or beside any error, are authentic: no others ever
  -- leave it.
  pub verify-Returned :
      (claims : RotationClaims)
      → Returned claims (verify e signed o)
      → (revoked : Bool) × Authentic e signed o claims revoked
  verify-Returned claims h = split (verify e signed o) h refl
    where
      split :
          (r : Result Failure RotationClaims)
          → Returned claims r
          → verify e signed o ≡ r
          → (revoked : Bool) × Authentic e signed o claims revoked
      split (ok c) accepted k = let a = (verify_iff e signed o claims).0 k in (false, a.authentic)
      split (err f) (refused given) k = beside-Authentic claims f given k
