-- ===== src/Attestation/Digest/Roles.antt =====
-- The roles of digests.
use vaultsmith.Base.{
  ℕ, ◌≡◌, ◌≢◌, refl, sym, ap, ◌∙◌, ◌⊎◌, inl, inr, false, Bool-cases, [], ◌∷◌, ◌++◌, drop, bytes_eq,
  bytes_eq_iff, Bytes, AreBytes, arith, some, Result, ok, with_error-eq-ok, bind-eq-ok,
}
use vaultsmith.Text.Hex
use vaultsmith.Text.Hex.{decode-encode}
use vaultsmith.Vault.Canonical.{canonical_envelope}
use vaultsmith.Attestation.Errors.{AttestationError, malformed}
use vaultsmith.Attestation.Digest.{
  input_digest_domain, output_digest_domain, digest_canonical, input_digest, output_digest,
}

pub data Role : Type 0 where
  input_role output_role : Role

-- Two messages with one hash.
abbrev pub Collision : (Bytes → Bytes) → Type 0
Collision hash = (x : Bytes) × (y : Bytes) × (x ≢ y) × (hash x ≡ hash y)

abbrev domain : Role → Bytes
domain input_role = input_digest_domain
domain output_role = output_digest_domain

encode_injective : (s t : Bytes) → AreBytes s → AreBytes t → Hex.encode s ≡ Hex.encode t → s ≡ t
encode_injective s t h k e =
    let both : some s ≡ some t = sym (decode-encode s h) ∙ ap Hex.decode e ∙ decode-encode t k in
    ground arith

-- The byte at which the domains differ.
abbrev byte_at : ℕ → Bytes → ℕ
byte_at n s = elim (drop n s) [ [] ↦ 0 | c ∷ rest ↦ c ]

domain_injective : (r s : Role) (x y : Bytes) → domain r ++ x ≡ domain s ++ y → (r ≡ s) × (x ≡ y)
domain_injective input_role input_role x y e = (refl, ap (drop 41) e)
domain_injective output_role output_role x y e = (refl, ap (drop 42) e)
domain_injective input_role output_role x y e =
    let f : b'i' ≡ b'o' = ap (byte_at 32) e in absurd (omega (arith, f))
domain_injective output_role input_role x y e =
    let f : b'o' ≡ b'i' = ap (byte_at 32) e in absurd (omega (arith, f))

module _ (sha256 : Bytes → Bytes) where
  abbrev pub digest_of : Role → Bytes → Result AttestationError Bytes
  digest_of input_role = input_digest sha256
  digest_of output_role = output_digest sha256

  digest_of-eq-ok :
      (r : Role) (text d : Bytes)
      → digest_of r text ≡ ok d
      → (canonical : Bytes) × (canonical_envelope text ≡ ok canonical)
        × (d ≡ Hex.encode (sha256 (domain r ++ canonical)))
  unfolding input_digest output_digest digest_canonical
  digest_of-eq-ok input_role text d h =
      let (c, e, h₁) = bind-eq-ok _ _ h in
      (c, with_error-eq-ok malformed (canonical_envelope text) e, ground arith)
  digest_of-eq-ok output_role text d h =
      let (c, e, h₁) = bind-eq-ok _ _ h in
      (c, with_error-eq-ok malformed (canonical_envelope text) e, ground arith)

  -- When two texts have the same digest in two roles, the roles are the same and so are the
  -- canonical envelopes, or else there is a collision of SHA-256, whose results are bytes.
  pub digest_of-Collision :
      ((message : Bytes) → AreBytes (sha256 message))
      → (r s : Role) (a b d : Bytes) → digest_of r a ≡ ok d
      → digest_of s b ≡ ok d
      → ((r ≡ s) × (canonical_envelope a ≡ canonical_envelope b)) ⊎ Collision sha256
  digest_of-Collision bytes r s a b d h k =
      let (x, ex, hx) = digest_of-eq-ok r a d h in
      let (y, ey, hy) = digest_of-eq-ok s b d k in
      let same =
        encode_injective _ _ (bytes (domain r ++ x)) (bytes (domain s ++ y)) (sym hx ∙ hy) in
      elim (Bool-cases (bytes_eq (domain r ++ x) (domain s ++ y))) [
        | inl e ↦
            let (roles, texts) = domain_injective r s x y ((bytes_eq_iff _ _).0 e) in
            inl (roles, ex ∙ ap ok texts ∙ sym ey)
        | inr e ↦ inr (domain r ++ x, domain s ++ y, apart e, same)
      ]
    where
      apart : {x y : Bytes} → bytes_eq x y ≡ false → x ≢ y
      apart {x} e f = let g = (bytes_eq_iff _ _).1 f in cc
