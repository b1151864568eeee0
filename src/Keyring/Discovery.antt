-- ===== src/Keyring/Discovery.antt =====
-- discovery.go: what a keyring publishes.
use vaultsmith.Base.{ℕ, List, [], ◌∷◌, ◌++◌, replicate, codes, Bytes, none, some, if◌then◌else◌}
use vaultsmith.Text.Base64
use vaultsmith.Keyring.{KeyEntry, Snapshot, find_entry, is_revoked}

pub record Metadata : Type 0 where
  pub issuer : Bytes
  pub active_kid : Bytes
  pub attestation_versions : List ℕ
  pub jwks_uri : Bytes
  pub revoked_kids : List Bytes

pub record Jwk : Type 0 where
  pub kty : Bytes
  pub crv : Bytes
  pub alg : Bytes
  pub use_of : Bytes
  pub kid : Bytes
  pub x : Bytes

-- An ID that the map lacked would stand for an entry of zeros, which is not revoked.
revoked_ids : List KeyEntry → List Bytes → List Bytes
revoked_ids keys [] = []
revoked_ids keys (id ∷ ids) =
    let rest = revoked_ids keys ids in
    elim (find_entry id keys) [
      | none ↦ rest
      | some k ↦ if is_revoked k.state then id ∷ rest else rest
    ]

unfoldable pub metadata : Snapshot → Metadata
unfolding revoked_ids
metadata s = record {
  issuer = s.issuer;
  active_kid = s.active;
  attestation_versions = 1 ∷ [];
  jwks_uri = s.issuer ++ codes "/.well-known/vaultsmith-attestation/jwks.json";
  revoked_kids = revoked_ids s.keys s.ordered_ids;
}

abbrev pub jwk : Bytes → Bytes → Jwk
jwk kid public_key = record {
  kty = codes "OKP";
  crv = codes "Ed25519";
  alg = codes "Ed25519";
  use_of = codes "sig";
  kid = kid;
  x = Base64.encode public_key;
}

unfoldable pub published : List KeyEntry → List Bytes → List Jwk
published keys [] = []
published keys (id ∷ ids) =
    let rest = published keys ids in
    elim (find_entry id keys) [
      | none ↦ jwk [] (replicate 32 0) ∷ rest
      | some k ↦ if is_revoked k.state then rest else jwk k.id k.public_key ∷ rest
    ]

unfoldable pub jwks : Snapshot → List Jwk
unfolding published
jwks s = published s.keys s.ordered_ids
