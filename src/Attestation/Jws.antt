-- ===== src/Attestation/Jws.antt =====
-- jws.go: the flattened JWS serialization.
pub mod Encoding
use vaultsmith.Base.{
  Bool, false, not, ◌||◌, ◌==◌, List, [], ◌∷◌, any, bytes_eq, is_empty, codes, Bytes, length,
  Option, none, some, Result, ok, err, ◌>>=◌, ◌>>◌, guard, or_err, with_error,
}
use vaultsmith.Text.Base64
use vaultsmith.Attestation.Json.{
  JsonValue, object, string, no_members, with_member, has_only_members,
}
use vaultsmith.Attestation.Json.Parse.{parse_strict_json}
use vaultsmith.Attestation.Errors.{AttestationError, malformed}
use vaultsmith.Attestation.Claims.{External}
use vaultsmith.Attestation.Claims.Parse.{required_string_member}

pub record Signed : Type 0 where
  pub protected : Bytes
  pub payload : Bytes
  pub signature : Bytes

-- The decoded components.
pub record Components : Type 0 where
  pub protected_bytes : Bytes
  pub payload_bytes : Bytes
  pub signature_bytes : Bytes

abbrev signed_members : List Bytes
signed_members = codes "protected" ∷ codes "payload" ∷ codes "signature" ∷ []

unfoldable pub decode_strict_base64url : Bytes → Result AttestationError Bytes
decode_strict_base64url text = do
  guard (not (is_empty text || any (λ c. c == b'=') text)) malformed
  decoded ← or_err (Base64.decode text) malformed
  guard (bytes_eq (Base64.encode decoded) text) malformed
  ok decoded

unfoldable pub encode_base64url : Bytes → Bytes
encode_base64url bytes = Base64.encode bytes

unfoldable pub decode_encoded_components : Signed → Result AttestationError Components
decode_encoded_components s = do
  protected ← decode_strict_base64url s.protected
  guard (not (is_empty protected)) malformed
  payload ← decode_strict_base64url s.payload
  guard (not (is_empty payload)) malformed
  signature ← decode_strict_base64url s.signature
  guard (length signature == 64) malformed
  ok record { protected_bytes = protected; payload_bytes = payload; signature_bytes = signature }

unfoldable pub parse : Bytes → Result AttestationError Signed
parse text = do
  root ← with_error malformed (parse_strict_json text)
  guard (has_only_members root signed_members) malformed
  protected ← required_string_member root (codes "protected")
  payload ← required_string_member root (codes "payload")
  signature ← required_string_member root (codes "signature")
  let signed : Signed = record { protected = protected; payload = payload; signature = signature }
  components ← decode_encoded_components signed
  ok signed

-- MarshalJSON, by the tags of the struct.
unfoldable pub marshal_json : External → Signed → Result AttestationError Bytes
marshal_json e s = do
  raw ←
      or_err
        (e.marshal (
          object (
            with_member (codes "protected") (string s.protected) (
              with_member (codes "payload") (string s.payload)
                (with_member (codes "signature") (string s.signature) no_members)))))
        malformed
  or_err (e.transform raw) malformed
