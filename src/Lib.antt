-- ===== src/Lib.antt =====
-- Vaultsmith: a verification library for the Go server under backend/.
--
-- backend/internal/ansiblevault reads and writes Ansible Vault envelopes (vault.go). Vault holds
-- its model: Padding (pkcs7Pad, pkcs7Unpad), Header (ValidateVaultID, isSupportedHeader), Envelope
-- (parseEnvelope, serializeVaultEnvelope), Canonical (CanonicalEnvelope) and Cipher (Encrypt,
-- Decrypt). PBKDF2, HMAC-SHA-256 and AES-CTR are the parameter Vault.Cipher.Crypto, with their
-- documented sizes and the involution of the stream as Vault.Cipher.CryptoLaws.
--
-- Strings and byte slices are lists of numbers. Base holds the shared types and lemmas, and Text
-- what the program uses of Go's strings, encoding/hex, encoding/base64 and unicode/utf8. The loop of
-- serializeVaultEnvelope takes the length of the body as fuel, which Vault.Envelope.Wrap shows to
-- be enough.
--
-- backend/internal/authz decides who may do what (authorizer.go, model.conf). Authz holds its
-- model: Policy (Rule, Policy, matchesPolicyObject, rolesForGroups), Enforce (authorizeWithPolicy
-- and the matcher and effect of the model file), Validate (validatePolicy, validateObject), Load
-- (policyFileAdapter.LoadPolicy, LoadPolicy) and Authorizer (currentPolicy, Evaluate, Authorize,
-- AuthorizeRotate, CapabilitiesForProfiles). Casbin's Enforce is a parameter, with the meaning of
-- the model file as Authz.Enforce.IsCasbin; the file system and the reading of comma-separated
-- rows are the parameter Authz.Load.World. The inner loop of rolesForGroups has one step of fuel
-- more than there are parents, and one for the stop, which Authz.Roles shows to be enough; the loop
-- over a chain of parents in validatePolicy ends at its third role. A call is one step: the locks
-- around the policy are left out. Config holds IsValidProfileID of backend/internal/config,
-- and Config.Profiles its LoadJSON and ForProfile, with the decoded JSON and the environment as
-- parameters.
--
-- backend/internal/vaultservice bounds the work that is done at once (admission.go). Service.Admission
-- holds its model: the calls of the interface as functions, with what a context reports as an
-- argument. Steps has their atomic actions, one step each, and the calls that are between two of
-- them; Calls shows that the functions are runs of these steps, and Kept and Lifetime follow one lease
-- through any calls. The lock of a lease covers a whole
-- release, so a second release of the same lease, which waits and then does nothing, is no step.
--
-- backend/internal/generate makes passwords (password.go). Generate.Password holds its model, with
-- the random source as a state and crypto/rand.Int as a parameter. The loops over counts take the
-- number of their rounds, which may be none; the cache of the counter is left out. Strings has the
-- accepted strings, one character after the other, for comparison with the count of the code.
--
-- backend/internal/attestation signs statements about rotations and checks them. Attestation holds
-- its model: Json (parseStrictJSON, with a position as what is left of the text), Claims (validation,
-- parseClaims, canonicalClaims), Digest (InputDigest, OutputDigest, over Vault.Canonical), Jws (Parse,
-- decodeStrictBase64URL) and Protocol (Sign, Verify). A Failure holds the claims that Verify returns
-- beside an error. Go's net/url, time and encoding/json, the JCS package, Ed25519 and SHA-256 are the
-- parameter Attestation.Claims.External, with what their specifications say as Writes and KeyPair of
-- Attestation.Protocol.RoundTrip; a resolver of keys is a function. The loops of the parser have one
-- round of fuel more than bytes are left, which Attestation.Json.Parse.Fuel shows to be enough; the
-- depth of containers is counted down from two.
--
-- backend/internal/attestationkeyring holds the keys (keyring.go, discovery.go). Keyring holds its
-- model: Parse from the JSON value on, Resolve and Sign, with the making of a key from its seed and
-- the lower case of strings as parameters, and Discovery its Metadata and JWKS. A map of keys is a
-- list of entries, the last one first.
--
-- Not modelled: the file and the reloading of a keyring, the reading of its JSON tokens, the
-- services over the vault format, authentication, the HTTP and MCP interfaces, the generators that
-- call cryptographic libraries, the executors of the profiles, and the rest of the configuration.
pub mod Base
pub mod Text
pub mod Vault
pub mod Config
pub mod Authz
pub mod Service
pub mod Generate
pub mod Attestation
pub mod Keyring
