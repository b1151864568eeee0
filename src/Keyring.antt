-- ===== src/Keyring.antt =====
-- backend/internal/attestationkeyring: keyring.go. A value is that of Attestation.Json, and the
-- check of a key ID is the one that claims.go writes out as well.
pub mod Discovery
pub mod Valid
pub mod Lookup
pub mod Signs
pub mod Published
mod Examples
use vaultsmith.Base.{
  ℕ, zero, suc, Bool, true, false, not, ◌||◌, ◌&&◌, ◌==◌, ltb, leb, List, [], ◌∷◌, ◌++◌, map, any,
  drop, bytes_eq, is_empty, codes, Bytes, length, if◌then◌else◌, Option, none, some, Result, ok,
  err, ◌>>=◌, ◌>>◌, guard, or_err, map_error,
}
use vaultsmith.Text.Base64
use vaultsmith.Text.Utf8.{valid}
use vaultsmith.Attestation.Json.{
  JsonValue, object, array, string, number, Items, no_items, with_item, member, has_only_members,
}
use vaultsmith.Attestation.Errors.{AttestationError}
use vaultsmith.Attestation.Claims.{RotationClaims, Url, External, has_control, valid_kid}
use vaultsmith.Attestation.Jws.{Signed}
use vaultsmith.Attestation.Protocol
use vaultsmith.Attestation.Protocol.{KeyResolution}

abbrev pub max_file_bytes : ℕ
max_file_bytes = 65536

abbrev pub max_entries : ℕ
max_entries = 256

-- The errors of a keyring, and that of attestation.Sign.
pub data KeyringError : Type 0 where
  invalid_keyring keyring_too_large issuer_mismatch unknown_key not_ready : KeyringError
  not_signed : AttestationError → KeyringError

pub data KeyState : Type 0 where
  active retired revoked : KeyState

-- An entry without a seed has none; the fields are never cleared here.
pub record KeyEntry : Type 0 where
  pub id : Bytes
  pub state : KeyState
  pub public_key : Bytes
  pub seed : Option Bytes

-- The entries of the map, each under its ID.
pub record Snapshot : Type 0 where
  pub issuer : Bytes
  pub active : Bytes
  pub keys : List KeyEntry
  pub ordered_ids : List Bytes
  pub content_hash : Bytes

unfoldable pub find_entry : Bytes → List KeyEntry → Option KeyEntry
find_entry id [] = none
find_entry id (k ∷ keys) = if bytes_eq k.id id then some k else find_entry id keys

abbrev pub is_active : KeyState → Bool
is_active active = true
is_active _ = false

abbrev pub is_revoked : KeyState → Bool
is_revoked revoked = true
is_revoked _ = false

unfoldable pub active_count : List KeyEntry → ℕ
active_count [] = 0
active_count (k ∷ keys) = if is_active k.state then suc (active_count keys) else active_count keys

-- The comparison of `sort.Strings`.
bytes_le : Bytes → Bytes → Bool
bytes_le [] t = true
bytes_le (c ∷ s) [] = false
bytes_le (c ∷ s) (d ∷ t) = if c == d then bytes_le s t else ltb c d

unfoldable pub insert : Bytes → List Bytes → List Bytes
unfolding bytes_le
insert s [] = s ∷ []
insert s (t ∷ ts) = if bytes_le s t then s ∷ t ∷ ts else t ∷ insert s ts

unfoldable pub sort : List Bytes → List Bytes
sort [] = []
sort (s ∷ ss) = insert s (sort ss)

unfoldable pub required_string : JsonValue → Bytes → Result KeyringError Bytes
required_string v name = elim (member v name) [
  | some (string text) ↦ do guard (not (is_empty text)) invalid_keyring; ok text
  | _ ↦ err invalid_keyring
]

unfoldable pub key_state : Bytes → Option KeyState
key_state text =
    if bytes_eq text (codes "active")
    then some active
    else if bytes_eq text (codes "retired")
    then some retired
    else if bytes_eq text (codes "revoked")
    then some revoked
    else none

unfoldable pub decode_key_material : Bytes → Result KeyringError Bytes
decode_key_material text = do
  guard (not (is_empty text || any (λ c. c == b'=') text)) invalid_keyring
  decoded ← or_err (Base64.decode text) invalid_keyring
  guard (length decoded == 32 && bytes_eq (Base64.encode decoded) text) invalid_keyring
  ok decoded

abbrev pub keyring_members : List Bytes
keyring_members = codes "version" ∷ codes "active" ∷ codes "keys" ∷ []

abbrev pub key_members : List Bytes
key_members = codes "id" ∷ codes "state" ∷ codes "publicKey" ∷ codes "privateKey" ∷ []

unfoldable pub item_count : Items → ℕ
item_count no_items = 0
item_count (with_item v rest) = suc (item_count rest)

abbrev pub version_is_one : JsonValue → Bool
version_is_one root = elim (member root (codes "version")) [
  | some (number text) ↦ bytes_eq text (codes "1")
  | _ ↦ false
]

abbrev pub key_items : JsonValue → Result KeyringError Items
key_items root = elim (member root (codes "keys")) [
  | some (array items) ↦ ok items
  | _ ↦ err invalid_keyring
]

-- Whether the key of that ID is active.
abbrev pub active_entry : Bytes → List KeyEntry → Bool
active_entry id keys = elim (find_entry id keys) [ none ↦ false | some k ↦ is_active k.state ]

-- `ed25519.NewKeyFromSeed`, whose last 32 bytes are the public key; `strings.ToLower`.
module _ (e : External) (new_key_from_seed to_lower : Bytes → Bytes) where
  -- The seed that a text gives, which only an active key has.
  unfoldable pub seed_from : KeyState → Bytes → Bytes → Result KeyringError (Option Bytes)
  seed_from state public_key text = do
    guard (not (is_empty text)) invalid_keyring
    guard (is_active state) invalid_keyring
    seed ← decode_key_material text
    guard (bytes_eq (drop 32 (new_key_from_seed seed)) public_key) invalid_keyring
    ok (some seed)

  -- From the optional member for the private key.
  abbrev pub seed_of : KeyState → Bytes → Option JsonValue → Result KeyringError (Option Bytes)
  seed_of state public_key none = guard (not (is_active state)) invalid_keyring >>= λ _. ok none
  seed_of state public_key (some (string text)) = seed_from state public_key text
  seed_of state public_key (some _) = err invalid_keyring

  unfoldable pub parse_key_entry : JsonValue → Result KeyringError KeyEntry
  unfolding key_state
  parse_key_entry v = do
    guard (has_only_members v key_members) invalid_keyring
    id ← required_string v (codes "id")
    guard (valid_kid id) invalid_keyring
    state_text ← required_string v (codes "state")
    state ← or_err (key_state state_text) invalid_keyring
    public_text ← required_string v (codes "publicKey")
    public_key ← decode_key_material public_text
    seed ← seed_of state public_key (member v (codes "privateKey"))
    ok record { id = id; state = state; public_key = public_key; seed = seed }

  -- The loop over the keys; the last one comes first.
  unfoldable pub parse_keys : List KeyEntry → Items → Result KeyringError (List KeyEntry)
  parse_keys keys no_items = ok keys
  parse_keys keys (with_item v rest) = do
    entry ← parse_key_entry v
    guard (elim (find_entry entry.id keys) [ none ↦ true | some k ↦ false ]) invalid_keyring
    parse_keys (entry ∷ keys) rest

  issuer_url : Url → Bool
  issuer_url u = not (
      not (bytes_eq (to_lower u.scheme) (codes "https"))
      || is_empty u.host
      || u.has_user
      || not (is_empty u.opaque)
      || (not (is_empty u.path) && not (bytes_eq u.path (b'/' ∷ [])))
      || not (is_empty u.raw_path)
      || not (is_empty u.raw_query)
      || u.force_query
      || not (is_empty u.fragment)
      || is_empty u.hostname)

  unfoldable pub canonical_issuer : Bytes → Result KeyringError Bytes
  unfolding issuer_url
  canonical_issuer text = do
    guard
        (not (
          is_empty text
          || not (valid text)
          || any (λ c. c == b'?' || c == b'#') text
          || has_control text))
        invalid_keyring
    u ← or_err (e.parse_url text) invalid_keyring
    guard (issuer_url u) invalid_keyring
    ok (codes "https://" ++ to_lower u.host)

  -- Parse, with the value that parseStrictJSON gives for the data.
  unfoldable pub parse : Bytes → Option JsonValue → Bytes → Result KeyringError Snapshot
  unfolding item_count
  parse text value issuer = do
    guard (not (ltb max_file_bytes (length text))) keyring_too_large
    canonical ← canonical_issuer issuer
    root ← or_err value invalid_keyring
    guard (has_only_members root keyring_members) invalid_keyring
    guard (version_is_one root) invalid_keyring
    active_id ← required_string root (codes "active")
    guard (valid_kid active_id) invalid_keyring
    items ← key_items root
    guard (not (item_count items == 0 || ltb max_entries (item_count items))) invalid_keyring
    keys ← parse_keys [] items
    guard (active_count keys == 1 && active_entry active_id keys) invalid_keyring
    ok record {
      issuer = canonical;
      active = active_id;
      keys = keys;
      ordered_ids = sort (map (λ k. k.id) keys);
      content_hash = e.sha256 text;
    }

  -- Sign of a snapshot.
  unfoldable pub sign : Snapshot → RotationClaims → Result KeyringError Signed
  sign s claims = do
    guard (bytes_eq claims.issuer s.issuer) issuer_mismatch
    entry ← or_err (find_entry s.active s.keys) not_ready
    seed ← or_err entry.seed not_ready
    map_error not_signed (Protocol.sign e claims entry.id (new_key_from_seed seed))

unfoldable pub resolve : Snapshot → Bytes → Bytes → Result KeyringError KeyResolution
resolve s issuer kid = do
  guard (bytes_eq issuer s.issuer) issuer_mismatch
  entry ← or_err (find_entry kid s.keys) unknown_key
  ok record { public_key = entry.public_key; revoked = is_revoked entry.state }

-- A snapshot as a resolver of keys.
abbrev pub resolver : Snapshot → Bytes → Bytes → Option KeyResolution
resolver s issuer kid = elim (resolve s issuer kid) [
  | ok resolution ↦ some resolution
  | err e ↦ none
]
