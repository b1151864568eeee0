-- ===== src/Keyring/Valid.antt =====
-- The result of Parse.
use vaultsmith.Base.{
  ℕ, ◌+◌, ◌≤◌, ◌<◌, ◌≡◌, refl, sym, ap, ◌∙◌, subst, true, false, not, ◌||◌, ◌&&◌, &&-eq-true, ◌==◌,
  ==_iff, ltb, List, [], ◌∷◌, map, any, drop, bytes_eq, bytes_eq_iff, is_empty, codes, Bytes,
  length, Option, none, some, Result, ok, guard_then, or_err_then, bind-eq-ok, arith,
}
use vaultsmith.Text.Base64
use vaultsmith.Attestation.Json.{
  JsonValue, object, array, string, number, boolean, null, Items, no_items, with_item, member,
  has_only_members,
}
use vaultsmith.Attestation.Claims.{External, valid_kid}
use vaultsmith.Keyring.{
  max_file_bytes, max_entries, KeyringError, invalid_keyring, keyring_too_large, KeyState, active,
  retired, revoked, KeyEntry, Snapshot, find_entry, is_active, active_count, sort, required_string,
  key_state, decode_key_material, keyring_members, key_members, item_count, version_is_one,
  key_items, active_entry, seed_from, seed_of, parse_key_entry, parse_keys, canonical_issuer, parse,
}

-- An active key has a seed and is its public key; no other has one.
abbrev pub SeedFits : (Bytes → Bytes) → KeyState → Bytes → Option Bytes → Type 0
SeedFits new_key active public_key seed =
    (s : Bytes) × (seed ≡ some s) × (length s ≡ 32) × (drop 32 (new_key s) ≡ public_key)
SeedFits new_key retired public_key seed = seed ≡ none
SeedFits new_key revoked public_key seed = seed ≡ none

pub record ValidEntry (new_key : Bytes → Bytes) (k : KeyEntry) : Type 0 where
  pub id : valid_kid k.id ≡ true
  pub length-public_key : length k.public_key ≡ 32
  pub seed : SeedFits new_key k.state k.public_key k.seed

-- Every entry is valid, and none has the ID of a later one.
abbrev pub ValidKeys : (Bytes → Bytes) → List KeyEntry → Type 0
ValidKeys new_key [] = Unit
ValidKeys new_key (k ∷ keys) =
    ValidEntry new_key k × (find_entry k.id keys ≡ none) × ValidKeys new_key keys

pub record ValidSnapshot (new_key : Bytes → Bytes) (s : Snapshot) : Type 0 where
  pub keys : ValidKeys new_key s.keys
  pub one_active : active_count s.keys ≡ 1
  pub active_key : KeyEntry
  pub found : find_entry s.active s.keys ≡ some active_key
  pub state : active_key.state ≡ active
  pub some_keys : 0 < length s.keys
  pub length-keys : length s.keys ≤ 256
  pub ordered : s.ordered_ids ≡ sort (map (λ k. k.id) s.keys)

length-decode_key_material :
    (text key : Bytes) → decode_key_material text ≡ ok key → length key ≡ 32
unfolding decode_key_material
length-decode_key_material text key h =
    let (plain, h₁) =
      guard_then (not (is_empty text || any (λ c. c == b'=') text)) invalid_keyring _ h in
    let (decoded, d, h₂) = or_err_then (Base64.decode text) invalid_keyring _ h₁ in
    let (fits, h₃) =
      guard_then (length decoded == 32 && bytes_eq (Base64.encode decoded) text) invalid_keyring _
        h₂ in
    let same : decoded ≡ key = cc in
    let long = (&&-eq-true _ _ fits).0 in sym (ap length same) ∙ (==_iff (length decoded) 32).0 long

module _ (e : External) (new_key to_lower : Bytes → Bytes) where
  seed_from-SeedFits :
      (state : KeyState) (public_key text : Bytes) (seed : Option Bytes)
      → seed_from e new_key to_lower state public_key text ≡ ok seed
      → SeedFits new_key state public_key seed
  unfolding seed_from
  seed_from-SeedFits active public_key text seed h =
      let (full, h₁) = guard_then (not (is_empty text)) invalid_keyring _ h in
      let (s, decoded, h₂) = bind-eq-ok (decode_key_material text) _ h₁ in
      let (fits, h₃) =
        guard_then (bytes_eq (drop 32 (new_key s)) public_key) invalid_keyring _ h₂ in
      (s, sym (ground arith), length-decode_key_material text s decoded, (bytes_eq_iff _ _).0 fits)
  seed_from-SeedFits retired public_key text seed h =
      let (full, h₁) = guard_then (not (is_empty text)) invalid_keyring _ h in cc
  seed_from-SeedFits revoked public_key text seed h =
      let (full, h₁) = guard_then (not (is_empty text)) invalid_keyring _ h in cc

  seed_of-SeedFits :
      (state : KeyState) (public_key : Bytes) (o : Option JsonValue) (seed : Option Bytes)
      → seed_of e new_key to_lower state public_key o ≡ ok seed
      → SeedFits new_key state public_key seed
  seed_of-SeedFits active public_key none seed h = cc
  seed_of-SeedFits retired public_key none seed h = sym (ground arith)
  seed_of-SeedFits revoked public_key none seed h = sym (ground arith)
  seed_of-SeedFits state public_key (some (string text)) seed h =
      seed_from-SeedFits state public_key text seed h
  seed_of-SeedFits state public_key (some (number text)) seed h = cc
  seed_of-SeedFits state public_key (some (array _)) seed h = cc
  seed_of-SeedFits state public_key (some (object _)) seed h = cc
  seed_of-SeedFits state public_key (some (boolean b)) seed h = cc
  seed_of-SeedFits state public_key (some null) seed h = cc

  parse_key_entry-ValidEntry :
      (v : JsonValue) (k : KeyEntry)
      → parse_key_entry e new_key to_lower v ≡ ok k
      → ValidEntry new_key k
  unfolding parse_key_entry
  parse_key_entry-ValidEntry v k h =
      let (allowed, h₁) = guard_then (has_only_members v key_members) invalid_keyring _ h in
      let (id, e₁, h₂) = bind-eq-ok (required_string v (codes "id")) _ h₁ in
      let (kid, h₃) = guard_then (valid_kid id) invalid_keyring _ h₂ in
      let (state_text, e₂, h₄) = bind-eq-ok (required_string v (codes "state")) _ h₃ in
      let (state, e₃, h₅) = or_err_then (key_state state_text) invalid_keyring _ h₄ in
      let (public_text, e₄, h₆) = bind-eq-ok (required_string v (codes "publicKey")) _ h₅ in
      let (public_key, e₅, h₇) = bind-eq-ok (decode_key_material public_text) _ h₆ in
      let (seed, e₆, h₈) =
        bind-eq-ok (seed_of e new_key to_lower state public_key (member v (codes "privateKey"))) _
          h₇ in
      subst (ValidEntry new_key) (ok_injective h₈) record {
        id = kid;
        length-public_key = length-decode_key_material public_text public_key e₅;
        seed = seed_of-SeedFits state public_key (member v (codes "privateKey")) seed e₆;
      }
    where
      ok_injective : {a b : KeyEntry} → ◌≡◌ {A = Result KeyringError KeyEntry} (ok a) (ok b) → a ≡ b
      ok_injective h = cc

  parse_keys-ValidKeys :
      (keys : List KeyEntry) (items : Items) (all : List KeyEntry)
      → parse_keys e new_key to_lower keys items ≡ ok all
      → ValidKeys new_key keys
      → ValidKeys new_key all × (length all ≡ length keys + item_count items)
  unfolding parse_keys item_count
  parse_keys-ValidKeys keys no_items all h valid =
      let same : keys ≡ all = cc in
      (subst (ValidKeys new_key) same valid, sym (ap length same) ∙ omega arith)
  parse_keys-ValidKeys keys (with_item v rest) all h valid =
      let (k, e₁, h₁) = bind-eq-ok (parse_key_entry e new_key to_lower v) _ h in
      let (new, h₂) =
        guard_then (elim (find_entry k.id keys) [ none ↦ true | some other ↦ false ])
          invalid_keyring _ h₁ in
      let (all_valid, size) =
        parse_keys-ValidKeys (k ∷ keys) rest all h₂
          (parse_key_entry-ValidEntry v k e₁, absent (find_entry k.id keys) new, valid) in
      (all_valid, omega (arith, size))
    where
      absent : (o : Option KeyEntry) → elim o [ none ↦ true | some other ↦ false ] ≡ true → o ≡ none
      absent none h = refl
      absent (some k) h = cc

  active_entry-found :
      (id : Bytes) (keys : List KeyEntry)
      → active_entry id keys ≡ true
      → (k : KeyEntry) × (find_entry id keys ≡ some k) × (k.state ≡ active)
  active_entry-found id keys h = split (find_entry id keys) refl h
    where
      is_active-active : (state : KeyState) → is_active state ≡ true → state ≡ active
      is_active-active active h = refl
      is_active-active retired h = cc
      is_active-active revoked h = cc

      split :
          (o : Option KeyEntry)
          → find_entry id keys ≡ o
          → elim o [ none ↦ false | some k ↦ is_active k.state ] ≡ true
          → (k : KeyEntry) × (find_entry id keys ≡ some k) × (k.state ≡ active)
      split none e h = cc
      split (some k) e h = (k, e, is_active-active k.state h)

  -- A parsed keyring has from 1 to 256 keys of 32 bytes, no two with one ID, exactly one of which is
  -- active, the one that it names; this one has a seed of 32 bytes that makes its public key, and no
  -- other has a seed.
  pub parse-ValidSnapshot :
      (text : Bytes) (value : Option JsonValue) (issuer : Bytes) (s : Snapshot)
      → parse e new_key to_lower text value issuer ≡ ok s
      → ValidSnapshot new_key s
  unfolding parse
  parse-ValidSnapshot text value issuer s h =
      let (small, h₁) = guard_then (not (ltb max_file_bytes (length text))) keyring_too_large _ h in
      let (canonical, e₁, h₂) = bind-eq-ok (canonical_issuer e new_key to_lower issuer) _ h₁ in
      let (root, e₂, h₃) = or_err_then value invalid_keyring _ h₂ in
      let (allowed, h₄) = guard_then (has_only_members root keyring_members) invalid_keyring _ h₃ in
      let (one, h₅) = guard_then (version_is_one root) invalid_keyring _ h₄ in
      let (id, e₃, h₆) = bind-eq-ok (required_string root (codes "active")) _ h₅ in
      let (kid, h₇) = guard_then (valid_kid id) invalid_keyring _ h₆ in
      let (items, e₄, h₈) = bind-eq-ok (key_items root) _ h₇ in
      let (count, h₉) =
        guard_then (not (item_count items == 0 || ltb max_entries (item_count items)))
          invalid_keyring _ h₈ in
      let (keys, e₅, h₁₀) = bind-eq-ok (parse_keys e new_key to_lower [] items) _ h₉ in
      let (single, h₁₁) =
        guard_then (active_count keys == 1 && active_entry id keys) invalid_keyring _ h₁₀ in
      let (valid, size) = parse_keys-ValidKeys [] items keys e₅ tt in
      let (counted, there) = &&-eq-true _ _ single in
      let (k, found, state) = active_entry-found id keys there in
      subst (ValidSnapshot new_key) (ok_injective h₁₁) record {
        keys = valid;
        one_active = (==_iff (active_count keys) 1).0 counted;
        active_key = k;
        found = found;
        state = state;
        some_keys = omega (arith, size, positive (item_count items) count);
        length-keys = omega (arith, size, at_most (item_count items) count);
        ordered = refl;
      }
    where
      ok_injective : {a b : Snapshot} → ◌≡◌ {A = Result KeyringError Snapshot} (ok a) (ok b) → a ≡ b
      ok_injective h = cc

      positive : (n : ℕ) → not (n == 0 || ltb max_entries n) ≡ true → 0 < n
      positive n h = ground arith

      at_most : (n : ℕ) → not (n == 0 || ltb max_entries n) ≡ true → n ≤ 256
      at_most n h = ground arith
