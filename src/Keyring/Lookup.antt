-- ===== src/Keyring/Lookup.antt =====
-- What the look-up of an ID finds.
use vaultsmith.Base.{
  ◌≡◌, refl, sym, ap, ◌∙◌, Bool, true, false, List, [], ◌∷◌, bytes_eq, bytes_eq_iff, Bytes, Option,
  some, if◌then◌else◌, subst, ok,
}
use vaultsmith.Keyring.{KeyEntry, Snapshot, find_entry, is_revoked, resolve}
use vaultsmith.Keyring.Valid.{ValidEntry, ValidKeys}

module _ (new_key : Bytes → Bytes) where
  pub find_entry-ValidEntry :
      (id : Bytes) (keys : List KeyEntry) (k : KeyEntry)
      → ValidKeys new_key keys
      → find_entry id keys ≡ some k
      → ValidEntry new_key k × (k.id ≡ id)
  unfolding find_entry
  find_entry-ValidEntry id [] k h e = cc
  find_entry-ValidEntry id (x ∷ keys) k (valid, new, rest) e =
      split (bytes_eq x.id id) refl (find_entry-ValidEntry id keys k rest) e
    where
      some_injective : {a b : KeyEntry} → ◌≡◌ {A = Option KeyEntry} (some a) (some b) → a ≡ b
      some_injective h = cc

      split :
          (b : Bool)
          → bytes_eq x.id id ≡ b
          → (find_entry id keys ≡ some k → ValidEntry new_key k × (k.id ≡ id))
          → (if b then some x else find_entry id keys) ≡ some k
          → ValidEntry new_key k × (k.id ≡ id)
      split true q later e =
          let same : x ≡ k = some_injective e in
          (
            subst (ValidEntry new_key) same valid,
            ap (λ y. y.id) (sym same) ∙ (bytes_eq_iff _ _).0 q,
          )
      split false q later e = later e

pub resolve-find_entry :
    (s : Snapshot) (issuer kid : Bytes) (k : KeyEntry)
    → issuer ≡ s.issuer
    → find_entry kid s.keys ≡ some k
    → resolve s issuer kid ≡ ok (record { public_key = k.public_key; revoked = is_revoked k.state })
unfolding resolve
resolve-find_entry s issuer kid k own found = rw ((bytes_eq_iff issuer s.issuer).1 own, found)
