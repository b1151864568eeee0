-- ===== src/Keyring/Published.antt =====
-- JWKS and Resolve together.
use vaultsmith.Base.{
  ◌≡◌, refl, sym, ap, ◌∙◌, subst, ◌↔◌, ◌⊎◌, Bool, true, false, inl, inr, List, [], ◌∷◌, map,
  replicate, bytes_eq, bytes_eq_iff, Bytes, Option, none, some, if◌then◌else◌, ok, guard_then,
  or_err_then, arith,
}
use vaultsmith.Attestation.Json.{JsonValue}
use vaultsmith.Attestation.Claims.{External}
use vaultsmith.Attestation.Protocol.{KeyResolution}
use vaultsmith.Keyring.{
  issuer_mismatch, unknown_key, KeyEntry, Snapshot, find_entry, is_revoked, bytes_le, insert, sort,
  parse, resolve,
}
use vaultsmith.Keyring.Discovery.{Jwk, jwk, published, jwks}
use vaultsmith.Keyring.Valid.{ValidSnapshot, parse-ValidSnapshot}
use vaultsmith.Keyring.Lookup.{find_entry-ValidEntry, resolve-find_entry}

-- The element is one of the list.
abbrev pub Among : {A : Type 0} → A → List A → Type 0
Among a [] = ⊥
Among a (x ∷ xs) = (a ≡ x) ⊎ Among a xs

Among-insert : (a s : Bytes) (ts : List Bytes) → Among a (s ∷ ts) → Among a (insert s ts)
unfolding insert
Among-insert a s [] i = i
Among-insert a s (t ∷ ts) i = split (bytes_le s t) i (Among-insert a s ts)
  where
    split :
        (b : Bool)
        → Among a (s ∷ t ∷ ts)
        → (Among a (s ∷ ts) → Among a (insert s ts))
        → Among a (if b then s ∷ t ∷ ts else t ∷ insert s ts)
    split true i later = i
    split false (inl e) later = inr (later (inl e))
    split false (inr (inl e)) later = inl e
    split false (inr (inr i)) later = inr (later (inr i))

insert-Among : (a s : Bytes) (ts : List Bytes) → Among a (insert s ts) → Among a (s ∷ ts)
unfolding insert
insert-Among a s [] i = i
insert-Among a s (t ∷ ts) i = split (bytes_le s t) i (insert-Among a s ts)
  where
    swap : Among a (s ∷ ts) → Among a (s ∷ t ∷ ts)
    swap (inl e) = inl e
    swap (inr j) = inr (inr j)

    split :
        (b : Bool)
        → Among a (if b then s ∷ t ∷ ts else t ∷ insert s ts)
        → (Among a (insert s ts) → Among a (s ∷ ts))
        → Among a (s ∷ t ∷ ts)
    split true i later = i
    split false (inl e) later = inr (inl e)
    split false (inr i) later = swap (later i)

Among-sort : (a : Bytes) (ss : List Bytes) → Among a ss → Among a (sort ss)
unfolding sort
Among-sort a [] i = i
Among-sort a (s ∷ ss) (inl e) = Among-insert a s (sort ss) (inl e)
Among-sort a (s ∷ ss) (inr i) = Among-insert a s (sort ss) (inr (Among-sort a ss i))

sort-Among : (a : Bytes) (ss : List Bytes) → Among a (sort ss) → Among a ss
unfolding sort
sort-Among a [] i = i
sort-Among a (s ∷ ss) i = split (insert-Among a s (sort ss) i) (sort-Among a ss)
  where
    split : Among a (s ∷ sort ss) → (Among a (sort ss) → Among a ss) → Among a (s ∷ ss)
    split (inl e) later = inl e
    split (inr j) later = inr (later j)

-- The IDs of the entries are those that are found.
Among-find_entry :
    (id : Bytes) (keys : List KeyEntry)
    → Among id (map (λ k. k.id) keys)
    → (k : KeyEntry) × (find_entry id keys ≡ some k)
unfolding find_entry
Among-find_entry id [] i = absurd i
Among-find_entry id (x ∷ keys) (inl e) = (x, rw ((bytes_eq_iff x.id id).1 (sym e)))
Among-find_entry id (x ∷ keys) (inr i) = split (bytes_eq x.id id) (Among-find_entry id keys i)
  where
    split :
        (b : Bool)
        → (k : KeyEntry) × (find_entry id keys ≡ some k)
        → (k : KeyEntry) × ((if b then some x else find_entry id keys) ≡ some k)
    split true later = (x, refl)
    split false later = later

find_entry-Among :
    (id : Bytes) (keys : List KeyEntry) (k : KeyEntry)
    → find_entry id keys ≡ some k
    → Among id (map (λ k. k.id) keys)
unfolding find_entry
find_entry-Among id [] k e = cc
find_entry-Among id (x ∷ keys) k e = split (bytes_eq x.id id) refl e (find_entry-Among id keys k)
  where
    split :
        (b : Bool)
        → bytes_eq x.id id ≡ b
        → (if b then some x else find_entry id keys) ≡ some k
        → (find_entry id keys ≡ some k → Among id (map (λ k. k.id) keys))
        → Among id (x.id ∷ map (λ k. k.id) keys)
    split true q e later = inl (sym ((bytes_eq_iff x.id id).0 q))
    split false q e later = inr (later e)

-- A published key is the entry of one of the IDs, which is not revoked.
abbrev Shown : List KeyEntry → List Bytes → Jwk → Type 0
Shown keys ids j =
    (id : Bytes) × (k : KeyEntry) × Among id ids
    × (find_entry id keys ≡ some k)
    × (is_revoked k.state ≡ false)
    × (j ≡ jwk k.id k.public_key)

later-Shown :
    (keys : List KeyEntry) (id : Bytes) (ids : List Bytes) (j : Jwk)
    → Shown keys ids j
    → Shown keys (id ∷ ids) j
later-Shown keys id ids j (i, k, a, e, r, f) = (i, k, inr a, e, r, f)

published-Shown :
    (keys : List KeyEntry) (ids : List Bytes) (j : Jwk)
    → ((id : Bytes) → Among id ids → (k : KeyEntry) × (find_entry id keys ≡ some k))
    → Among j (published keys ids)
    → Shown keys ids j
unfolding published
published-Shown keys [] j all i = absurd i
published-Shown keys (id ∷ ids) j all i =
    let (k, found) = all id (inl refl) in
    split (find_entry id keys) refl found i (published-Shown keys ids j (λ n a. all n (inr a)))
  where
    shown :
        (k : KeyEntry) (b : Bool)
        → find_entry id keys ≡ some k
        → is_revoked k.state ≡ b
        → Among j (if b then published keys ids else jwk k.id k.public_key ∷ published keys ids)
        → (Among j (published keys ids) → Shown keys ids j)
        → Shown keys (id ∷ ids) j
    shown k true e r i later = later-Shown keys id ids j (later i)
    shown k false e r (inl f) later = (id, k, inl refl, e, r, f)
    shown k false e r (inr i) later = later-Shown keys id ids j (later i)

    split :
        (o : Option KeyEntry) {k : KeyEntry}
        → find_entry id keys ≡ o
        → find_entry id keys ≡ some k
        → Among j (elim o [
          | none ↦ jwk [] (replicate 32 0) ∷ published keys ids
          | some k ↦
              if is_revoked k.state
              then published keys ids
              else jwk k.id k.public_key ∷ published keys ids
        ])
        → (Among j (published keys ids) → Shown keys ids j)
        → Shown keys (id ∷ ids) j
    split none e found i later = cc
    split (some k) e found i later = shown k (is_revoked k.state) e refl i later

Shown-published :
    (keys : List KeyEntry) (ids : List Bytes) (j : Jwk)
    → Shown keys ids j
    → Among j (published keys ids)
unfolding published
Shown-published keys [] j (i, k, a, e, r, f) = absurd a
Shown-published keys (id ∷ ids) j (i, k, inl same, e, r, f) =
    let found : find_entry id keys ≡ some k = ap (λ n. find_entry n keys) (sym same) ∙ e in
    let rest = published keys ids in
    subst
      (λ o. Among j (elim o [
        | none ↦ jwk [] (replicate 32 0) ∷ rest
        | some x ↦ if is_revoked x.state then rest else jwk x.id x.public_key ∷ rest
      ]))
      (sym found)
      (subst (λ b. Among j (if b then rest else jwk k.id k.public_key ∷ rest)) (sym r) (inl f))
Shown-published keys (id ∷ ids) j (i, k, inr a, e, r, f) =
    keep (find_entry id keys) (Shown-published keys ids j (i, k, a, e, r, f))
  where
    keep :
        (o : Option KeyEntry)
        → Among j (published keys ids)
        → Among j (elim o [
          | none ↦ jwk [] (replicate 32 0) ∷ published keys ids
          | some k ↦
              if is_revoked k.state
              then published keys ids
              else jwk k.id k.public_key ∷ published keys ids
        ])
    keep none i = inr i
    keep (some k) i = step (is_revoked k.state)
      where
        step :
            (b : Bool)
            → Among j (if b then published keys ids else jwk k.id k.public_key ∷ published keys ids)
        step true = i
        step false = inr i

-- What a resolved key is.
resolve-eq-ok :
    (s : Snapshot) (kid : Bytes) (r : KeyResolution)
    → resolve s s.issuer kid ≡ ok r
    → (k : KeyEntry) × (find_entry kid s.keys ≡ some k)
      × (r ≡ (record { public_key = k.public_key; revoked = is_revoked k.state }))
unfolding resolve
resolve-eq-ok s kid r h =
    let (own, h₁) = guard_then (bytes_eq s.issuer s.issuer) issuer_mismatch _ h in
    let (k, found, h₂) = or_err_then (find_entry kid s.keys) unknown_key _ h₁ in
    (k, found, sym (ground arith))

module _ (e : External) (new_key to_lower : Bytes → Bytes) where
  -- The key set of a parsed keyring holds exactly the keys that it resolves for its own issuer and
  -- that are not revoked, under their IDs.
  pub jwks_iff :
      (text : Bytes) (value : Option JsonValue) (issuer : Bytes) (s : Snapshot) (j : Jwk)
      → parse e new_key to_lower text value issuer ≡ ok s
      → Among j (jwks s) ↔ (
          (kid : Bytes) × (r : KeyResolution) × (resolve s s.issuer kid ≡ ok r)
          × (r.revoked ≡ false)
          × (j ≡ jwk kid r.public_key))
  unfolding jwks
  jwks_iff text value issuer s j parsed = (resolved, published_key)
    where
      valid : ValidSnapshot new_key s
      valid = parse-ValidSnapshot e new_key to_lower text value issuer s parsed

      resolved :
          Among j (published s.keys s.ordered_ids)
          → (kid : Bytes) × (r : KeyResolution) × (resolve s s.issuer kid ≡ ok r)
            × (r.revoked ≡ false)
            × (j ≡ jwk kid r.public_key)
      resolved i =
          let (id, k, a, found, r, f) =
            published-Shown s.keys s.ordered_ids j
              (λ n b. Among-find_entry n s.keys (sort-Among n _ (subst (Among n) valid.ordered b)))
              i in
          let (entry, named) = find_entry-ValidEntry new_key id s.keys k valid.keys found in
          (
            id,
            record { public_key = k.public_key; revoked = is_revoked k.state },
            resolve-find_entry s s.issuer id k refl found,
            r,
            f ∙ ap (λ n. jwk n k.public_key) named,
          )

      published_key :
          (kid : Bytes) × (r : KeyResolution) × (resolve s s.issuer kid ≡ ok r)
            × (r.revoked ≡ false)
            × (j ≡ jwk kid r.public_key)
          → Among j (published s.keys s.ordered_ids)
      published_key (kid, r, h, usable, f) =
          let (k, found, is) = resolve-eq-ok s kid r h in
          let (entry, named) = find_entry-ValidEntry new_key kid s.keys k valid.keys found in
          let listed =
            subst (Among kid) (sym valid.ordered)
              (Among-sort kid _ (find_entry-Among kid s.keys k found)) in
          Shown-published s.keys s.ordered_ids j (
            kid,
            k,
            listed,
            found,
            sym (ap (λ x. x.revoked) is) ∙ usable,
            f ∙ ap (λ x. jwk kid x.public_key) is ∙ ap (λ n. jwk n k.public_key) (sym named),
          )
