-- ===== src/Authz/Validate/Depth.antt =====
-- A validated policy has one level of inheritance.
use vaultsmith.Base.{
  ◌≡◌, ◌≢◌, ◌⊎◌, refl, subst, true, false, List, [], ◌∷◌, arith, inl, inr, Bool-cases, &&-eq-true,
  Bytes, bytes_eq, bytes_eq_iff, is_empty,
}
use vaultsmith.Authz.Policy.{Policy, parent_of}
use vaultsmith.Authz.Roles.{Inherits, self, above}
use vaultsmith.Authz.Validate.{all, chain_ok, validate_policy}

-- The chain check of a role that has a parent.
chain_of :
    (parents entries : List (Bytes × Bytes)) (role : Bytes)
    → all (λ entry. chain_ok 3 parents [] entry.0 0) entries ≡ true
    → parent_of entries role ≢ []
    → chain_ok 3 parents [] role 0 ≡ true
unfolding parent_of
chain_of parents [] role h ne = absurd (ne refl)
chain_of parents ((child, parent) ∷ rest) role h ne = elim (Bool-cases (bytes_eq child role)) [
  | inl same ↦
      let (first, _) = &&-eq-true (chain_ok 3 parents [] child 0) _ h in
      subst (λ r. chain_ok 3 parents [] r 0 ≡ true) ((bytes_eq_iff child role).0 same) first
  | inr other ↦
      let (_, later) = &&-eq-true (chain_ok 3 parents [] child 0) _ h in
      chain_of parents rest role later (rw other at ne)
]

is_empty-eq : (s : Bytes) → is_empty s ≡ true → s ≡ []
is_empty-eq [] h = refl
is_empty-eq (c ∷ s) h = cc

is_empty-ne : (s : Bytes) → s ≢ [] → is_empty s ≡ false
is_empty-ne [] h = absurd (h refl)
is_empty-ne (c ∷ s) h = refl

grandparent :
    (parents : List (Bytes × Bytes)) (role : Bytes)
    → role ≢ []
    → parent_of parents role ≢ []
    → chain_ok 3 parents [] role 0 ≡ true
    → is_empty (parent_of parents (parent_of parents role)) ≡ true
unfolding chain_ok
grandparent parents role ne has h =
    ground (arith, is_empty-ne role ne, is_empty-ne (parent_of parents role) has)

all_chains :
    (policy : Policy) (ids : List Bytes)
    → validate_policy policy ids ≡ true
    → all (λ entry. chain_ok 3 policy.parents [] entry.0 0) policy.parents ≡ true
unfolding validate_policy
all_chains policy ids h = ground arith

-- In a validated policy a role inherits itself, its parent if it has one, and nothing else: the
-- parent has no parent.
pub Inherits-one_level :
    (policy : Policy) (profile_ids : List Bytes) (role x : Bytes)
    → validate_policy policy profile_ids ≡ true
    → Inherits policy.parents role x
    → (x ≡ role) ⊎ (x ≡ parent_of policy.parents role)
Inherits-one_level policy ids role x h (self ne) = inl refl
Inherits-one_level policy ids role x h (above ne (self ne')) = inr refl
Inherits-one_level policy ids role x h (above ne (above ne' up)) = absurd (
    not-Inherits-nil up (
      is_empty-eq _ (
        grandparent policy.parents role ne ne'
          (chain_of policy.parents policy.parents role (all_chains policy ids h) ne'))))
  where
    not-Inherits-nil : {r y : Bytes} → Inherits policy.parents r y → r ≢ []
    not-Inherits-nil (self n) = n
    not-Inherits-nil (above n u) = n
