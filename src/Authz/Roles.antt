-- ===== src/Authz/Roles.antt =====
-- The roles of a caller: the roles of the caller's groups and all that they inherit.
use vaultsmith.Base.{
  ℕ, zero, suc, ◌+◌, ◌≤◌, ◌<◌, ◌≡◌, ◌≢◌, ◌⊎◌, refl, ap, sym, subst, ◌∙◌, true, false, ◌||◌, List,
  [], ◌∷◌, arith, inl, inr, Bool-cases, Bytes, bytes_eq_iff, bytes_eq_refl, is_empty, length,
  if◌then◌else◌,
}
use vaultsmith.Authz.Policy.{member, parent_of, walk, walk_fuel}

-- A role inherits what its chain of parents reaches; the empty name is no role.
pub data Inherits (parents : List (Bytes × Bytes)) : Bytes → Bytes → Type 0 where
  self : {role : Bytes} → role ≢ [] → Inherits parents role role
  above :
      {role ancestor : Bytes}
      → role ≢ []
      → Inherits parents (parent_of parents role) ancestor
      → Inherits parents role ancestor

-- A set is closed but for one role: the parent of each member is a member, that role, or none.
abbrev pub Closed : List (Bytes × Bytes) → Bytes → List Bytes → Type 0
Closed parents pending roles =
    (x : Bytes)
    → member x roles ≡ true
    → (parent_of parents x ≡ [])
      ⊎ (member (parent_of parents x) roles ≡ true)
      ⊎ (parent_of parents x ≡ pending)

-- Entries whose parent is not yet a member.
missing : List (Bytes × Bytes) → List Bytes → ℕ
missing [] roles = 0
missing ((child, parent) ∷ rest) roles = (if member parent roles then 0 else 1) + missing rest roles

missing-le :
    (entries : List (Bytes × Bytes)) (roles : List Bytes) → missing entries roles ≤ length entries
unfolding missing
missing-le [] roles = omega arith
missing-le ((child, parent) ∷ rest) roles = ground (arith, missing-le rest roles)

missing_mono :
    (entries : List (Bytes × Bytes)) (x : Bytes) (roles : List Bytes)
    → missing entries (x ∷ roles) ≤ missing entries roles
unfolding missing member
missing_mono [] x roles = omega arith
missing_mono ((child, parent) ∷ rest) x roles = ground (arith, missing_mono rest x roles)

-- A new member that is a parent leaves fewer entries missing.
missing-lt :
    (entries : List (Bytes × Bytes)) (x role : Bytes) (roles : List Bytes)
    → parent_of entries role ≡ x
    → x ≢ []
    → member x roles ≡ false
    → missing entries (x ∷ roles) < missing entries roles
unfolding missing parent_of member
missing-lt [] x role roles e ne new = absurd (ne (sym e))
missing-lt ((child, parent) ∷ rest) x role roles e ne new = ground (
  arith,
  missing_mono rest x roles,
  missing-lt rest x role roles,
  bytes_eq_iff parent x,
  bytes_eq_iff x x,
)

pub member_cons :
    (x y : Bytes) (ys : List Bytes) → member x (y ∷ ys) ≡ true → (y ≡ x) ⊎ (member x ys ≡ true)
unfolding member
member_cons x y ys h = ground (arith, bytes_eq_iff y x)

pub member_self : (x : Bytes) (ys : List Bytes) → member x (x ∷ ys) ≡ true
unfolding member
member_self x ys = rw (bytes_eq_refl x)

pub member_later : (x y : Bytes) (ys : List Bytes) → member x ys ≡ true → member x (y ∷ ys) ≡ true
unfolding member
member_later x y ys h = ground arith

-- Where a walk can stop.
data Stop (current : Bytes) (roles : List Bytes) : Type 0 where
  at_end : current ≡ [] → Stop current roles
  seen : member current roles ≡ true → Stop current roles
  goes_on : current ≢ [] → member current roles ≡ false → Stop current roles

stop : (current : Bytes) (roles : List Bytes) → Stop current roles
stop [] roles = at_end refl
stop (c ∷ s) roles = elim (Bool-cases (member (c ∷ s) roles)) [
  | inl e ↦ seen e
  | inr e ↦ goes_on (λ z. cc) e
]

module _ (parents : List (Bytes × Bytes)) where
  walk_stops :
      (fuel : ℕ) (current : Bytes) (roles : List Bytes)
      → (is_empty current || member current roles) ≡ true
      → walk fuel parents current roles ≡ roles
  unfolding walk
  walk_stops zero current roles h = refl
  walk_stops (suc fuel) current roles h = rw h

  walk_steps :
      (fuel : ℕ) (current : Bytes) (roles : List Bytes)
      → (is_empty current || member current roles) ≡ false
      → walk (suc fuel) parents current roles
        ≡ walk fuel parents (parent_of parents current) (current ∷ roles)
  unfolding walk
  walk_steps fuel current roles h = rw h

  is_empty-ne : (s : Bytes) → s ≢ [] → is_empty s ≡ false
  is_empty-ne [] h = absurd (h refl)
  is_empty-ne (c ∷ s) h = refl

  going :
      (current : Bytes) (roles : List Bytes)
      → current ≢ []
      → member current roles ≡ false
      → (is_empty current || member current roles) ≡ false
  going current roles ne new = rw (is_empty-ne current ne, new)

  stopped :
      (current : Bytes) (roles : List Bytes)
      → (current ≡ []) ⊎ (member current roles ≡ true)
      → (is_empty current || member current roles) ≡ true
  stopped current roles (inl e) = rw e
  stopped current roles (inr e) = ground arith

  -- A walk keeps the members.
  pub walk-keeps :
      (fuel : ℕ) (current x : Bytes) (roles : List Bytes)
      → member x roles ≡ true
      → member x (walk fuel parents current roles) ≡ true
  unfolding walk
  walk-keeps zero current x roles h = h
  walk-keeps (suc fuel) current x roles h = ground (
    arith,
    walk-keeps fuel (parent_of parents current) x (current ∷ roles),
    member_later x current roles h,
  )

  pub walk-first :
      (fuel : ℕ) (current : Bytes) (roles : List Bytes)
      → current ≢ []
      → member current (walk (suc fuel) parents current roles) ≡ true
  unfolding walk
  walk-first fuel current roles ne = ground (
    arith,
    is_empty-ne current ne,
    walk-keeps fuel (parent_of parents current) current (current ∷ roles)
        (member_self current roles),
  )

  -- What a walk adds is inherited by the role that it starts from.
  pub walk_sound :
      (fuel : ℕ) (current x : Bytes) (roles : List Bytes)
      → member x (walk fuel parents current roles) ≡ true
      → (member x roles ≡ true) ⊎ Inherits parents current x
  unfolding walk
  walk_sound zero current x roles h = inl h
  walk_sound (suc fuel) current x roles h = elim (stop current roles) [
    | at_end e ↦ inl (rw (stopped current roles (inl e)) at h)
    | seen e ↦ inl (rw (stopped current roles (inr e)) at h)
    | goes_on ne new ↦
        elim (walk_sound fuel (parent_of parents current) x (current ∷ roles)
          (rw (going current roles ne new) at h)) [
            | inr up ↦ inr (above ne up)
            | inl old ↦ elim (member_cons x current roles old) [
              | inl same ↦ inr (subst (Inherits parents current) same (self ne))
              | inr older ↦ inl older
            ]
          ]
  ]

  Closed-step :
      (current : Bytes) (roles : List Bytes)
      → Closed parents current roles
      → Closed parents (parent_of parents current) (current ∷ roles)
  Closed-step current roles closed x h = elim (member_cons x current roles h) [
    | inl same ↦ inr (inr (ap (parent_of parents) (sym same)))
    | inr old ↦ elim (closed x old) [
      | inl none_above ↦ inl none_above
      | inr (inl inside) ↦ inr (inl (member_later _ current roles inside))
      | inr (inr pending) ↦ inr (inl (rw pending (member_self current roles)))
    ]
  ]

  Closed-stop :
      (current : Bytes) (roles : List Bytes)
      → (current ≡ []) ⊎ (member current roles ≡ true)
      → Closed parents current roles
      → Closed parents [] roles
  Closed-stop current roles reason closed x h = elim (closed x h) [
    | inl none_above ↦ inl none_above
    | inr (inl inside) ↦ inr (inl inside)
    | inr (inr pending) ↦ elim reason [
      | inl e ↦ inl (pending ∙ e)
      | inr e ↦ inr (inl (rw pending e))
    ]
  ]

  -- With fuel for the missing parents a walk from a parent ends with a closed set.
  walk-Closed :
      (fuel : ℕ) (current role : Bytes) (roles : List Bytes)
      → parent_of parents role ≡ current
      → missing parents roles < fuel
      → Closed parents current roles
      → Closed parents [] (walk fuel parents current roles)
  walk-Closed zero current role roles e enough closed = absurd (omega arith)
  walk-Closed (suc fuel) current role roles e enough closed = elim (stop current roles) [
    | at_end z ↦
        rw (walk_stops (suc fuel) current roles (stopped current roles (inl z)))
          (Closed-stop current roles (inl z) closed)
    | seen z ↦
        rw (walk_stops (suc fuel) current roles (stopped current roles (inr z)))
          (Closed-stop current roles (inr z) closed)
    | goes_on ne new ↦ rw (walk_steps fuel current roles (going current roles ne new)) (
        walk-Closed fuel (parent_of parents current) current (current ∷ roles) refl
          (omega (arith, missing-lt parents current role roles e ne new))
          (Closed-step current roles closed))
  ]

  Closed-weaken :
      (current : Bytes) (roles : List Bytes)
      → Closed parents [] roles
      → Closed parents current roles
  Closed-weaken current roles closed x h = elim (closed x h) [
    | inl e ↦ inl e
    | inr (inl inside) ↦ inr (inl inside)
    | inr (inr e) ↦ inl e
  ]

  -- The fuel of rolesForGroups is enough: from any role, a walk over a closed set ends with one.
  pub walk_fuel-Closed :
      (role : Bytes) (roles : List Bytes)
      → Closed parents [] roles
      → Closed parents [] (walk (walk_fuel parents) parents role roles)
  walk_fuel-Closed role roles closed = elim (stop role roles) [
    | at_end z ↦ rw (walk_stops _ role roles (stopped role roles (inl z))) closed
    | seen z ↦ rw (walk_stops _ role roles (stopped role roles (inr z))) closed
    | goes_on ne new ↦ rw (walk_steps _ role roles (going role roles ne new)) (
        walk-Closed _ (parent_of parents role) role (role ∷ roles) refl
          (omega (arith, missing-le parents (role ∷ roles)))
          (Closed-step role roles (Closed-weaken role roles closed)))
  ]
