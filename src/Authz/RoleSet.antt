-- ===== src/Authz/RoleSet.antt =====
-- The set of roles that rolesForGroups computes.
use vaultsmith.Base.{
  ◌≡◌, ◌≢◌, ◌↔◌, ◌⊎◌, sym, subst, true, List, [], ◌∷◌, ◌++◌, inl, inr, codes, Bytes,
}
use vaultsmith.Authz.Policy.{
  Policy, member, roles_of, walk, walk_fuel, add_roles, add_groups, roles_for_groups,
}
use vaultsmith.Authz.Roles.{
  Inherits, self, above, Closed, member_cons, member_self, member_later, walk-keeps, walk-first,
  walk_sound, walk_fuel-Closed,
}

pub not_member_nil : (x : Bytes) → member x [] ≢ true
unfolding member
not_member_nil x h = cc

Inherits-ne-nil :
    {parents : List (Bytes × Bytes)} {role x : Bytes} → Inherits parents role x → role ≢ []
Inherits-ne-nil (self ne) = ne
Inherits-ne-nil (above ne up) = ne

module _ (policy : Policy) where
  -- The role `x` comes from one of the groups.
  pub record Granted (groups : List Bytes) (x : Bytes) : Type 0 where
    pub group : Bytes
    pub role : Bytes
    pub in_groups : member group groups ≡ true
    pub assigned : member role (roles_of policy.group_roles (codes "group:" ++ group)) ≡ true
    pub inherits : Inherits policy.parents role x

  add_roles-keeps :
      (assigned : List Bytes) (x : Bytes) (roles : List Bytes)
      → member x roles ≡ true
      → member x (add_roles policy.parents assigned roles) ≡ true
  unfolding add_roles
  add_roles-keeps [] x roles h = h
  add_roles-keeps (role ∷ rest) x roles h =
      add_roles-keeps rest x _ (walk-keeps policy.parents _ role x roles h)

  add_roles_sound :
      (assigned : List Bytes) (x : Bytes) (roles : List Bytes)
      → member x (add_roles policy.parents assigned roles) ≡ true
      → (member x roles ≡ true)
        ⊎ ((role : Bytes) × (member role assigned ≡ true) × Inherits policy.parents role x)
  unfolding add_roles
  add_roles_sound [] x roles h = inl h
  add_roles_sound (role ∷ rest) x roles h = elim (add_roles_sound rest x _ h) [
    | inr (r, among, up) ↦ inr (r, member_later r role rest among, up)
    | inl walked ↦ elim (walk_sound policy.parents _ role x roles walked) [
      | inl old ↦ inl old
      | inr up ↦ inr (role, member_self role rest, up)
    ]
  ]

  add_roles-Closed :
      (assigned : List Bytes) (roles : List Bytes)
      → Closed policy.parents [] roles
      → Closed policy.parents [] (add_roles policy.parents assigned roles)
  unfolding add_roles
  add_roles-Closed [] roles closed = closed
  add_roles-Closed (role ∷ rest) roles closed =
      add_roles-Closed rest _ (walk_fuel-Closed policy.parents role roles closed)

  add_roles-adds :
      (assigned : List Bytes) (role : Bytes) (roles : List Bytes)
      → role ≢ []
      → member role assigned ≡ true
      → member role (add_roles policy.parents assigned roles) ≡ true
  unfolding add_roles
  add_roles-adds [] role roles ne h = absurd (not_member_nil role h)
  add_roles-adds (r ∷ rest) role roles ne h = elim (member_cons role r rest h) [
    | inl same ↦ add_roles-keeps rest role _ (
        subst (λ q. member role (walk (walk_fuel policy.parents) policy.parents q roles) ≡ true)
          (sym same) (walk-first policy.parents _ role roles ne))
    | inr later ↦ add_roles-adds rest role _ ne later
  ]

  -- The roles assigned to one group.
  abbrev assigned_to : Bytes → List Bytes
  assigned_to group = roles_of policy.group_roles (codes "group:" ++ group)

  add_groups-keeps :
      (groups : List Bytes) (x : Bytes) (roles : List Bytes)
      → member x roles ≡ true
      → member x (add_groups policy groups roles) ≡ true
  unfolding add_groups
  add_groups-keeps [] x roles h = h
  add_groups-keeps (g ∷ rest) x roles h =
      add_groups-keeps rest x _ (add_roles-keeps (assigned_to g) x roles h)

  Granted-later :
      (g : Bytes) (groups : List Bytes) (x : Bytes) → Granted groups x → Granted (g ∷ groups) x
  Granted-later g groups x k = record {
    group = k.group;
    role = k.role;
    in_groups = member_later k.group g groups k.in_groups;
    assigned = k.assigned;
    inherits = k.inherits;
  }

  add_groups_sound :
      (groups : List Bytes) (x : Bytes) (roles : List Bytes)
      → member x (add_groups policy groups roles) ≡ true
      → (member x roles ≡ true) ⊎ Granted groups x
  unfolding add_groups
  add_groups_sound [] x roles h = inl h
  add_groups_sound (g ∷ rest) x roles h = elim (add_groups_sound rest x _ h) [
    | inr k ↦ inr (Granted-later g rest x k)
    | inl here ↦ elim (add_roles_sound (assigned_to g) x roles here) [
      | inl old ↦ inl old
      | inr (role, among, up) ↦ inr (record {
        group = g;
        role = role;
        in_groups = member_self g rest;
        assigned = among;
        inherits = up;
      })
    ]
  ]

  add_groups-Closed :
      (groups roles : List Bytes)
      → Closed policy.parents [] roles
      → Closed policy.parents [] (add_groups policy groups roles)
  unfolding add_groups
  add_groups-Closed [] roles closed = closed
  add_groups-Closed (g ∷ rest) roles closed =
      add_groups-Closed rest _ (add_roles-Closed (assigned_to g) roles closed)

  add_groups-adds :
      (groups : List Bytes) (group role : Bytes) (roles : List Bytes)
      → role ≢ []
      → member group groups ≡ true
      → member role (assigned_to group) ≡ true
      → member role (add_groups policy groups roles) ≡ true
  unfolding add_groups
  add_groups-adds [] group role roles ne h among = absurd (not_member_nil group h)
  add_groups-adds (g ∷ rest) group role roles ne h among = elim (member_cons group g rest h) [
    | inl same ↦ add_groups-keeps rest role _ (
        add_roles-adds (assigned_to g) role roles ne
          (subst (λ q. member role (assigned_to q) ≡ true) (sym same) among))
    | inr later ↦ add_groups-adds rest group role _ ne later among
  ]

  -- A closed set holds what its members inherit.
  Inherits-member :
      {role x : Bytes} (roles : List Bytes)
      → Closed policy.parents [] roles
      → Inherits policy.parents role x
      → member role roles ≡ true
      → member x roles ≡ true
  Inherits-member roles closed (self ne) h = h
  Inherits-member roles closed (above {role} ne up) h = elim (closed role h) [
    | inl none_above ↦ absurd (Inherits-ne-nil up none_above)
    | inr (inl inside) ↦ Inherits-member roles closed up inside
    | inr (inr none_above) ↦ absurd (Inherits-ne-nil up none_above)
  ]

  -- A caller has a role exactly when one of the caller's groups is assigned a role that inherits
  -- it, whatever the roles' inheritance looks like, cycles included.
  pub member-roles_for_groups_iff :
      (groups : List Bytes) (x : Bytes)
      → (member x (roles_for_groups policy groups) ≡ true) ↔ Granted groups x
  unfolding roles_for_groups
  member-roles_for_groups_iff groups x = (sound, complete)
    where
      sound : member x (add_groups policy groups []) ≡ true → Granted groups x
      sound h = elim (add_groups_sound groups x [] h) [
        | inl old ↦ absurd (not_member_nil x old)
        | inr k ↦ k
      ]

      complete : Granted groups x → member x (add_groups policy groups []) ≡ true
      complete k =
          Inherits-member _ (add_groups-Closed groups [] (λ y h. absurd (not_member_nil y h)))
            k.inherits
            (add_groups-adds groups k.group k.role [] (Inherits-ne-nil k.inherits) k.in_groups
              k.assigned)
