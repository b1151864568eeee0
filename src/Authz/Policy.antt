-- ===== src/Authz/Policy.antt =====
-- Rule, Policy, the matchers and rolesForGroups of authorizer.go. A Go map is an association list:
-- the first entry of a key is its value, and a missing key has the zero value.
use vaultsmith.Base.{
  ℕ, zero, suc, Bool, false, ◌||◌, List, [], ◌∷◌, ◌++◌, if◌then◌else◌, codes, Bytes, bytes_eq,
  has_prefix, is_empty, length, Option, none, some,
}

pub record Rule : Type 0 where
  pub subject : Bytes
  pub object : Bytes
  pub action : Bytes
  pub effect : Bytes

-- The fields that decisions read; the file's path, time and size are those of the loader.
pub record Policy : Type 0 where
  pub rules : List Rule
  pub group_roles : List (Bytes × List Bytes)
  pub parents : List (Bytes × Bytes)

unfoldable pub member : Bytes → List Bytes → Bool
member x [] = false
member x (y ∷ ys) = bytes_eq y x || member x ys

-- `p.parents[role]`
unfoldable pub parent_of : List (Bytes × Bytes) → Bytes → Bytes
parent_of [] role = []
parent_of ((child, parent) ∷ rest) role =
    if bytes_eq child role then parent else parent_of rest role

-- `p.groupRoles[group]`
unfoldable pub roles_of : List (Bytes × List Bytes) → Bytes → List Bytes
roles_of [] group = []
roles_of ((name, roles) ∷ rest) group = if bytes_eq name group then roles else roles_of rest group

-- The innermost loop of rolesForGroups: from a role up through its parents, until there is none or
-- one that is in the set already.
unfoldable pub walk : ℕ → List (Bytes × Bytes) → Bytes → List Bytes → List Bytes
walk zero parents current roles = roles
walk (suc fuel) parents current roles =
    let rest = walk fuel parents (parent_of parents current) (current ∷ roles) in
    if is_empty current || member current roles then roles else rest

-- Each round adds a role, and every role after the first is the parent of some role.
abbrev pub walk_fuel : List (Bytes × Bytes) → ℕ
walk_fuel parents = suc (suc (length parents))

unfoldable pub add_roles : List (Bytes × Bytes) → List Bytes → List Bytes → List Bytes
add_roles parents [] roles = roles
add_roles parents (role ∷ rest) roles =
    add_roles parents rest (walk (walk_fuel parents) parents role roles)

unfoldable pub add_groups : Policy → List Bytes → List Bytes → List Bytes
add_groups policy [] roles = roles
add_groups policy (group ∷ rest) roles =
    add_groups policy rest
      (add_roles policy.parents (roles_of policy.group_roles (codes "group:" ++ group)) roles)

-- The set as the list of its members, the last one first.
unfoldable pub roles_for_groups : Policy → List Bytes → List Bytes
roles_for_groups policy groups = add_groups policy groups []

-- `strings.HasSuffix(selector, "*")` with the text before it.
unfoldable pub trim_star : Bytes → Option Bytes
trim_star [] = none
trim_star (c ∷ []) = if bytes_eq (c ∷ []) (codes "*") then some [] else none
trim_star (c ∷ d ∷ s) = elim (trim_star (d ∷ s)) [ none ↦ none | some front ↦ some (c ∷ front) ]

unfoldable pub matches_policy_object : Bytes → Bytes → Bool
matches_policy_object resource selector = elim (trim_star selector) [
  | some prefix ↦ has_prefix prefix resource
  | none ↦ bytes_eq resource selector
]

-- `profile:<id>` and `rotation:<source>:<destination>`
unfoldable pub profile_resource : Bytes → Bytes
profile_resource id = codes "profile:" ++ id

unfoldable pub rotation_resource : Bytes → Bytes → Bytes
rotation_resource source destination = codes "rotation:" ++ (source ++ (codes ":" ++ destination))
