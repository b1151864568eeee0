-- ===== src/Authz/Examples.antt =====
-- Tests of the authorizer on a concrete policy, and its theorems at concrete inputs.
use vaultsmith.Base.{
  ◌≡◌, ◌↔◌, ◌⊎◌, refl, true, List, [], ◌∷◌, ◌++◌, here, there, codes, Bytes, bytes_eq, some, ok,
}
use vaultsmith.Text.Cut
use vaultsmith.Text.Space.{trim_space}
use vaultsmith.Config.{is_valid_profile_id}
use vaultsmith.Authz.Policy.{
  Rule, Policy, member, parent_of, roles_of, walk, add_roles, add_groups, roles_for_groups,
  trim_star, matches_policy_object, rotation_resource, profile_resource,
}
use vaultsmith.Authz.Roles.{Inherits, self, above}
use vaultsmith.Authz.RoleSet.{Granted, member-roles_for_groups_iff}
use vaultsmith.Authz.Enforce.{
  Enforce, IsCasbin, matches_rule, policy_effect, authorize_with_policy, action_encrypt,
  action_rotate,
}
use vaultsmith.Authz.Enforce.Decide.{Applies, authorize_with_policy_iff}
use vaultsmith.Authz.Validate.{
  known_profile, rotation_endpoints, valid_selector, validate_object, valid_rule, valid_rules,
  chain_ok, known_roles, validate_policy,
}
use vaultsmith.Authz.Validate.Depth.{Inherits-one_level}
use vaultsmith.Authz.Validate.Rotation.{NamesPair, rotation_rule_iff}
use vaultsmith.Authz.Load.{
  Row, Snapshot, World, check_rows, read_rules, append_role, has_parent, read_grouping,
  read_groupings, load_policy,
}
use vaultsmith.Authz.Authorizer.{current_policy, authorize}
use vaultsmith.Authz.Authorizer.Fresh.{Current, current_policy_iff, authorize_iff}
use vaultsmith.Authz.Authorizer.Rotate.{PairRule, authorize_rotate_iff}

abbrev rotation_rule : Rule
rotation_rule = record {
  subject = codes "role:ops";
  object = codes "rotation:dev:prod";
  action = codes "rotate";
  effect = codes "allow";
}

abbrev encrypt_rule : Rule
encrypt_rule = record {
  subject = codes "role:ops";
  object = codes "profile:d*";
  action = codes "encrypt";
  effect = codes "allow";
}

abbrev profile_ids : List Bytes
profile_ids = codes "dev" ∷ codes "prod" ∷ []

-- The leads of a group are also operators.
abbrev policy : Policy
policy = record {
  rules = encrypt_rule ∷ rotation_rule ∷ [];
  group_roles = (codes "group:team", codes "role:lead" ∷ []) ∷ [];
  parents = (codes "role:lead", codes "role:ops") ∷ [];
}

abbrev team : List Bytes
team = codes "team" ∷ []

-- An enforcer as the model file describes it.
abbrev enforce : Enforce
enforce = λ rules roles resource action. some (policy_effect rules roles resource action)

enforce-IsCasbin : IsCasbin enforce
enforce-IsCasbin rules roles resource action = refl

abbrev permission_rows : List Row
permission_rows =
    (codes "role:ops" ∷ codes "profile:d*" ∷ codes "encrypt" ∷ codes "allow" ∷ [])
    ∷ (codes "role:ops" ∷ codes "rotation:dev:prod" ∷ codes "rotate" ∷ codes "allow" ∷ [])
    ∷ []

abbrev grouping_rows : List Row
grouping_rows =
    (codes "group:team" ∷ codes "role:lead" ∷ []) ∷ (codes "role:lead" ∷ codes "role:ops" ∷ []) ∷ []

tag : Bytes → List Row → List Row
tag kind [] = []
tag kind (row ∷ rows) = (kind ∷ row) ∷ tag kind rows

-- A file of 120 bytes that was written at time 7.
abbrev world : World
world = record {
  stat = λ path. some (7, 120);
  read_rows = λ path. some (tag (codes "p") permission_rows ++ tag (codes "g") grouping_rows);
  store_rows = λ rows. some (permission_rows, grouping_rows);
}

abbrev held : Snapshot
held = record {
  policy = policy;
  path = codes "/etc/policy.csv";
  profile_ids = profile_ids;
  mod_time = 7;
  size = 120;
}

-- Opens the decisions and the loading of a policy for the tests below.
decisions : Unit {0}
unfolding member parent_of roles_of walk add_roles add_groups roles_for_groups trim_star
    matches_policy_object rotation_resource profile_resource matches_rule policy_effect
    authorize_with_policy bytes_eq is_valid_profile_id Cut.contains Cut.split known_profile
    rotation_endpoints valid_selector validate_object valid_rule valid_rules chain_ok known_roles
    validate_policy tag check_rows read_rules append_role has_parent read_grouping read_groupings
    load_policy trim_space current_policy authorize
decisions = tt

validates : validate_policy policy profile_ids ≡ true
unfolding decisions
validates = refl

allowed_to_rotate :
    authorize_with_policy enforce policy team action_rotate
      (rotation_resource (codes "dev") (codes "prod"))
    ≡ ok tt
unfolding decisions
allowed_to_rotate = refl

loads : load_policy world (codes "/etc/policy.csv") profile_ids ≡ ok held
unfolding decisions
loads = refl

changed : current_policy world (record held { mod_time = 6 }) ≡ (ok policy, held)
unfolding decisions
changed = refl

lead-Inherits : Inherits policy.parents (codes "role:lead") (codes "role:ops")
unfolding decisions
lead-Inherits = above (λ e. cc) (self (λ e. cc))

member-roles_for_groups_iff_example :
    (member (codes "role:ops") (roles_for_groups policy team) ≡ true)
    ↔ Granted policy team (codes "role:ops")
member-roles_for_groups_iff_example = member-roles_for_groups_iff policy team (codes "role:ops")

authorize_with_policy_iff_example :
    (authorize_with_policy enforce policy team action_encrypt (profile_resource (codes "dev"))
      ≡ ok tt)
    ↔ (Applies policy team (profile_resource (codes "dev")) action_encrypt (codes "allow")
        × (¬ Applies policy team (profile_resource (codes "dev")) action_encrypt (codes "deny")))
authorize_with_policy_iff_example =
    authorize_with_policy_iff enforce enforce-IsCasbin policy team action_encrypt
      (profile_resource (codes "dev"))

Inherits-one_level_example :
    (codes "role:ops" ≡ codes "role:lead")
    ⊎ (codes "role:ops" ≡ parent_of policy.parents (codes "role:lead"))
Inherits-one_level_example =
    Inherits-one_level policy profile_ids (codes "role:lead") (codes "role:ops") validates
      lead-Inherits

rotation_rule_iff_example :
    (n : NamesPair profile_ids rotation_rule.object) × ((s d : Bytes)
      → is_valid_profile_id s ≡ true
      → (matches_policy_object (rotation_resource s d) rotation_rule.object ≡ true)
        ↔ ((s ≡ n.source) × (d ≡ n.destination)))
rotation_rule_iff_example =
    rotation_rule_iff policy profile_ids rotation_rule validates (there here) refl

authorize_rotate_iff_example :
    (authorize_with_policy enforce policy team action_rotate
        (rotation_resource (codes "dev") (codes "prod"))
      ≡ ok tt)
    ↔ (PairRule policy team (codes "dev") (codes "prod") (codes "allow")
        × (¬ PairRule policy team (codes "dev") (codes "prod") (codes "deny")))
unfolding decisions
authorize_rotate_iff_example =
    authorize_rotate_iff enforce enforce-IsCasbin policy profile_ids team (codes "dev")
      (codes "prod") validates refl

current_policy_iff_example :
    (current_policy world (record held { mod_time = 6 }) ≡ (ok policy, held))
    ↔ Current world (record held { mod_time = 6 }) policy held
current_policy_iff_example = current_policy_iff world (record held { mod_time = 6 }) policy held

authorize_iff_example :
    ((authorize enforce world held team action_encrypt (profile_resource (codes "dev"))).0 ≡ ok tt)
    ↔ ((p : Policy) × (next : Snapshot) × Current world held p next
        × Applies p team (profile_resource (codes "dev")) action_encrypt (codes "allow")
        × (¬ Applies p team (profile_resource (codes "dev")) action_encrypt (codes "deny")))
authorize_iff_example =
    authorize_iff enforce enforce-IsCasbin world held team action_encrypt
      (profile_resource (codes "dev"))
