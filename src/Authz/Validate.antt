-- ===== src/Authz/Validate.antt =====
-- validatePolicy and validateObject of authorizer.go. All failures wrap the one policy error, so a
-- check is its Boolean outcome.
pub mod Depth
pub mod Rotation
use vaultsmith.Base.{
  ℕ, zero, suc, ◌+◌, Bool, true, false, not, ◌||◌, ◌&&◌, List, [], ◌∷◌, ◌++◌, ltb, any, codes,
  Bytes, bytes_eq, has_prefix, is_empty, drop, if◌then◌else◌, Option, none, some, map,
}
use vaultsmith.Text.Cut.{contains, split}
use vaultsmith.Config.{is_valid_profile_id}
use vaultsmith.Authz.Policy.{Rule, Policy, member, parent_of, trim_star}
use vaultsmith.Authz.Enforce.{
  action_list_profiles, action_encrypt, action_decrypt, action_rotate, resource_profiles,
}

abbrev pub all {ℓ} : {A : Type ℓ} → (A → Bool) → List A → Bool
all p [] = true
all p (x ∷ xs) = p x && all p xs

-- `_, ok := profiles[id]; ok && config.IsValidProfileID(id)`
unfoldable pub known_profile : List Bytes → Bytes → Bool
known_profile profiles id = member id profiles && is_valid_profile_id id

-- The endpoints that `strings.Split(object, ":")` gives.
unfoldable pub rotation_endpoints : List Bytes → List Bytes → Bool
unfolding known_profile
rotation_endpoints profiles (kind ∷ source ∷ destination ∷ []) =
    bytes_eq kind (codes "rotation")
    && known_profile profiles source
    && known_profile profiles destination
rotation_endpoints profiles _ = false

-- The text behind `profile:`. A prefix selector is one with a star at its end and nowhere else.
unfoldable pub valid_selector : List Bytes → Bytes → Bool
unfolding known_profile
valid_selector profiles selector = elim (trim_star selector) [
  | some prefix ↦
      not (contains b'*' prefix)
      && is_valid_profile_id prefix
      && any (λ id. has_prefix prefix id) profiles
  | none ↦ not (contains b'*' selector) && known_profile profiles selector
]

unfoldable pub validate_object : List Bytes → Bytes → Bytes → Bool
validate_object profiles object action =
    if bytes_eq action action_rotate
    then rotation_endpoints profiles (split b':' object)
    else if bytes_eq object resource_profiles
    then bytes_eq action action_list_profiles
    else if not (has_prefix (codes "profile:") object) || bytes_eq action action_list_profiles
    then false
    else valid_selector profiles (drop 8 object)

-- The key of a rule among the rules seen: its fields with zero bytes between.
rule_key : Rule → Bytes
rule_key rule = rule.subject ++ (0 ∷ (rule.object ++ (0 ∷ (rule.action ++ (0 ∷ rule.effect)))))

-- The checks on one rule that do not look at the others.
unfoldable pub valid_rule : List Bytes → Rule → Bool
valid_rule profiles rule =
    has_prefix (codes "role:") rule.subject
    && not (bytes_eq rule.subject (codes "role:"))
    && (bytes_eq rule.effect (codes "allow") || bytes_eq rule.effect (codes "deny"))
    && (bytes_eq rule.action action_list_profiles
        || bytes_eq rule.action action_encrypt
        || bytes_eq rule.action action_decrypt
        || bytes_eq rule.action action_rotate)
    && validate_object profiles rule.object rule.action

unfoldable pub valid_rules : List Bytes → List Bytes → List Rule → Bool
unfolding rule_key
valid_rules profiles seen [] = true
valid_rules profiles seen (rule ∷ rules) =
    valid_rule profiles rule
    && not (member (rule_key rule) seen)
    && valid_rules profiles (rule_key rule ∷ seen) rules

-- The loop over the chain of one role. It ends, at the latest, at the third role, whose depth is 2.
unfoldable pub chain_ok : ℕ → List (Bytes × Bytes) → List Bytes → Bytes → ℕ → Bool
chain_ok zero parents seen current depth = false
chain_ok (suc fuel) parents seen current depth =
    let rest = chain_ok fuel parents (current ∷ seen) (parent_of parents current) (depth + 1) in
    if is_empty current
    then true
    else if member current seen
    then false
    else if ltb 1 depth
    then false
    else rest

-- The roles that some rule or some inheritance names.
unfoldable pub known_roles : Policy → List Bytes
known_roles policy =
    map (λ rule. rule.subject) policy.rules
    ++ (map (λ entry. entry.0) policy.parents ++ map (λ entry. entry.1) policy.parents)

unfoldable pub validate_policy : Policy → List Bytes → Bool
validate_policy policy profile_ids =
    all is_valid_profile_id profile_ids
    && valid_rules profile_ids [] policy.rules
    && all (λ entry. chain_ok 3 policy.parents [] entry.0 0) policy.parents
    && all (λ entry. all (λ role. member role (known_roles policy)) entry.1) policy.group_roles
