-- ===== src/Authz/Authorizer/Rotate.antt =====
-- Rotation is authorized by the pair of profiles alone.
use vaultsmith.Base.{◌≡◌, ◌↔◌, ap, sym, ◌∙◌, List, In, true, Bytes, codes, ok}
use vaultsmith.Config.{is_valid_profile_id}
use vaultsmith.Authz.Policy.{Rule, Policy, rotation_resource}
use vaultsmith.Authz.RoleSet.{Granted}
use vaultsmith.Authz.Enforce.{Enforce, IsCasbin, authorize_with_policy, action_rotate}
use vaultsmith.Authz.Enforce.Decide.{Applies, authorize_with_policy_iff}
use vaultsmith.Authz.Validate.{validate_policy}
use vaultsmith.Authz.Validate.Rotation.{rotation_rule_iff, rotation_resource-injective}

-- A rule of this effect, for one of the caller's roles, whose object is the pair itself.
pub record PairRule (policy : Policy) (groups : List Bytes) (source destination effect : Bytes)
    : Type 0 where
  pub rule : Rule
  pub among : In rule policy.rules
  pub granted : Granted policy groups rule.subject
  pub same_object : rule.object ≡ rotation_resource source destination
  pub is_rotate : rule.action ≡ action_rotate
  pub has_effect : rule.effect ≡ effect

module _ (policy : Policy) (profile_ids groups : List Bytes) (source destination : Bytes)
    (valid : validate_policy policy profile_ids ≡ true)
    (valid_source : is_valid_profile_id source ≡ true) where
  PairRule-of_Applies :
      (effect : Bytes)
      → Applies policy groups (rotation_resource source destination) action_rotate effect
      → PairRule policy groups source destination effect
  PairRule-of_Applies effect a =
      let (n, pairs) =
        rotation_rule_iff policy profile_ids a.rule valid a.among (sym a.same_action) in
      let (s, d) = (pairs source destination valid_source).0 a.matches in
      record {
        rule = a.rule;
        among = a.among;
        granted = a.granted;
        same_object =
            n.object_is
            ∙ ap (λ x. rotation_resource x n.destination) (sym s)
            ∙ ap (rotation_resource source) (sym d);
        is_rotate = sym a.same_action;
        has_effect = a.has_effect;
      }

  Applies-of_PairRule :
      (effect : Bytes)
      → PairRule policy groups source destination effect
      → Applies policy groups (rotation_resource source destination) action_rotate effect
  Applies-of_PairRule effect r =
      let (n, pairs) = rotation_rule_iff policy profile_ids r.rule valid r.among r.is_rotate in
      let is_pair =
        rotation_resource-injective source destination n.source n.destination valid_source
          n.source_valid (sym r.same_object ∙ n.object_is) in
      record {
        rule = r.rule;
        among = r.among;
        granted = r.granted;
        matches = (pairs source destination valid_source).1 is_pair;
        same_action = sym r.is_rotate;
        has_effect = r.has_effect;
      }

-- Under a validated policy a rotation between two profiles is authorized exactly when a rule whose
-- object is that very pair allows it to one of the caller's roles, and no rule for that pair denies
-- it: rules for encryption, decryption or other pairs, and selectors with a star, play no part.
pub authorize_rotate_iff :
    (enforce : Enforce)
    → IsCasbin enforce
    → (policy : Policy) (profile_ids groups : List Bytes) (source destination : Bytes)
    → validate_policy policy profile_ids ≡ true
    → is_valid_profile_id source ≡ true
    → (authorize_with_policy enforce policy groups action_rotate
          (rotation_resource source destination)
        ≡ ok tt)
      ↔ (PairRule policy groups source destination (codes "allow")
          × (¬ PairRule policy groups source destination (codes "deny")))
authorize_rotate_iff enforce casbin policy ids groups source destination valid valid_source =
    let decided =
      authorize_with_policy_iff enforce casbin policy groups action_rotate
        (rotation_resource source destination) in
    let to = PairRule-of_Applies policy ids groups source destination valid valid_source in
    let back = Applies-of_PairRule policy ids groups source destination valid valid_source in
    (
      λ h. let (a, d) = decided.0 h in (to (codes "allow") a, λ r. d (back (codes "deny") r)),
      λ (a, d). decided.1 (back (codes "allow") a, λ r. d (to (codes "deny") r)),
    )
