-- ===== src/Authz/Enforce.antt =====
-- Decisions: authorizeWithPolicy, Evaluate, Authorize, AuthorizeRotate, CapabilitiesForProfiles and
-- currentPolicy of authorizer.go, with the matcher and the effect of model.conf. The enforcer of
-- casbin is a parameter.
pub mod Decide
use vaultsmith.Base.{
  ℕ, ◌≡◌, Bool, true, false, not, ◌||◌, ◌&&◌, List, [], ◌∷◌, ◌==◌, any, codes, Bytes, bytes_eq,
  is_empty, if◌then◌else◌, Option, none, some, Result, ok, err, ◌>>=◌, ◌>>◌, guard,
}
use vaultsmith.Authz.Policy.{
  Rule, Policy, member, roles_for_groups, matches_policy_object, profile_resource,
  rotation_resource,
}

pub data AuthzError : Type 0 where
  forbidden policy_unavailable : AuthzError

abbrev pub action_list_profiles : Bytes
action_list_profiles = codes "profiles:list"

abbrev pub action_encrypt : Bytes
action_encrypt = codes "encrypt"

abbrev pub action_decrypt : Bytes
action_decrypt = codes "decrypt"

abbrev pub action_rotate : Bytes
action_rotate = codes "rotate"

abbrev pub resource_profiles : Bytes
resource_profiles = codes "profiles"

pub record Check : Type 0 where
  pub action : Bytes
  pub resource : Bytes

-- The matcher: `vaultsmithHasRole(r.sub, p.sub) && vaultsmithMatch(r.obj, p.obj) && r.act == p.act`.
unfoldable pub matches_rule : List Bytes → Bytes → Bytes → Rule → Bool
matches_rule roles resource action rule =
    member rule.subject roles
    && matches_policy_object resource rule.object
    && bytes_eq action rule.action

-- The effect: some matching rule allows, and none denies.
unfoldable pub policy_effect : List Rule → List Bytes → Bytes → Bytes → Bool
policy_effect rules roles resource action =
    any (λ rule. matches_rule roles resource action rule && bytes_eq rule.effect (codes "allow"))
      rules
    && not (
        any (λ rule. matches_rule roles resource action rule && bytes_eq rule.effect (codes "deny"))
          rules)

-- `enforcer.Enforce` on the loaded rules; `none` is an error.
abbrev pub Enforce : Type 0
Enforce = List Rule → List Bytes → Bytes → Bytes → Option Bool

-- casbin evaluates the effect of the model over the matcher of the model.
abbrev pub IsCasbin : Enforce → Type 0
IsCasbin enforce =
    (rules : List Rule) (roles : List Bytes) (resource action : Bytes)
    → enforce rules roles resource action ≡ some (policy_effect rules roles resource action)

decision : Option Bool → Result AuthzError (Unit {0})
decision none = err policy_unavailable
decision (some true) = ok tt
decision (some false) = err forbidden

-- One round of the loop of Evaluate.
verdict : Result AuthzError (Unit {0}) → Result AuthzError Bool
verdict (ok _) = ok true
verdict (err forbidden) = ok false
verdict (err policy_unavailable) = err policy_unavailable

module _ (enforce : Enforce) where
  -- The actor is the list of the caller's groups.
  unfoldable pub authorize_with_policy :
      Policy → List Bytes → Bytes → Bytes → Result AuthzError (Unit {0})
  unfolding decision
  authorize_with_policy policy groups action resource =
      let roles = roles_for_groups policy groups in
      if is_empty roles
      then err forbidden
      else decision (enforce policy.rules roles resource action)

  unfoldable pub evaluate_checks : Policy → List Bytes → List Check → Result AuthzError (List Bool)
  unfolding verdict
  evaluate_checks policy groups [] = ok []
  evaluate_checks policy groups (check ∷ checks) =
      let rest = evaluate_checks policy groups checks in
      do
        allowed ← verdict (authorize_with_policy policy groups check.action check.resource)
        decisions ← rest
        ok (allowed ∷ decisions)
