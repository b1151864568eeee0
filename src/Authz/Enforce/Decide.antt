-- ===== src/Authz/Enforce/Decide.antt =====
-- What a decision means: an applicable rule allows and none denies.
use vaultsmith.Base.{
  if◌then◌else◌, ◌≡◌, ◌≢◌, ◌↔◌, refl, sym, ◌∙◌, Bool, true, false, not, ◌&&◌, List, [], ◌∷◌, inl,
  inr, arith, any, any-In, In-any, In, Bool-cases, &&-eq-true, codes, Bytes, bytes_eq, bytes_eq_iff,
  is_empty, some, ok, err, Result,
}
use vaultsmith.Authz.Policy.{Rule, Policy, member, roles_for_groups, matches_policy_object}
use vaultsmith.Authz.RoleSet.{Granted, member-roles_for_groups_iff, not_member_nil}
use vaultsmith.Authz.Enforce.{
  AuthzError, forbidden, matches_rule, policy_effect, Enforce, IsCasbin, authorize_with_policy,
  decision,
}

-- A rule of the policy with this effect applies to a caller of these groups.
pub record Applies (policy : Policy) (groups : List Bytes) (resource action effect : Bytes)
    : Type 0 where
  pub rule : Rule
  pub among : In rule policy.rules
  pub granted : Granted policy groups rule.subject
  pub matches : matches_policy_object resource rule.object ≡ true
  pub same_action : action ≡ rule.action
  pub has_effect : rule.effect ≡ effect

not-member-empty : (x : Bytes) (roles : List Bytes) → is_empty roles ≡ true → member x roles ≢ true
not-member-empty x [] z h = not_member_nil x h
not-member-empty x (r ∷ roles) z h = cc

module _ (policy : Policy) (groups : List Bytes) (resource action : Bytes) where
  abbrev passes : Bytes → Rule → Bool
  passes effect rule =
      matches_rule (roles_for_groups policy groups) resource action rule
      && bytes_eq rule.effect effect

  Applies-of_any :
      (effect : Bytes)
      → any (passes effect) policy.rules ≡ true
      → Applies policy groups resource action effect
  unfolding matches_rule
  Applies-of_any effect h =
      let (rule, among, ok_rule) = any-In (passes effect) policy.rules h in
      let (matched, eft) = &&-eq-true _ (bytes_eq rule.effect effect) ok_rule in
      let (front, act) = &&-eq-true _ (bytes_eq action rule.action) matched in
      let (has_role, object_matches) =
        &&-eq-true (member rule.subject (roles_for_groups policy groups)) _ front in
      record {
        rule = rule;
        among = among;
        granted = (member-roles_for_groups_iff policy groups rule.subject).0 has_role;
        matches = object_matches;
        same_action = (bytes_eq_iff action rule.action).0 act;
        has_effect = (bytes_eq_iff rule.effect effect).0 eft;
      }

  any-of_Applies :
      (effect : Bytes)
      → Applies policy groups resource action effect
      → any (passes effect) policy.rules ≡ true
  unfolding matches_rule
  any-of_Applies effect a = In-any (passes effect) a.among (
      rw (
        (member-roles_for_groups_iff policy groups a.rule.subject).1 a.granted,
        a.matches,
        (bytes_eq_iff action a.rule.action).1 a.same_action,
        (bytes_eq_iff a.rule.effect effect).1 a.has_effect,
      ))

  no_roles :
      is_empty (roles_for_groups policy groups) ≡ true
      → (effect : Bytes) → any (passes effect) policy.rules ≡ false
  no_roles h effect = elim (Bool-cases (any (passes effect) policy.rules)) [
    | inr e ↦ e
    | inl e ↦
        let subject = (Applies-of_any effect e).rule.subject in
        let granted = (Applies-of_any effect e).granted in
        absurd (
          not-member-empty subject _ h
            ((member-roles_for_groups_iff policy groups subject).1 granted))
  ]

abbrev outcome : Bool → Result AuthzError (Unit {0})
outcome b = if b then ok tt else err forbidden

decision-if : (b : Bool) → decision (some b) ≡ (if b then ok tt else err forbidden)
unfolding decision
decision-if true = refl
decision-if false = refl

decided_parts : (a d : Bool) → outcome (a && not d) ≡ ok tt → (a ≡ true) × (d ≡ false)
decided_parts a d h = ground arith

decided_ok : (a d : Bool) → a ≡ true → d ≢ true → outcome (a && not d) ≡ ok tt
decided_ok a true h k = absurd (k refl)
decided_ok a false h k = ground arith

module _ (enforce : Enforce) (casbin : IsCasbin enforce) (policy : Policy)
    (groups : List Bytes) where
  -- Under casbin's documented behaviour the decision is that of the effect, with no roles too.
  authorize_with_policy-eq :
      (action resource : Bytes)
      → authorize_with_policy enforce policy groups action resource ≡ (
          if policy_effect policy.rules (roles_for_groups policy groups) resource action
          then ok tt
          else err forbidden)
  unfolding authorize_with_policy policy_effect
  authorize_with_policy-eq action resource =
      elim (Bool-cases (is_empty (roles_for_groups policy groups))) [
        | inl bare ↦ rw (bare, no_roles policy groups resource action bare (codes "allow")) refl
        | inr held ↦
            let effect =
              policy_effect policy.rules (roles_for_groups policy groups) resource action in
            rw (held, casbin policy.rules (roles_for_groups policy groups) resource action)
              (decision-if effect)
      ]

  -- A caller is authorized exactly when a rule that allows the action on the resource applies to
  -- one of the caller's roles, and no rule that denies it does.
  pub authorize_with_policy_iff :
      (action resource : Bytes)
      → (authorize_with_policy enforce policy groups action resource ≡ ok tt) ↔ (
          Applies policy groups resource action (codes "allow")
          × (¬ Applies policy groups resource action (codes "deny")))
  unfolding policy_effect
  authorize_with_policy_iff action resource = (granted, allowed)
    where
      decided : authorize_with_policy enforce policy groups action resource ≡ (
          if any (passes policy groups resource action (codes "allow")) policy.rules
            && not (any (passes policy groups resource action (codes "deny")) policy.rules)
          then ok tt
          else err forbidden)
      decided = authorize_with_policy-eq action resource

      granted :
          authorize_with_policy enforce policy groups action resource ≡ ok tt
          → Applies policy groups resource action (codes "allow")
            × (¬ Applies policy groups resource action (codes "deny"))
      granted h =
          let (a, d) = decided_parts _ _ (sym decided ∙ h) in
          (
            Applies-of_any policy groups resource action (codes "allow") a,
            λ deny. cc (any-of_Applies policy groups resource action (codes "deny") deny, d),
          )

      allowed :
          Applies policy groups resource action (codes "allow")
            × (¬ Applies policy groups resource action (codes "deny"))
          → authorize_with_policy enforce policy groups action resource ≡ ok tt
      allowed (a, d) =
          decided
          ∙ decided_ok _ _ (any-of_Applies policy groups resource action (codes "allow") a)
              (λ e. d (Applies-of_any policy groups resource action (codes "deny") e))
