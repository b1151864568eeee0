-- ===== src/Authz/Authorizer.antt =====
-- currentPolicy, Evaluate, Authorize, AuthorizeRotate and CapabilitiesForProfiles of authorizer.go.
-- A call returns the authorizer's next state beside its result.
pub mod Fresh
pub mod Rotate
use vaultsmith.Base.{
  ℕ, Bool, true, false, not, ◌||◌, ◌&&◌, ◌==◌, List, [], ◌∷◌, Bytes, is_empty, if◌then◌else◌,
  Option, none, some, Result, ok, err, ◌>>=◌,
}
use vaultsmith.Authz.Policy.{Policy, profile_resource, rotation_resource}
use vaultsmith.Authz.Enforce.{
  AuthzError, forbidden, policy_unavailable, Check, Enforce, authorize_with_policy, evaluate_checks,
  action_list_profiles, action_encrypt, action_decrypt, action_rotate, resource_profiles,
}
use vaultsmith.Authz.Load.{Snapshot, World, load_policy}

-- The policy of this call and the policy held from now on.
adopt : Snapshot → Result AuthzError Snapshot → Result AuthzError Policy × Snapshot
adopt held (ok next) = (ok next.policy, next)
adopt held (err e) = (err e, held)

unfoldable pub current_policy : World → Snapshot → Result AuthzError Policy × Snapshot
unfolding adopt
current_policy world held =
    if is_empty held.path then (ok held.policy, held) else elim (world.stat held.path) [
      | none ↦ (err policy_unavailable, held)
      | some (mod_time, size) ↦
          if mod_time == held.mod_time && size == held.size
          then (ok held.policy, held)
          else adopt held (load_policy world held.path held.profile_ids)
    ]

pub record ProfileCapabilities : Type 0 where
  pub encrypt : Bool
  pub decrypt : Bool

-- `len(allowed) != 1 || !allowed[0]`
sole : List Bool → Result AuthzError (Unit {0})
sole (true ∷ []) = ok tt
sole _ = err forbidden

-- A denial is no capability; any other failure is the failure of the call.
capable : Result AuthzError (Unit {0}) → Result AuthzError Bool
capable (ok _) = ok true
capable (err forbidden) = ok false
capable (err policy_unavailable) = err policy_unavailable

abbrev keep_capable :
    Bytes
    → ProfileCapabilities
    → List (Bytes × ProfileCapabilities)
    → List (Bytes × ProfileCapabilities)
keep_capable id c rest = if c.encrypt || c.decrypt then (id, c) ∷ rest else rest

module _ (enforce : Enforce) (world : World) where
  unfoldable pub evaluate :
      Snapshot → List Bytes → List Check → Result AuthzError (List Bool) × Snapshot
  evaluate held groups checks =
      let (policy, next) = current_policy world held in
      (policy >>= λ p. evaluate_checks enforce p groups checks, next)

  unfoldable pub authorize :
      Snapshot → List Bytes → Bytes → Bytes → Result AuthzError (Unit {0}) × Snapshot
  unfolding sole
  authorize held groups action resource =
      let (allowed, next) =
        evaluate held groups (record { action = action; resource = resource } ∷ []) in
      (allowed >>= sole, next)

  unfoldable pub authorize_rotate :
      Snapshot → List Bytes → Bytes → Bytes → Result AuthzError (Unit {0}) × Snapshot
  authorize_rotate held groups source destination =
      authorize held groups action_rotate (rotation_resource source destination)

  unfoldable pub profile_capabilities :
      Policy → List Bytes → List Bytes → Result AuthzError (List (Bytes × ProfileCapabilities))
  unfolding capable
  profile_capabilities policy groups [] = ok []
  profile_capabilities policy groups (id ∷ ids) =
      let rest = profile_capabilities policy groups ids in
      do
        may_encrypt ←
            capable
              (authorize_with_policy enforce policy groups action_encrypt (profile_resource id))
        may_decrypt ←
            capable
              (authorize_with_policy enforce policy groups action_decrypt (profile_resource id))
        others ← rest
        ok (keep_capable id (record { encrypt = may_encrypt; decrypt = may_decrypt }) others)

  -- Listing is itself an authorized action: without it the map is empty.
  listed :
      Policy
      → List Bytes
      → List Bytes
      → Result AuthzError (Unit {0})
      → Result AuthzError (List (Bytes × ProfileCapabilities))
  listed policy groups ids (ok _) = profile_capabilities policy groups ids
  listed policy groups ids (err forbidden) = ok []
  listed policy groups ids (err policy_unavailable) = err policy_unavailable

  unfoldable pub capabilities_for_profiles :
      Snapshot
      → List Bytes
      → List Bytes
      → Result AuthzError (List (Bytes × ProfileCapabilities)) × Snapshot
  unfolding listed
  capabilities_for_profiles held groups ids =
      let (policy, next) = current_policy world held in
      (
        policy >>= λ p.
            listed p groups ids
              (authorize_with_policy enforce p groups action_list_profiles resource_profiles),
        next,
      )
