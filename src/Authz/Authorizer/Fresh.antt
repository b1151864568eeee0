-- ===== src/Authz/Authorizer/Fresh.antt =====
-- Which policy a call decides with.
use vaultsmith.Base.{
  ℕ, ◌≡◌, ◌↔◌, refl, ap, sym, ◌∙◌, Bool, true, false, ◌&&◌, ◌==◌, List, [], ◌∷◌, arith, inl, inr,
  Bool-cases, Option-cases, Bytes, codes, is_empty, none, some, Result, ok, err, ◌>>=◌,
}
use vaultsmith.Authz.Policy.{Policy}
use vaultsmith.Authz.Enforce.{
  AuthzError, policy_unavailable, Enforce, IsCasbin, authorize_with_policy, evaluate_checks,
}
use vaultsmith.Authz.Enforce.Decide.{Applies, authorize_with_policy_iff}
use vaultsmith.Authz.Load.{Snapshot, World, load_policy}
use vaultsmith.Authz.Authorizer.{adopt, current_policy, evaluate, authorize, sole}

-- The policy in use and what is held next: the held ones where no file is named or where the file
-- still has the held time and size, and otherwise those loaded from the file.
pub data Current (world : World) (held : Snapshot) (p : Policy) (next : Snapshot) : Type 0 where
  no_file : held.path ≡ [] → p ≡ held.policy → next ≡ held → Current world held p next
  unchanged :
      (¬ (held.path ≡ []))
      → world.stat held.path ≡ some (held.mod_time, held.size)
      → p ≡ held.policy
      → next ≡ held
      → Current world held p next
  reloaded :
      (¬ (held.path ≡ []))
      → (mod_time size : ℕ) → world.stat held.path ≡ some (mod_time, size)
      → (¬ ((mod_time ≡ held.mod_time) × (size ≡ held.size)))
      → load_policy world held.path held.profile_ids ≡ ok next
      → p ≡ next.policy
      → Current world held p next

is_empty_iff : (s : Bytes) → (is_empty s ≡ true) ↔ (s ≡ [])
is_empty_iff [] = (λ h. refl, λ h. refl)
is_empty_iff (c ∷ s) = (λ h. cc, λ h. cc)

same_info_iff : (t n u m : ℕ) → ((t == u && n == m) ≡ true) ↔ ((t ≡ u) × (n ≡ m))
same_info_iff t n u m = (λ h. (ground arith, ground arith), λ (e, k). ground arith)

to_false : (b : Bool) → (b ≡ true → false ≡ true) → b ≡ false
to_false false h = refl
to_false true h = sym (h refl)

to_not : {b : Bool} {P : Type 0} → b ≡ false → (P → b ≡ true) → ¬ P
to_not e f p = cc (e, f p)

ok-eq : {A : Type 0} {x y : A} → ◌≡◌ {A = Result AuthzError A} (ok x) (ok y) → x ≡ y
ok-eq h = ground arith

module _ (world : World) (held : Snapshot) where
  without_file : held.path ≡ [] → current_policy world held ≡ (ok held.policy, held)
  unfolding current_policy
  without_file e = rw ((is_empty_iff held.path).1 e, current_policy) refl

  with_same :
      (t n : ℕ)
      → is_empty held.path ≡ false
      → world.stat held.path ≡ some (t, n)
      → (t == held.mod_time && n == held.size) ≡ true
      → current_policy world held ≡ (ok held.policy, held)
  unfolding current_policy
  with_same t n e s same = rw (e, s, same, current_policy) refl

  with_changed :
      (t n : ℕ)
      → is_empty held.path ≡ false
      → world.stat held.path ≡ some (t, n)
      → (t == held.mod_time && n == held.size) ≡ false
      → current_policy world held ≡ adopt held (load_policy world held.path held.profile_ids)
  unfolding current_policy
  with_changed t n e s changed = rw (e, s, changed, current_policy) refl

  without_stat :
      is_empty held.path ≡ false
      → world.stat held.path ≡ none
      → (current_policy world held).0 ≡ err policy_unavailable
  unfolding current_policy
  without_stat e s = rw (e, s, current_policy) refl

  named : is_empty held.path ≡ false → ¬ (held.path ≡ [])
  named e = to_not e (is_empty_iff held.path).1

  is_named : (¬ (held.path ≡ [])) → is_empty held.path ≡ false
  is_named f = to_false (is_empty held.path) λ h. absurd (f ((is_empty_iff held.path).0 h))

  adopt_iff :
      (r : Result AuthzError Snapshot) (p : Policy) (next : Snapshot)
      → (adopt held r ≡ (ok p, next)) ↔ ((r ≡ ok next) × (p ≡ next.policy))
  unfolding adopt
  adopt_iff (ok s) p next = (
    λ h.
        let e : ◌≡◌ {A = Result AuthzError Policy} (ok s.policy) (ok p) = ap (λ x. x.0) h in
        let k : s ≡ next = ap (λ x. x.1) h in (ap ok k, sym (ok-eq e) ∙ ap (λ x. x.policy) k),
    λ (e, k). let same : s ≡ next = ok-eq e in cc,
  )
  adopt_iff (err x) p next = (λ h. cc (ap (λ y. y.0) h), λ (e, k). cc)

  held-eq :
      (p : Policy) (next : Snapshot)
      → ◌≡◌ {A = Result AuthzError Policy × Snapshot} (ok held.policy, held) (ok p, next)
      → (p ≡ held.policy) × (next ≡ held)
  held-eq p next h = (sym (ok-eq (ap (λ x. x.0) h)), sym (ap (λ x. x.1) h))

  -- A call uses the held policy, and goes on holding it, where no file is named or the file still
  -- has the held time and size; where they differ it uses the policy that loading the file gives,
  -- which is held from then on. In every other case it gives no policy.
  pub current_policy_iff :
      (p : Policy) (next : Snapshot)
      → (current_policy world held ≡ (ok p, next)) ↔ Current world held p next
  current_policy_iff p next = (to, from)
    where
      to : current_policy world held ≡ (ok p, next) → Current world held p next
      to h = elim (Bool-cases (is_empty held.path)) [
        | inl e ↦
            let path : held.path ≡ [] = (is_empty_iff held.path).0 e in
            let (k, l) = held-eq p next (sym (without_file path) ∙ h) in no_file path k l
        | inr e ↦ elim (Option-cases (world.stat held.path)) [
          | inl s ↦ cc (without_stat e s, ap (λ x. x.0) h)
          | inr ((t, n), s) ↦ elim (Bool-cases (t == held.mod_time && n == held.size)) [
            | inl same ↦
                let (x, y) = (same_info_iff t n held.mod_time held.size).0 same in
                let (k, l) = held-eq p next (sym (with_same t n e s same) ∙ h) in
                unchanged (named e)
                  (s ∙ ap some (ap (λ u. (u, n)) x ∙ ap (λ u. (held.mod_time, u)) y)) k l
            | inr changed ↦
                let (k, l) = (adopt_iff _ p next).0 (sym (with_changed t n e s changed) ∙ h) in
                reloaded (named e) t n s
                  (to_not changed (same_info_iff t n held.mod_time held.size).1) k l
          ]
        ]
      ]

      from : Current world held p next → current_policy world held ≡ (ok p, next)
      from (no_file path k l) = cc (without_file path, k, l)
      from (unchanged path s k l) =
          let same =
            (same_info_iff held.mod_time held.size held.mod_time held.size).1 (refl, refl) in
          cc (with_same held.mod_time held.size (is_named path) s same, k, l)
      from (reloaded path t n s changed k l) =
          let other =
            to_false (t == held.mod_time && n == held.size)
              λ h. absurd (changed ((same_info_iff t n held.mod_time held.size).0 h)) in
          with_changed t n (is_named path) s other ∙ (adopt_iff _ p next).1 (k, l)

sole-eq-ok : (b : Bool) → sole (b ∷ []) ≡ ok tt → b ≡ true
unfolding sole
sole-eq-ok true h = refl
sole-eq-ok false h = cc

-- The decision on one check is that of authorizeWithPolicy.
authorize_one :
    (enforce : Enforce) (p : Policy) (groups : List Bytes) (action resource : Bytes)
    → ((evaluate_checks enforce p groups (record { action = action; resource = resource } ∷ [])
          >>= sole)
        ≡ ok tt)
      ↔ (authorize_with_policy enforce p groups action resource ≡ ok tt)
unfolding evaluate_checks sole
authorize_one enforce p groups action resource = (λ h. ground arith, λ h. ground arith)

decided_with :
    (enforce : Enforce) (groups : List Bytes) (action resource : Bytes)
    (r : Result AuthzError Policy)
    → ((r >>= λ p.
          evaluate_checks enforce p groups (record { action = action; resource = resource } ∷ []))
        >>= sole)
      ≡ ok tt
    → (p : Policy) × (r ≡ ok p) × (authorize_with_policy enforce p groups action resource ≡ ok tt)
decided_with enforce groups action resource (ok p) h =
    (p, refl, (authorize_one enforce p groups action resource).0 h)
decided_with enforce groups action resource (err e) h = cc

-- A call is authorized exactly when there is a policy in use (the held one where no file is named
-- or the file still has the held time and size, and otherwise the one loaded from the file) that has
-- a rule that allows the action and applies to the caller, and none that denies it and applies.
pub authorize_iff :
    (enforce : Enforce)
    → IsCasbin enforce
    → (world : World) (held : Snapshot) (groups : List Bytes) (action resource : Bytes)
    → ((authorize enforce world held groups action resource).0 ≡ ok tt) ↔ (
        (p : Policy) × (next : Snapshot) × Current world held p next
        × Applies p groups resource action (codes "allow")
        × (¬ Applies p groups resource action (codes "deny")))
unfolding authorize evaluate
authorize_iff enforce casbin world held groups action resource = (
  λ h.
      let (p, e, authorized) =
        decided_with enforce groups action resource (current_policy world held).0 h in
      let next = (current_policy world held).1 in
      let (a, d) =
        (authorize_with_policy_iff enforce casbin p groups action resource).0 authorized in
      (p, next, (current_policy_iff world held p next).0 (ap (λ r. (r, next)) e), a, d),
  λ (p, next, current, a, d).
      let e = ap (λ x. x.0) ((current_policy_iff world held p next).1 current) in
      rw (e, authorize)
        ((authorize_one enforce p groups action resource).1
          ((authorize_with_policy_iff enforce casbin p groups action resource).1 (a, d))),
)
