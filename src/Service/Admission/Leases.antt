-- ===== src/Service/Admission/Leases.antt =====
-- What a lease and its contexts promise.
use vaultsmith.Base.{
  ℕ, zero, suc, ◌≡◌, ◌↔◌, inl, inr, refl, sym, ap, subst, ◌∙◌, true, false, not, ◌||◌, ◌==◌, ==_iff,
  ==-refl, &&-eq-true, arith, List, [], ◌∷◌, Option, none, some, Option-cases, Bool-cases,
}
use vaultsmith.Service.Admission.{
  Admission, Context, LeaseRef, LeaseState, deactivate, count_out, receive, context, lease_at,
  set_lease, release, live_for_context, bound_to, ref_eq, execution_context,
}

pub lease_at-set_lease :
    (n : ℕ) (l next : LeaseState) (ls : List LeaseState)
    → lease_at n ls ≡ some l
    → lease_at n (set_lease n next ls) ≡ some next
unfolding lease_at set_lease
lease_at-set_lease n l next [] e = cc
lease_at-set_lease zero l next (x ∷ ls) e = refl
lease_at-set_lease (suc n) l next (x ∷ ls) e = lease_at-set_lease n l next ls e

pub release_live :
    (n : ℕ) (a : Admission) (l : LeaseState)
    → lease_at n a.leases ≡ some l
    → l.active ≡ true
    → release n a ≡ count_out (receive (deactivate n l a))
unfolding release
release_live n a l e active = rw (e, active, release) refl

pub release_dead :
    (n : ℕ) (a : Admission) (l : LeaseState)
    → lease_at n a.leases ≡ some l
    → l.active ≡ false
    → release n a ≡ a
unfolding release
release_dead n a l e inactive = rw (e, inactive, release) refl

pub release_absent : (n : ℕ) (a : Admission) → lease_at n a.leases ≡ none → release n a ≡ a
unfolding release
release_absent n a e = rw (e, release) refl

-- A lease after its release.
pub leases-release :
    (n : ℕ) (a : Admission) (l : LeaseState)
    → lease_at n a.leases ≡ some l
    → lease_at n (release n a).leases ≡ some (record l { active = false })
leases-release n a l e = elim (Bool-cases l.active) [
  | inl active ↦
      ap (λ x. lease_at n x.leases) (release_live n a l e active)
      ∙ lease_at-set_lease n l (record l { active = false }) a.leases e
  | inr inactive ↦
      ap (λ x. lease_at n x.leases) (release_dead n a l e inactive)
      ∙ e
      ∙ ap (λ b. some (record l { active = b })) inactive
]

-- Releasing a lease again changes nothing, so its token is given back once.
pub release_idem : (n : ℕ) (a : Admission) → release n (release n a) ≡ release n a
release_idem n a = elim (Option-cases (lease_at n a.leases)) [
  | inl e ↦ ap (release n) (release_absent n a e)
  | inr (l, e) ↦
      release_dead n (release n a) (record l { active = false }) (leases-release n a l e) refl
]

pub context_later :
    (n : ℕ) (ctx : Option Context) (a : Admission) (l : LeaseState)
    → lease_at n a.leases ≡ some l
    → (not l.active || l.context_issued) ≡ true
    → context n ctx a ≡ (ctx, a)
unfolding context
context_later n none a l e h = refl
context_later n (some ctx) a l e h = rw (e, h, context) refl

pub context_nil : (n : ℕ) (a : Admission) → context n none a ≡ (none, a)
unfolding context
context_nil n a = refl

abbrev pub issued_lease : ℕ → LeaseState → Admission → Admission
issued_lease n l a = record a { leases = set_lease n (record l { context_issued = true }) a.leases }

pub context_first :
    (n : ℕ) (ctx : Context) (a : Admission) (l : LeaseState)
    → lease_at n a.leases ≡ some l
    → (not l.active || l.context_issued) ≡ false
    → context n (some ctx) a ≡ (some l.bound_context, issued_lease n l a)
unfolding context
context_first n ctx a l e h = rw (e, h, context) refl

-- The fresh lease, which may hand out its context.
pub record Fresh (n : ℕ) (a : Admission) (l : LeaseState) : Type 0 where
  pub present : lease_at n a.leases ≡ some l
  pub active : l.active ≡ true
  pub unissued : l.context_issued ≡ false

-- On an active lease that has not handed out its context, Context returns the bound context
-- whatever context it is given that is not nil, and from then on it returns what it is given, with a
-- binding or without one, and changes nothing. Given nil, it returns nil and changes nothing.
pub context_once :
    (n : ℕ) (a : Admission) (l : LeaseState)
    → Fresh n a l
    → (ctx : Context) (other : Option Context)
    → ((context n (some ctx) a).0 ≡ some l.bound_context)
      × (context n other (context n (some ctx) a).1 ≡ (other, (context n (some ctx) a).1))
      × (context n none a ≡ (none, a))
context_once n a l f ctx other =
    let given = context_first n ctx a l f.present (rw (f.active, f.unissued) refl) in
    let present = lease_at-set_lease n l (record l { context_issued = true }) a.leases f.present in
    let issued : (not l.active || true) ≡ true = rw f.active refl in
    (
      ap (λ p. p.0) given,
      subst (λ b. context n other b ≡ (other, b)) (sym (ap (λ p. p.1) given))
          (context_later n other (issued_lease n l a) (record l { context_issued = true }) present
            issued),
      context_nil n a,
    )

-- When a context may be used for work under a lease.
pub record Live (ref : LeaseRef) (ctx : Context) (a : Admission) : Type 0 where
  pub lease : LeaseState
  pub same_admission : ref.admission ≡ a.id
  pub bound : ctx.binding ≡ some ref
  pub present : lease_at ref.number a.leases ≡ some lease
  pub active : lease.active ≡ true
  pub issued : lease.context_issued ≡ true

abbrev ref_of : ℕ → ℕ → LeaseRef
ref_of admission number = record { admission = admission; number = number }

ref_eq-eq : (r q : LeaseRef) → ref_eq r q ≡ true → r ≡ q
ref_eq-eq r q h =
    let (x, y) = &&-eq-true (r.admission == q.admission) _ h in
    let e : r.admission ≡ q.admission = (==_iff _ _).0 x in
    let k : r.number ≡ q.number = (==_iff _ _).0 y in
    ap (λ z. ref_of z r.number) e ∙ ap (ref_of q.admission) k

pub bound_to_iff :
    (ctx : Context) (ref : LeaseRef) → (bound_to ctx ref ≡ true) ↔ (ctx.binding ≡ some ref)
unfolding bound_to
bound_to_iff ctx ref = elim (Option-cases ctx.binding) [
  | inl e ↦ (λ h. cc (rw e at h), λ h. cc)
  | inr (bound, e) ↦ (
    λ h. e ∙ ap some (ref_eq-eq bound ref (rw e at h)),
    λ h. rw (h, ==-refl ref.admission, ==-refl ref.number) refl,
  )
]

-- A context is live for a lease exactly when it carries the binding of that very lease, and the
-- lease is one of this admission, is active and has handed out its context.
pub live_for_context_iff :
    (ref : LeaseRef) (ctx : Context) (a : Admission)
    → (live_for_context ref ctx a ≡ true) ↔ Live ref ctx a
unfolding live_for_context
live_for_context_iff ref ctx a = (to, from)
  where
    to : live_for_context ref ctx a ≡ true → Live ref ctx a
    to h = elim (Bool-cases (not (ref.admission == a.id) || not (bound_to ctx ref))) [
      | inl g ↦ cc (rw (g, live_for_context) at h)
      | inr g ↦ elim (Option-cases (lease_at ref.number a.leases)) [
        | inl e ↦ cc (rw (g, e, live_for_context) at h)
        | inr (l, e) ↦
            let (active, issued) = &&-eq-true l.active _ (rw (g, e, live_for_context) at h) in
            record {
              lease = l;
              same_admission = ground arith;
              bound = (bound_to_iff ctx ref).0 (ground arith);
              present = e;
              active = active;
              issued = issued;
            }
      ]
    ]

    from : Live ref ctx a → live_for_context ref ctx a ≡ true
    from k =
        let same : (ref.admission == a.id) ≡ true = (==_iff _ _).1 k.same_admission in
        rw (same, (bound_to_iff ctx ref).1 k.bound, k.present, live_for_context, k.active, k.issued)
          refl

-- After its release a lease serves no context, and it has no context to run with.
pub release_ends :
    (ref : LeaseRef) (ctx : Context) (a : Admission)
    → (live_for_context ref ctx (release ref.number a) ≡ false)
      × (execution_context ref.number (release ref.number a) ≡ none)
unfolding execution_context
release_ends ref ctx a = (no_context, nothing_to_run)
  where
    released : Live ref ctx (release ref.number a) → false ≡ true
    released k = elim (Option-cases (lease_at ref.number a.leases)) [
      | inl e ↦
          cc (k.present, ap (λ x. lease_at ref.number x.leases) (release_absent ref.number a e), e)
      | inr (l, e) ↦
          let same : record l { active = false } ≡ k.lease =
            cc (leases-release ref.number a l e, k.present) in
          ap (λ x. x.active) same ∙ k.active
    ]

    no_context : live_for_context ref ctx (release ref.number a) ≡ false
    no_context = elim (Bool-cases (live_for_context ref ctx (release ref.number a))) [
      | inl h ↦ cc (released ((live_for_context_iff ref ctx (release ref.number a)).0 h))
      | inr h ↦ h
    ]

    nothing_to_run : execution_context ref.number (release ref.number a) ≡ none
    nothing_to_run = elim (Option-cases (lease_at ref.number a.leases)) [
      | inl e ↦ rw (release_absent ref.number a e, execution_context, e) refl
      | inr (l, e) ↦ rw (execution_context, leases-release ref.number a l e) refl
    ]
