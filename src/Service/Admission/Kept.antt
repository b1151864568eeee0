-- ===== src/Service/Admission/Kept.antt =====
-- What any calls leave of a lease.
use vaultsmith.Base.{
  ℕ, zero, suc, ◌≡◌, inl, inr, refl, sym, ap, ◌∙◌, Bool, true, false, not, ◌||◌, ◌==◌, ==_iff,
  arith, List, [], ◌∷◌, ◌++◌, Option, none, some, Option-cases, Bool-cases, ltb,
}
use vaultsmith.Service.Admission.{
  Admission, Context, ContextError, LeaseState, send, new_lease, context, lease_at, set_lease,
  try_acquire, release,
}
use vaultsmith.Service.Admission.Calls.{Call, acquire, give_back, bind_context, run_call, run_calls}
use vaultsmith.Service.Admission.Leases.{
  lease_at-set_lease, release_live, release_dead, release_absent, leases-release, context_first,
  context_later,
}

-- Whether the calls release the lease of this number.
unfoldable pub given_back : ℕ → List Call → Bool
given_back n [] = false
given_back n (give_back m ∷ cs) = m == n || given_back n cs
given_back n (acquire ctx before after ∷ cs) = given_back n cs
given_back n (bind_context m ctx ∷ cs) = given_back n cs

-- Whether they ask for its context, with one that is not nil.
unfoldable pub asked : ℕ → List Call → Bool
asked n [] = false
asked n (bind_context m (some ctx) ∷ cs) = m == n || asked n cs
asked n (bind_context m none ∷ cs) = asked n cs
asked n (acquire ctx before after ∷ cs) = asked n cs
asked n (give_back m ∷ cs) = asked n cs

lease_at-set_lease_other :
    (m n : ℕ) (next : LeaseState) (ls : List LeaseState)
    → (m == n) ≡ false
    → lease_at n (set_lease m next ls) ≡ lease_at n ls
unfolding lease_at set_lease
lease_at-set_lease_other m n next [] h = refl
lease_at-set_lease_other zero zero next (x ∷ ls) h = cc
lease_at-set_lease_other zero (suc n) next (x ∷ ls) h = refl
lease_at-set_lease_other (suc m) zero next (x ∷ ls) h = refl
lease_at-set_lease_other (suc m) (suc n) next (x ∷ ls) h =
    lease_at-set_lease_other m n next ls (ground arith)

lease_at-append :
    (n : ℕ) (l next : LeaseState) (ls : List LeaseState)
    → lease_at n ls ≡ some l
    → lease_at n (ls ++ (next ∷ [])) ≡ some l
unfolding lease_at
lease_at-append n l next [] e = cc
lease_at-append zero l next (x ∷ ls) e = e
lease_at-append (suc n) l next (x ∷ ls) e = lease_at-append n l next ls e

-- A lease after these calls: active until it is given back, and issued once it was asked for.
pub record Kept (id n : ℕ) (cs : List Call) (a : Admission) : Type 0 where
  pub lease : LeaseState
  pub same_id : a.id ≡ id
  pub present : lease_at n a.leases ≡ some lease
  pub active-eq : lease.active ≡ not (given_back n cs)
  pub issued-eq : given_back n cs ≡ false → lease.context_issued ≡ asked n cs

module _ (id n : ℕ) (cs : List Call) (a : Admission) (k : Kept id n cs a) where
  -- Calls that leave the lease alone.
  same_lease :
      (c : Call) (b : Admission)
      → b.id ≡ a.id
      → lease_at n b.leases ≡ lease_at n a.leases
      → given_back n (c ∷ cs) ≡ given_back n cs
      → asked n (c ∷ cs) ≡ asked n cs
      → Kept id n (c ∷ cs) b
  same_lease c b i e g q = record {
    lease = k.lease;
    same_id = i ∙ k.same_id;
    present = e ∙ k.present;
    active-eq = k.active-eq ∙ ap not (sym g);
    issued-eq = λ h. k.issued-eq (sym g ∙ h) ∙ sym q;
  }

  acquire-Kept :
      (ctx : Context) (before after : Option ContextError)
      → Kept id n (acquire ctx before after ∷ cs) (try_acquire ctx before after a).1
  unfolding try_acquire given_back asked
  acquire-Kept ctx (some e) after = same_lease _ a refl refl refl refl
  acquire-Kept ctx none (some e) = elim (Bool-cases (ltb a.tokens a.capacity)) [
    | inl room ↦ rw (room, try_acquire) (same_lease _ _ refl refl refl refl)
    | inr full ↦ rw (full, try_acquire) (same_lease _ _ refl refl refl refl)
  ]
  acquire-Kept ctx none none = elim (Bool-cases (ltb a.tokens a.capacity)) [
    | inl room ↦
        rw (room, try_acquire)
          (same_lease _ _ refl
            (lease_at-append n k.lease (new_lease ctx (send a)) a.leases k.present ∙ sym k.present)
            refl refl)
    | inr full ↦ rw (full, try_acquire) (same_lease _ _ refl refl refl refl)
  ]

  release-id : (m : ℕ) → (release m a).id ≡ a.id
  release-id m = elim (Option-cases (lease_at m a.leases)) [
    | inl e ↦ ap (λ x. x.id) (release_absent m a e)
    | inr (l, e) ↦ elim (Bool-cases l.active) [
      | inl active ↦ ap (λ x. x.id) (release_live m a l e active)
      | inr inactive ↦ ap (λ x. x.id) (release_dead m a l e inactive)
    ]
  ]

  release-other : (m : ℕ) → (m == n) ≡ false → lease_at n (release m a).leases ≡ lease_at n a.leases
  release-other m other = elim (Option-cases (lease_at m a.leases)) [
    | inl e ↦ ap (λ x. lease_at n x.leases) (release_absent m a e)
    | inr (l, e) ↦ elim (Bool-cases l.active) [
      | inl active ↦
          ap (λ x. lease_at n x.leases) (release_live m a l e active)
          ∙ lease_at-set_lease_other m n (record l { active = false }) a.leases other
      | inr inactive ↦ ap (λ x. lease_at n x.leases) (release_dead m a l e inactive)
    ]
  ]

  give_back-Kept : (m : ℕ) → Kept id n (give_back m ∷ cs) (release m a)
  unfolding given_back asked
  give_back-Kept m = elim (Bool-cases (m == n)) [
    | inr other ↦
        same_lease (give_back m) (release m a) (release-id m) (release-other m other)
          (rw other refl) refl
    | inl same ↦
        let e : m ≡ n = (==_iff m n).0 same in
        record {
          lease = record k.lease { active = false };
          same_id = release-id m ∙ k.same_id;
          present =
              ap (λ x. lease_at n (release x a).leases) e ∙ leases-release n a k.lease k.present;
          active-eq = rw same refl;
          issued-eq = λ h. cc (rw same at h);
        }
  ]

  context-id : (m : ℕ) (d : Context) → (context m (some d) a).1.id ≡ a.id
  unfolding context
  context-id m d = elim (Option-cases (lease_at m a.leases)) [
    | inl e ↦ rw (e, context) refl
    | inr (l, e) ↦ elim (Bool-cases (not l.active || l.context_issued)) [
      | inl later ↦ ap (λ x. x.1.id) (context_later m (some d) a l e later)
      | inr now ↦ ap (λ x. x.1.id) (context_first m d a l e now)
    ]
  ]

  context-other :
      (m : ℕ) (d : Context)
      → (m == n) ≡ false
      → lease_at n (context m (some d) a).1.leases ≡ lease_at n a.leases
  unfolding context
  context-other m d other = elim (Option-cases (lease_at m a.leases)) [
    | inl e ↦ rw (e, context) refl
    | inr (l, e) ↦ elim (Bool-cases (not l.active || l.context_issued)) [
      | inl later ↦ ap (λ x. lease_at n x.1.leases) (context_later m (some d) a l e later)
      | inr now ↦
          ap (λ x. lease_at n x.1.leases) (context_first m d a l e now)
          ∙ lease_at-set_lease_other m n (record l { context_issued = true }) a.leases other
    ]
  ]

  issued_if_active :
      (not k.lease.active || k.lease.context_issued) ≡ true
      → given_back n cs ≡ false
      → k.lease.context_issued ≡ true
  issued_if_active h g =
      let active : k.lease.active ≡ true = k.active-eq ∙ ap not g in rw active at h

  -- The lease after Context with a context that is not nil.
  record Asked (d : Context) : Type 0 where
    lease : LeaseState
    present : lease_at n (context n (some d) a).1.leases ≡ some lease
    active-eq : lease.active ≡ k.lease.active
    issued : given_back n cs ≡ false → lease.context_issued ≡ true

  ask : (d : Context) → Asked d
  ask d = elim (Bool-cases (not k.lease.active || k.lease.context_issued)) [
    | inl later ↦ record {
      lease = k.lease;
      present =
          ap (λ x. lease_at n x.1.leases) (context_later n (some d) a k.lease k.present later)
          ∙ k.present;
      active-eq = refl;
      issued = issued_if_active later;
    }
    | inr now ↦ record {
      lease = record k.lease { context_issued = true };
      present =
          ap (λ x. lease_at n x.1.leases) (context_first n d a k.lease k.present now)
          ∙ lease_at-set_lease n k.lease (record k.lease { context_issued = true }) a.leases
              k.present;
      active-eq = refl;
      issued = λ g. refl;
    }
  ]

  bind_context-Kept :
      (m : ℕ) (ctx : Option Context) → Kept id n (bind_context m ctx ∷ cs) (context m ctx a).1
  unfolding given_back asked context
  bind_context-Kept m none = same_lease (bind_context m none) a refl refl refl refl
  bind_context-Kept m (some d) = elim (Bool-cases (m == n)) [
    | inr other ↦
        same_lease (bind_context m (some d)) _ (context-id m d) (context-other m d other) refl
          (rw other refl)
    | inl same ↦
        let e : m ≡ n = (==_iff m n).0 same in
        let after = ask d in
        record {
          lease = after.lease;
          same_id = context-id m d ∙ k.same_id;
          present = ap (λ x. lease_at n (context x (some d) a).1.leases) e ∙ after.present;
          active-eq = after.active-eq ∙ k.active-eq;
          issued-eq = λ h. after.issued h ∙ rw same refl;
        }
  ]

pub run_calls-Kept :
    (id n : ℕ) (cs : List Call) (a : Admission) → Kept id n [] a → Kept id n cs (run_calls cs a)
unfolding run_calls run_call
run_calls-Kept id n [] a k = k
run_calls-Kept id n (acquire ctx before after ∷ cs) a k =
    acquire-Kept id n cs (run_calls cs a) (run_calls-Kept id n cs a k) ctx before after
run_calls-Kept id n (give_back m ∷ cs) a k =
    give_back-Kept id n cs (run_calls cs a) (run_calls-Kept id n cs a k) m
run_calls-Kept id n (bind_context m ctx ∷ cs) a k =
    bind_context-Kept id n cs (run_calls cs a) (run_calls-Kept id n cs a k) m ctx
