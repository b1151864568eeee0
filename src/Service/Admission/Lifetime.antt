-- ===== src/Service/Admission/Lifetime.antt =====
-- Which contexts a lease is live for, after any calls that followed its acquisition.
use vaultsmith.Base.{
  ◌≡◌, ◌↔◌, inl, inr, refl, sym, ap, subst, ◌∙◌, true, false, not, arith, List, [], ◌∷◌, ◌++◌,
  length, Option, none, some, Bool-cases, ok, ltb,
}
use vaultsmith.Service.Admission.{
  Admission, Context, ContextError, LeaseRef, LeaseState, grant, send, next_ref, new_lease,
  lease_at, try_acquire, live_for_context,
}
use vaultsmith.Service.Admission.Calls.{Call, run_calls}
use vaultsmith.Service.Admission.Kept.{given_back, asked, Kept, run_calls-Kept}
use vaultsmith.Service.Admission.Leases.{live_for_context_iff}

lease_at-last :
    (next : LeaseState) (ls : List LeaseState)
    → lease_at (length ls) (ls ++ (next ∷ [])) ≡ some next
unfolding lease_at
lease_at-last next [] = refl
lease_at-last next (x ∷ ls) = lease_at-last next ls

-- What an acquisition that succeeds leaves.
record Acquired (ref : LeaseRef) (a : Admission) : Type 0 where
  same_admission : ref.admission ≡ a.id
  kept : Kept a.id ref.number [] a

granted : (ctx : Context) (a : Admission) → Acquired (next_ref a) (grant ctx (send a))
unfolding given_back asked
granted ctx a = record {
  same_admission = refl;
  kept = record {
    lease = new_lease ctx (send a);
    same_id = refl;
    present = lease_at-last (new_lease ctx (send a)) a.leases;
    active-eq = refl;
    issued-eq = λ h. refl;
  };
}

try_acquire-Acquired :
    (ctx : Context) (before after : Option ContextError) (a next : Admission) (ref : LeaseRef)
    → try_acquire ctx before after a ≡ (ok ref, next)
    → Acquired ref next
unfolding try_acquire
try_acquire-Acquired ctx (some e) after a next ref h = cc (ap (λ x. x.0) h)
try_acquire-Acquired ctx none (some e) a next ref h = elim (Bool-cases (ltb a.tokens a.capacity)) [
  | inl room ↦ cc (ap (λ x. x.0) (rw (room, try_acquire) at h))
  | inr full ↦ cc (ap (λ x. x.0) (rw (full, try_acquire) at h))
]
try_acquire-Acquired ctx none none a next ref h = elim (Bool-cases (ltb a.tokens a.capacity)) [
  | inr full ↦ cc (ap (λ x. x.0) (rw (full, try_acquire) at h))
  | inl room ↦
      let e = rw (room, try_acquire) at h in
      let same : next_ref a ≡ ref = cc (ap (λ x. x.0) e) in
      let after : grant ctx (send a) ≡ next = ap (λ x. x.1) e in
      subst (λ r. Acquired r next) same (subst (Acquired (next_ref a)) after (granted ctx a))
]

-- After TryAcquire gave out a lease, and any calls of any leases after that: a context is live for
-- the lease exactly when it carries the binding of that lease, the calls asked for the context of
-- the lease with one that is not nil, and they did not release it.
pub live_for_context-run_calls_iff :
    (ctx : Context) (before after : Option ContextError) (a next : Admission) (ref : LeaseRef)
    → try_acquire ctx before after a ≡ (ok ref, next)
    → (cs : List Call) (given : Context)
    → (live_for_context ref given (run_calls cs next) ≡ true) ↔ (
        (given.binding ≡ some ref)
        × (asked ref.number cs ≡ true)
        × (given_back ref.number cs ≡ false))
live_for_context-run_calls_iff ctx before after a next ref h cs given = (to, from)
  where
    acquired : Acquired ref next
    acquired = try_acquire-Acquired ctx before after a next ref h

    k : Kept next.id ref.number cs (run_calls cs next)
    k = run_calls-Kept next.id ref.number cs next acquired.kept

    to :
        live_for_context ref given (run_calls cs next) ≡ true
        → (given.binding ≡ some ref)
          × (asked ref.number cs ≡ true)
          × (given_back ref.number cs ≡ false)
    to l =
        let live = (live_for_context_iff ref given (run_calls cs next)).0 l in
        let same : k.lease ≡ live.lease = cc (k.present, live.present) in
        let kept : given_back ref.number cs ≡ false =
          ground (arith, k.active-eq, ap (λ x. x.active) same, live.active) in
        (live.bound, sym (k.issued-eq kept) ∙ ap (λ x. x.context_issued) same ∙ live.issued, kept)

    from :
        (given.binding ≡ some ref)
          × (asked ref.number cs ≡ true)
          × (given_back ref.number cs ≡ false)
        → live_for_context ref given (run_calls cs next) ≡ true
    from (bound, was_asked, kept) = (live_for_context_iff ref given (run_calls cs next)).1 (record {
      lease = k.lease;
      same_admission = acquired.same_admission ∙ sym k.same_id;
      bound = bound;
      present = k.present;
      active = k.active-eq ∙ ap not kept;
      issued = k.issued-eq kept ∙ was_asked;
    })
