-- ===== src/Service/Admission/Calls.antt =====
-- Whole calls of Admission: each is a sequence of steps, and what a sequence of them leaves.
use vaultsmith.Base.{
  ℕ, ◌<◌, ◌≡◌, ◌↔◌, inl, inr, refl, ap, true, false, arith, List, [], ◌∷◌, Option, none, some,
  Option-cases, Bool-cases, ok, ltb, ltb→lt, not-ltb→le,
}
use vaultsmith.Service.Admission.{
  Admission, AdmissionError, Context, ContextError, LeaseRef, LeaseState, new_admission, next_ref,
  context, lease_at, try_acquire, release,
}
use vaultsmith.Service.Admission.Steps.{
  Running, on, first, put, full, withdraw, admit, begin, take_token, finish, issue, Steps, stop,
  more, count, weight, active_leases, active_leases-set_lease,
}
use vaultsmith.Service.Admission.Counts.{Counts, Steps-Counts}

-- A call of the interface, with what its contexts report.
pub data Call : Type 0 where
  acquire : Context → Option ContextError → Option ContextError → Call
  give_back : ℕ → Call
  bind_context : ℕ → Option Context → Call

unfoldable pub run_call : Call → Admission → Admission
run_call (acquire ctx before after) a = (try_acquire ctx before after a).1
run_call (give_back n) a = release n a
run_call (bind_context n ctx) a = (context n ctx a).1

-- The last call first.
unfoldable pub run_calls : List Call → Admission → Admission
run_calls [] a = a
run_calls (c ∷ cs) a = run_call c (run_calls cs a)

Steps-trans : {r s t : Running} → Steps r s → Steps s t → Steps r t
Steps-trans p stop = p
Steps-trans p (more q step) = more (Steps-trans p q) step

acquire-Steps :
    (ctx : Context) (before after : Option ContextError) (a : Admission)
    → Steps (on a []) (on (try_acquire ctx before after a).1 [])
unfolding try_acquire
acquire-Steps ctx (some e) after a = stop
acquire-Steps ctx none (some e) a = elim (Bool-cases (ltb a.tokens a.capacity)) [
  | inl room ↦
      rw (room, try_acquire)
        (more (more stop (put (ltb→lt a.tokens a.capacity room))) (withdraw first (omega arith)))
  | inr none_left ↦
      rw (none_left, try_acquire) (more stop (full (not-ltb→le a.tokens a.capacity none_left)))
]
acquire-Steps ctx none none a = elim (Bool-cases (ltb a.tokens a.capacity)) [
  | inl room ↦
      rw (room, try_acquire)
        (more (more stop (put (ltb→lt a.tokens a.capacity room))) (admit ctx first))
  | inr none_left ↦
      rw (none_left, try_acquire) (more stop (full (not-ltb→le a.tokens a.capacity none_left)))
]

active-pos :
    (n : ℕ) (l : LeaseState) (ls : List LeaseState)
    → lease_at n ls ≡ some l
    → l.active ≡ true
    → 0 < active_leases ls
unfolding weight
active-pos n l ls e active =
    let one : weight l.active ≡ 1 = ap weight active in
    omega (arith, one, active_leases-set_lease n l (record l { active = false }) ls e)

release-Steps : (n : ℕ) (a : Admission) → Counts (on a []) → Steps (on a []) (on (release n a) [])
unfolding release
release-Steps n a h = elim (Option-cases (lease_at n a.leases)) [
  | inl e ↦ rw (e, release) stop
  | inr (l, e) ↦ elim (Bool-cases l.active) [
    | inr inactive ↦ rw (e, inactive, release) stop
    | inl active ↦
        rw (e, active, release)
          (more
            (more (more stop (begin n l e active))
              (take_token first (omega (arith, h.tokens-eq, active-pos n l a.leases e active))))
            (finish first))
  ]
]

module _ (id capacity : ℕ) (saturated : AdmissionError) {a : Admission}
    (new : new_admission id capacity saturated ≡ ok a) where
  -- Calls one after the other on a new admission are steps of it: the steps are an account of the
  -- whole calls.
  pub run_calls-Steps : (calls : List Call) → Steps (on a []) (on (run_calls calls a) [])
  unfolding run_calls run_call
  run_calls-Steps [] = stop
  run_calls-Steps (acquire ctx before after ∷ cs) =
      Steps-trans (run_calls-Steps cs) (acquire-Steps ctx before after (run_calls cs a))
  run_calls-Steps (give_back n ∷ cs) = Steps-trans (run_calls-Steps cs) (
      release-Steps n (run_calls cs a)
        (Steps-Counts id capacity saturated new (run_calls-Steps cs)))
  run_calls-Steps (bind_context n ctx ∷ cs) = more (run_calls-Steps cs) (issue n ctx)

  -- After any calls one after the other, TryAcquire with a context that has not ended gives a
  -- lease exactly when fewer leases are active than the capacity.
  pub try_acquire_iff :
      (calls : List Call) (ctx : Context)
      → ((ref : LeaseRef) × ((try_acquire ctx none none (run_calls calls a)).0 ≡ ok ref))
        ↔ (active_leases (run_calls calls a).leases < (run_calls calls a).capacity)
  unfolding try_acquire count
  try_acquire_iff calls ctx = elim (Bool-cases (ltb b.tokens b.capacity)) [
    | inl room ↦ (
      λ h. omega (arith, tokens, ltb→lt b.tokens b.capacity room),
      λ h. (next_ref b, rw (room, try_acquire) refl),
    )
    | inr none_left ↦ (
      λ (ref, e). cc (rw (none_left, try_acquire) at e),
      λ h. absurd (omega (arith, tokens, not-ltb→le b.tokens b.capacity none_left)),
    )
  ]
    where
      b : Admission
      b = run_calls calls a

      tokens : b.tokens ≡ active_leases b.leases
      tokens =
          omega (arith, (Steps-Counts id capacity saturated new (run_calls-Steps calls)).tokens-eq)
